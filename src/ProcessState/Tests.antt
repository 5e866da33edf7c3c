-- ===== src/ProcessState/Tests.antt =====
-- Tests of the model of native/ProcessState.cpp, and its theorems at concrete states.
use learn_node.Base.{
  ℕ, ◌≡◌, ◌⊎◌, refl, ◌≢◌, ◌↔◌, ◌+◌, true, false, none, some, List, [], ◌∷◌, arith,
}
use Prim.Native.String.{String}
use learn_node.Status.{Status, no_error, name_not_found}
use learn_node.ProcessState.{
  empty_entry, Handles, Answers, created, entry_at, needs_proxy, get_strong_proxy_for_handle,
  get_weak_proxy_for_handle, expunge_handle, HandleCall, gets_strong, gets_weak, expunges,
  handle_run,
}
use learn_node.ProcessState.Handles.{IsLinked, get_strong-canonical}
use learn_node.ProcessState.Links.{handle_run-IsLinked, expunge_handle_replaced}
use learn_node.ProcessState.Pool.{PoolCall, starts, spawns, new_pool, pool_run, pool_run-expected}
use learn_node.ProcessState.Contexts.{
  Contexts, get_context_object, done, failed, become_context_manager,
  become_context_manager_outcome,
}
use learn_node.ProcessState.Driver.{
  set_max_threads, Kernel, open_driver, new_process, new_process_iff, closes, closes_none,
  open_driver-closes,
}

abbrev weak_refs : ℕ → ℕ
weak_refs b = b + 1

-- What the process answers while the next proxy gets the address `b`.
abbrev giving : ℕ → Answers
giving b = record {
  insert_at = no_error;
  attempt_inc_weak = λ r. true;
  ping = no_error;
  new_binder = b;
}

abbrev table : Handles
table = empty_entry ∷ record { binder = 500; refs = 501 } ∷ []

grown_table : get_strong_proxy_for_handle weak_refs (giving 600) 2 table ≡ (
  600,
  empty_entry ∷ record { binder = 500; refs = 501 } ∷ record { binder = 600; refs = 601 } ∷ [],
  created 600 2 ∷ [],
)
unfolding get_strong_proxy_for_handle
grown_table = refl

get_strong-canonical_example :
    ((get_strong_proxy_for_handle weak_refs
        (giving 700)
        2
        (get_strong_proxy_for_handle weak_refs (giving 600) 2 table).1).0
      ≡ (get_strong_proxy_for_handle weak_refs (giving 600) 2 table).0)
    × ((get_strong_proxy_for_handle weak_refs
          (giving 700)
          2
          (get_strong_proxy_for_handle weak_refs (giving 600) 2 table).1).1
        ≡ (get_strong_proxy_for_handle weak_refs (giving 600) 2 table).1)
    × ((get_weak_proxy_for_handle weak_refs
          (giving 700)
          2
          (get_strong_proxy_for_handle weak_refs (giving 600) 2 table).1).0
        ≡ (get_strong_proxy_for_handle weak_refs (giving 600) 2 table).0)
    × ((get_weak_proxy_for_handle weak_refs
          (giving 700)
          2
          (get_strong_proxy_for_handle weak_refs (giving 600) 2 table).1).1
        ≡ (get_strong_proxy_for_handle weak_refs (giving 600) 2 table).1)
    × ((j : ℕ)
        → 2 ≢ j
        → entry_at (get_strong_proxy_for_handle weak_refs (giving 600) 2 table).1 j
          ≡ entry_at table j)
unfolding get_strong_proxy_for_handle
get_strong-canonical_example =
    get_strong-canonical weak_refs (giving 600) (giving 700) 2 table refl (λ e. ground arith) refl

abbrev calls : List HandleCall
calls =
    gets_strong (giving 600) 3
    ∷ expunges no_error 3 600
    ∷ gets_weak (giving 700) 3
    ∷ expunges no_error 3 600
    ∷ []

handle_run-IsLinked_example : IsLinked weak_refs (handle_run weak_refs [] calls)
handle_run-IsLinked_example = handle_run-IsLinked weak_refs [] calls (λ j e. absurd (e refl))

expunge_handle_replaced_example :
    let t' = expunge_handle no_error 1 400 table in
    (entry_at t' 1 ≡ record { binder = 500; refs = 501 })
    × ((get_strong_proxy_for_handle weak_refs (giving 600) 1 t').0 ≡ 500)
unfolding needs_proxy
expunge_handle_replaced_example =
    expunge_handle_replaced weak_refs no_error 1 400 1 table (giving 600) refl

abbrev requests : List PoolCall
requests = spawns ∷ starts ∷ spawns ∷ starts ∷ spawns ∷ []

pool_run-expected_example :
    (pool_run new_pool requests).1
    ≡ record { number = 1; is_main = true }
      ∷ record { number = 2; is_main = false }
      ∷ record { number = 3; is_main = false }
      ∷ []
pool_run-expected_example = pool_run-expected requests

abbrev no_contexts : Contexts
no_contexts = record { entries = []; manages = false; check_func = 0; user_data = 0 }

abbrev manager_has : String → ℕ → Status × ℕ
manager_has name caller = (no_error, 55)

abbrev manager_fails : String → ℕ → Status × ℕ
manager_fails name caller = (name_not_found, 0)

become_context_manager_outcome_example :
    let (now, d) = become_context_manager done 8 9 no_contexts in
    (now ≡ d.manages)
    × (false ≡ true → d ≡ no_contexts)
    × (false ≡ false → (now ≡ true) ↔ (done ≡ done))
    × (false ≡ false → done ≡ failed → (d.check_func ≡ 0) × (d.user_data ≡ 0))
    × (false ≡ false → done ≢ failed → (d.check_func ≡ 8) × (d.user_data ≡ 9))
    × (d.manages ≡ true → (get_context_object manager_has "activity" 0 d).2 ≡ false)
become_context_manager_outcome_example =
    become_context_manager_outcome manager_has "activity" 0 8 9 done no_contexts

abbrev kernel : Kernel
kernel = record { open_fd = some 4; version_result = done; version = 7; mapped = true }

new_process_iff_example :
    (((new_process 7 kernel).0 ≡ some 4) ↔ (
      (kernel.open_fd ≡ some 4)
      × (kernel.version_result ≡ done)
      × (kernel.version ≡ 7)
      × (kernel.mapped ≡ true)))
    × ((new_process 7 kernel).0 ≡ some 4
        → (new_process 7 kernel).1 ≡ set_max_threads (some 4) 15 ∷ [])
new_process_iff_example = new_process_iff 7 4 kernel

abbrev broken_kernel : Kernel
broken_kernel = record kernel { version_result = failed }

open_driver-closes_example :
    let (r, calls) = open_driver 7 broken_kernel in
    (((r ≡ some 4) × (closes 4 calls ≡ 0)) ⊎ ((r ≡ none) × (closes 4 calls ≡ 1)))
    × (closes_none calls ≡ 1)
open_driver-closes_example = open_driver-closes 7 4 broken_kernel refl
