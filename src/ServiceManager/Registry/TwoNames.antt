-- ===== src/ServiceManager/Registry/TwoNames.antt =====
-- One object under two names: what native/service_manager.c asks of driver/binder.c, and what it hears
-- when the object dies.
use learn_node.Base.{
  ℕ, ◌+◌, ◌≡◌, ◌≢◌, ◌∙◌, refl, Bool, true, false, not, none, some, List, [], ◌∷◌, ◌++◌, ltb, ◌==◌,
  ◌||◌, length, arith, Bool-cases, inl, inr, both-true, append-nil, take-append_len,
}
use learn_node.IpcThreadState.{Command}
use learn_node.BinderDriver.{BinderRef}
use learn_node.BinderDriver.Descs.{Process, binder_get_ref, ref_command, ref_commands}
use learn_node.BinderDriver.Descs.Tables.{
  acquire_strong, request_first, request_again, ref_commands_cons, ref_commands_nil,
}
use learn_node.ServiceManager.{
  Platform, SvcInfo, units_eq, find_svc, at_address, set_handle, release, svcinfo_death, register,
  do_add_service, watch_commands,
}
use learn_node.ServiceManager.Registry.{
  Event, add_request, step, svc_run, lets_through, lookup, units_eq_self, units_eq→≡,
  find_svc-lookup,
}

module _ (p : Platform) (sh handle uid spid : ℕ) where
  abbrev new_service : ℕ → List ℕ → Bool → SvcInfo
  new_service address name allow = record {
    address = address;
    handle = handle;
    allow_isolated = allow;
    name = name;
  }

  -- A request with a new name that is let through.
  add_new :
      (address : ℕ) (name tail : List ℕ) (allow : Bool) (l : List SvcInfo)
      → lets_through p (add_request sh (some address) name tail handle uid allow spid) ≡ true
      → lookup name l ≡ none
      → step p l (add_request sh (some address) name tail handle uid allow spid)
        ≡ (new_service address name allow ∷ l, watch_commands handle address)
  unfolding step do_add_service register
  add_new address name tail allow l through unknown =
      let (good, may) = both-true _ _ through in
      let bad : (handle == 0 || length name == 0 || ltb 127 (length name)) ≡ false =
        not_true _ good in
      rw (
        bad,
        may,
        find_svc-lookup name tail l,
        unknown,
        take-append_len (length name) name tail refl,
      )
    where
      not_true : (b : Bool) → not b ≡ true → b ≡ false
      not_true true e = cc
      not_true false e = refl

-- The driver, for a process that holds the object, with no death notice set and the object alive.
abbrev pub IsHeld : ℕ → Process → BinderRef → Type 0
IsHeld handle q r =
    (binder_get_ref handle q.refs ≡ some r)
    × (r.strong ≢ 0)
    × (r.death ≡ none)
    × ((q.nodes r.node).has_proc ≡ true)

run4 :
    (a b c d : Command) (q q1 q2 q3 q4 : Process)
    → ref_command a q ≡ some q1
    → ref_command b q1 ≡ some q2
    → ref_command c q2 ≡ some q3
    → ref_command d q3 ≡ some q4
    → ref_commands (a ∷ b ∷ c ∷ d ∷ []) q ≡ some q4
run4 a b c d q q1 q2 q3 q4 e1 e2 e3 e4 =
    ref_commands_cons a (b ∷ c ∷ d ∷ []) q q1 e1
    ∙ (ref_commands_cons b (c ∷ d ∷ []) q1 q2 e2
        ∙ (ref_commands_cons c (d ∷ []) q2 q3 e3
            ∙ (ref_commands_cons d [] q3 q4 e4 ∙ ref_commands_nil q4)))

watched_twice :
    (handle a1 a2 : ℕ) (q : Process) (r : BinderRef)
    → handle ≢ 0
    → IsHeld handle q r
    → (q' : Process) × (ref_commands (watch_commands handle a1 ++ watch_commands handle a2) q
        ≡ some q')
      × (r' : BinderRef) × (binder_get_ref handle q'.refs ≡ some r')
      × (r'.death ≡ some (record { cookie = a1; queued = false }))
watched_twice handle a1 a2 q r nz (e, strong, free, live) =
    let (q1, d1, g1, same) = acquire_strong handle q r nz e strong in
    let r1 = record r { strong = r.strong + 1 } in
    let (q2, d2, g2, same2) = request_first handle a1 q1 r1 g1 free (rw (same r.node) live) in
    let r2 = record r1 { death = some (record { cookie = a1; queued = false }) } in
    let (q3, d3, g3, same3) = acquire_strong handle q2 r2 nz g2 (omega arith) in
    let r3 = record r2 { strong = r2.strong + 1 } in
    let d4 = request_again handle a2 q3 r3 (record { cookie = a1; queued = false }) g3 refl in
    (q3, run4 _ _ _ _ q q1 q2 q3 q3 d1 d2 d3 d4, r3, g3, refl)

module _ (p : Platform) (sh handle uid spid a1 a2 : ℕ) (n1 t1 n2 t2 : List ℕ)
    (allow1 allow2 : Bool) where
  abbrev both : List Event
  both =
      add_request sh (some a1) n1 t1 handle uid allow1 spid
      ∷ add_request sh (some a2) n2 t2 handle uid allow2 spid
      ∷ []

  abbrev services : List SvcInfo
  services =
      new_service p sh handle uid spid a2 n2 allow2
      ∷ new_service p sh handle uid spid a1 n1 allow1
      ∷ []

  after_both :
      lets_through p (add_request sh (some a1) n1 t1 handle uid allow1 spid) ≡ true
      → lets_through p (add_request sh (some a2) n2 t2 handle uid allow2 spid) ≡ true
      → units_eq n2 n1 ≡ false
      → svc_run p [] both ≡ (services, watch_commands handle a1 ++ (watch_commands handle a2 ++ []))
  unfolding svc_run lookup
  after_both go1 go2 differ =
      let first = add_new p sh handle uid spid a1 n1 t1 allow1 [] go1 refl in
      let second =
        add_new p sh handle uid spid a2 n2 t2 allow2
          (new_service p sh handle uid spid a1 n1 allow1 ∷ []) go2 (rw differ) in
      rw (first, second) refl

  after_notice :
      (handle == 0) ≡ false
      → a1 ≢ a2
      → (svcinfo_death a1 services).0
        ≡ new_service p sh handle uid spid a2 n2 allow2
          ∷ new_service p sh 0 uid spid a1 n1 allow1
          ∷ []
  unfolding svcinfo_death at_address release set_handle
  after_notice nz apart = ground arith

  still_there :
      units_eq n2 n2 ≡ true
      → find_svc (n2 ++ t2) (length n2) (
          new_service p sh handle uid spid a2 n2 allow2
          ∷ new_service p sh 0 uid spid a1 n1 allow1
          ∷ [])
        ≡ some (new_service p sh handle uid spid a2 n2 allow2)
  unfolding lookup
  still_there same = find_svc-lookup n2 t2 _ ∙ rw same

  -- Where one handle is registered under two new names and the process held its object before, alive
  -- and with no death notice set: the driver, having executed the commands of both requests, has one
  -- death notice for the handle, and its cookie is the first service's. So the death of the object is
  -- heard of for the first name alone; after that notice the second name is still found with the
  -- handle of the dead object.
  pub svc_run-one_notice :
      (q : Process) (r : BinderRef)
      → lets_through p (add_request sh (some a1) n1 t1 handle uid allow1 spid) ≡ true
      → lets_through p (add_request sh (some a2) n2 t2 handle uid allow2 spid) ≡ true
      → n2 ≢ n1
      → a1 ≢ a2
      → IsHeld handle q r
      → let (l, cs) = svc_run p [] both in
        ((q' : Process) × (r' : BinderRef) × (ref_commands cs q ≡ some q')
          × (binder_get_ref handle q'.refs ≡ some r')
          × (r'.death ≡ some (record { cookie = a1; queued = false })))
        × ((si : SvcInfo) × (find_svc (n2 ++ t2) (length n2) (svcinfo_death a1 l).0 ≡ some si)
            × (si.handle ≡ handle))
  svc_run-one_notice q r go1 go2 differ apart held =
      let nz : (handle == 0) ≡ false = handle_nonzero go1 in
      let (q', done, r', get, one) = watched_twice handle a1 a2 q r (ground arith) held in
      rw (after_both go1 go2 (other_name n2 n1 differ), append-nil (watch_commands handle a2))
        (
          (q', r', done, get, one),
          (
            new_service p sh handle uid spid a2 n2 allow2,
            rw (after_notice nz apart) (still_there (units_eq_self n2)),
            refl,
          ),
        )
    where
      handle_nonzero :
          lets_through p (add_request sh (some a1) n1 t1 handle uid allow1 spid) ≡ true
          → (handle == 0) ≡ false
      handle_nonzero h = ground arith

      other_name : (a b : List ℕ) → a ≢ b → units_eq a b ≡ false
      other_name a b d = elim (Bool-cases (units_eq a b)) [
        | inl same ↦ absurd (d (units_eq→≡ a b same))
        | inr other ↦ other
      ]
