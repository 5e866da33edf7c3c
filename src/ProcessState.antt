-- ===== src/ProcessState.antt =====
-- native/ProcessState.cpp: the process-wide part of Binder. This file has the table of proxies by
-- handle; its children have the contexts, the thread pool and the opening of the driver. What the
-- reference counts of RefBase, the memory and the driver answer is an argument. A null pointer is
-- 0.
pub mod Handles
pub mod Links
pub mod Pool
pub mod Contexts
pub mod Driver
mod Tests
use learn_node.Base.{
  ℕ, suc, ◌+◌, ◌-◌, ◌≡◌, Bool, true, false, not, ◌&&◌, ◌||◌, Option, none, some, List, [], ◌∷◌,
  ◌++◌, length, get_elem?, set, replicate, leb, ◌==◌, if◌then◌else◌,
}
use learn_node.Status.{Status, is_negative, is_dead_object}

pub record HandleEntry : Type 0 where
  pub binder : ℕ
  pub refs : ℕ

abbrev pub empty_entry : HandleEntry
empty_entry = record { binder = 0; refs = 0 }

abbrev pub Handles : Type 0
Handles = List HandleEntry

-- What happens outside while a handle is looked up.
pub data HandleEffect : Type 0 where
  pinged : HandleEffect
  created : ℕ → ℕ → HandleEffect
  force_set dec_weak : ℕ → HandleEffect

-- What other code answers: `Vector::insertAt`, `attemptIncWeak` on a weak reference, the status of
-- the ping of handle 0, and the address of `new BpBinder`.
pub record Answers : Type 0 where
  pub insert_at : Status
  pub attempt_inc_weak : ℕ → Bool
  pub ping : Status
  pub new_binder : ℕ

-- `none` is the null pointer; the table grows up to the handle.
pub lookup_handle_locked : Status → ℕ → Handles → Option Handles
lookup_handle_locked insert_at handle t =
    let n = length t in
    if leb n handle
    then (if is_negative insert_at
        then none
        else some (t ++ replicate (handle + 1 - n) empty_entry))
    else some t

abbrev pub entry_at : Handles → ℕ → HandleEntry
entry_at t handle = elim (get_elem? t handle) [ none ↦ empty_entry | some e ↦ e ]

-- `e->binder == NULL || !e->refs->attemptIncWeak(this)`
pub needs_proxy : Answers → HandleEntry → Bool
needs_proxy a e = e.binder == 0 || not (a.attempt_inc_weak e.refs)

-- `getWeakRefs` gives each binder its weak reference.
module _ (weak_refs : ℕ → ℕ) where
  -- `e->binder = b; if (b) e->refs = b->getWeakRefs();`
  pub new_entry : Answers → HandleEntry → HandleEntry
  new_entry a e = record {
    binder = a.new_binder;
    refs = if a.new_binder == 0 then e.refs else weak_refs a.new_binder;
  }

  pub create_proxy : Answers → ℕ → Handles → ℕ × Handles × List HandleEffect
  unfolding new_entry
  create_proxy a handle t = (
    a.new_binder,
    set t handle (new_entry a (entry_at t handle)),
    created a.new_binder handle ∷ [],
  )

  pub strong_at : Answers → ℕ → Handles → ℕ × Handles × List HandleEffect
  unfolding needs_proxy create_proxy
  strong_at a handle t =
      let e = entry_at t handle in
      let (b, t', effects) = create_proxy a handle t in
      if needs_proxy a e
      then (if handle == 0
          then (if is_dead_object a.ping then (0, t, pinged ∷ []) else (b, t', pinged ∷ effects))
          else (b, t', effects))
      else (e.binder, t, force_set e.binder ∷ dec_weak e.refs ∷ [])

  pub weak_at : Answers → ℕ → Handles → ℕ × Handles × List HandleEffect
  unfolding needs_proxy create_proxy
  weak_at a handle t =
      let e = entry_at t handle in
      if needs_proxy a e then create_proxy a handle t else (e.binder, t, dec_weak e.refs ∷ [])

  pub get_strong_proxy_for_handle : Answers → ℕ → Handles → ℕ × Handles × List HandleEffect
  unfolding strong_at lookup_handle_locked
  get_strong_proxy_for_handle a handle t = elim (lookup_handle_locked a.insert_at handle t) [
    | none ↦ (0, t, [])
    | some t' ↦ strong_at a handle t'
  ]

  pub get_weak_proxy_for_handle : Answers → ℕ → Handles → ℕ × Handles × List HandleEffect
  unfolding weak_at lookup_handle_locked
  get_weak_proxy_for_handle a handle t = elim (lookup_handle_locked a.insert_at handle t) [
    | none ↦ (0, t, [])
    | some t' ↦ weak_at a handle t'
  ]

pub expunge_at : ℕ → ℕ → Handles → Handles
expunge_at handle binder t =
    let e = entry_at t handle in
    if e.binder == binder then set t handle (record e { binder = 0 }) else t

-- A handle that has another proxy by now keeps it.
pub expunge_handle : Status → ℕ → ℕ → Handles → Handles
unfolding expunge_at lookup_handle_locked
expunge_handle insert_at handle binder t = elim (lookup_handle_locked insert_at handle t) [
  | none ↦ t
  | some t' ↦ expunge_at handle binder t'
]

-- The calls that change the table.
pub data HandleCall : Type 0 where
  gets_strong gets_weak : Answers → ℕ → HandleCall
  expunges : Status → ℕ → ℕ → HandleCall

pub handle_step : (ℕ → ℕ) → Handles → HandleCall → Handles
handle_step weak_refs t (gets_strong a h) = (get_strong_proxy_for_handle weak_refs a h t).1
handle_step weak_refs t (gets_weak a h) = (get_weak_proxy_for_handle weak_refs a h t).1
handle_step weak_refs t (expunges insert_at h b) = expunge_handle insert_at h b t

pub handle_run : (ℕ → ℕ) → Handles → List HandleCall → Handles
unfolding handle_step
handle_run weak_refs t [] = t
handle_run weak_refs t (c ∷ cs) = handle_run weak_refs (handle_step weak_refs t c) cs
