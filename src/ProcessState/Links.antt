-- ===== src/ProcessState/Links.antt =====
-- What every sequence of calls keeps of the table of proxies in native/ProcessState.cpp, and what
-- the destructor of a proxy takes out of it.
use learn_node.Base.{
  ℕ, ◌<◌, ◌≡◌, refl, ap, ◌∙◌, inl, inr, ◌≢◌, true, false, List, [], ◌∷◌, arith, ◌==◌, if◌then◌else◌,
  ==_iff, Bool-cases, length, length-set, set, ◌&&◌, ◌||◌,
}
use learn_node.Status.{Status, is_negative, is_dead_object}
use learn_node.ProcessState.{
  HandleEntry, Handles, Answers, HandleCall, gets_strong, gets_weak, expunges, entry_at, new_entry,
  create_proxy, strong_at, needs_proxy, get_strong_proxy_for_handle, get_weak_proxy_for_handle,
  expunge_at, expunge_handle, handle_step, handle_run,
}
use learn_node.ProcessState.Handles.{
  IsLinked, lookup_held, lookup_cases, lookup_grows, strong_cases, entry_at-set_self,
  entry_at-set_ne,
}

module _ (weak_refs : ℕ → ℕ) where
  set-IsLinked :
      (t : Handles) (h : ℕ) (e : HandleEntry)
      → h < length t
      → (e.binder ≢ 0 → e.refs ≡ weak_refs e.binder)
      → IsLinked weak_refs t
      → IsLinked weak_refs (set t h e)
  set-IsLinked t h e lt fine linked j = elim (Bool-cases (h == j)) [
    | inl hit ↦ let at = (==_iff h j).0 hit in rw (← at, entry_at-set_self t h e lt) fine
    | inr miss ↦ rw (entry_at-set_ne t h j e (ground arith)) (linked j)
  ]

  create_proxy-IsLinked :
      (a : Answers) (h : ℕ) (t : Handles)
      → h < length t
      → IsLinked weak_refs t
      → IsLinked weak_refs (create_proxy weak_refs a h t).1
  unfolding create_proxy
  create_proxy-IsLinked a h t lt linked =
      set-IsLinked t h (new_entry weak_refs a (entry_at t h)) lt (λ p. ground arith) linked

  expunge_at-IsLinked :
      (h b : ℕ) (t : Handles)
      → h < length t
      → IsLinked weak_refs t
      → IsLinked weak_refs (expunge_at h b t)
  unfolding expunge_at
  expunge_at-IsLinked h b t lt linked = elim (Bool-cases ((entry_at t h).binder == b)) [
    | inl hit ↦ rw hit (set-IsLinked t h _ lt (λ p. absurd (p refl)) linked)
    | inr miss ↦ rw miss linked
  ]

  grown-IsLinked :
      (t t' : Handles)
      → ((j : ℕ) → entry_at t' j ≡ entry_at t j)
      → IsLinked weak_refs t
      → IsLinked weak_refs t'
  grown-IsLinked t t' same linked j = rw (same j) (linked j)

  get_strong-IsLinked :
      (a : Answers) (h : ℕ) (t : Handles)
      → IsLinked weak_refs t
      → IsLinked weak_refs (get_strong_proxy_for_handle weak_refs a h t).1
  unfolding get_strong_proxy_for_handle
  get_strong-IsLinked a h t linked = elim (lookup_cases a.insert_at h t) [
    | inl e ↦ rw (e, get_strong_proxy_for_handle) linked
    | inr (t', e, lt, same) ↦
        let grown = grown-IsLinked t t' same linked in
        rw (e, get_strong_proxy_for_handle)
          (strong_cases weak_refs a h (λ r. IsLinked weak_refs r.1) t' (λ _. grown) grown
            (λ es. create_proxy-IsLinked a h t' lt grown))
  ]

  get_weak-IsLinked :
      (a : Answers) (h : ℕ) (t : Handles)
      → IsLinked weak_refs t
      → IsLinked weak_refs (get_weak_proxy_for_handle weak_refs a h t).1
  unfolding get_weak_proxy_for_handle
  get_weak-IsLinked a h t linked = elim (lookup_cases a.insert_at h t) [
    | inl e ↦ rw (e, get_weak_proxy_for_handle) linked
    | inr (t', e, lt, same) ↦
        let grown = grown-IsLinked t t' same linked in
        elim (Bool-cases (needs_proxy a (entry_at t' h))) [
          | inl needed ↦
              rw (e, get_weak_proxy_for_handle, needed) (create_proxy-IsLinked a h t' lt grown)
          | inr held ↦ rw (e, get_weak_proxy_for_handle, held) grown
        ]
  ]

  expunge-IsLinked :
      (insert_at : Status) (h b : ℕ) (t : Handles)
      → IsLinked weak_refs t
      → IsLinked weak_refs (expunge_handle insert_at h b t)
  unfolding expunge_handle
  expunge-IsLinked insert_at h b t linked = elim (lookup_cases insert_at h t) [
    | inl e ↦ rw (e, expunge_handle) linked
    | inr (t', e, lt, same) ↦
        rw (e, expunge_handle) (expunge_at-IsLinked h b t' lt (grown-IsLinked t t' same linked))
  ]

  step-IsLinked :
      (t : Handles) (c : HandleCall)
      → IsLinked weak_refs t
      → IsLinked weak_refs (handle_step weak_refs t c)
  unfolding handle_step
  step-IsLinked t (gets_strong a h) linked = get_strong-IsLinked a h t linked
  step-IsLinked t (gets_weak a h) linked = get_weak-IsLinked a h t linked
  step-IsLinked t (expunges insert_at h b) linked = expunge-IsLinked insert_at h b t linked

  -- After any sequence of strong lookups, weak lookups and expunges on a table that had this
  -- property before, the empty table among them, every handle that names a proxy has that proxy's
  -- own weak reference beside it. So the reference that a lookup tries to take is never null and
  -- never that of a proxy which the handle no longer names.
  pub handle_run-IsLinked :
      (t : Handles) (cs : List HandleCall)
      → IsLinked weak_refs t
      → IsLinked weak_refs (handle_run weak_refs t cs)
  unfolding handle_run
  handle_run-IsLinked t [] linked = linked
  handle_run-IsLinked t (c ∷ cs) linked =
      handle_run-IsLinked (handle_step weak_refs t c) cs (step-IsLinked t c linked)

expunge_at-entry :
    (h b j : ℕ) (t : Handles)
    → h < length t
    → entry_at (expunge_at h b t) j ≡ (
        if h == j && (entry_at t h).binder == b
        then record (entry_at t j) { binder = 0 }
        else entry_at t j)
unfolding expunge_at
expunge_at-entry h b j t lt = elim (Bool-cases (h == j)) [
  | inl hit ↦
      let at = (==_iff h j).0 hit in
      rw (← at) (ground (arith, entry_at-set_self t h (record (entry_at t h) { binder = 0 })))
  | inr miss ↦ ground (arith, entry_at-set_ne t h j (record (entry_at t h) { binder = 0 }))
]

expunge_at-length : (h b : ℕ) (t : Handles) → h < length t → h < length (expunge_at h b t)
unfolding expunge_at
expunge_at-length h b t lt = ground (arith, length-set t h (record (entry_at t h) { binder = 0 }))

-- What a strong lookup gives for an entry.
abbrev proxy_of : Answers → ℕ → HandleEntry → ℕ
proxy_of a h e =
    if needs_proxy a e
    then (if h == 0 && is_dead_object a.ping then 0 else a.new_binder)
    else e.binder

held-proxy :
    (weak_refs : ℕ → ℕ) (a : Answers) (h : ℕ) (t : Handles)
    → h < length t
    → (get_strong_proxy_for_handle weak_refs a h t).0 ≡ proxy_of a h (entry_at t h)
unfolding get_strong_proxy_for_handle strong_at create_proxy
held-proxy weak_refs a h t lt =
    rw (lookup_held a.insert_at h t lt, get_strong_proxy_for_handle)
      (elim (Bool-cases (needs_proxy a (entry_at t h))) [
        | inr held ↦ rw held refl
        | inl needed ↦ elim (Bool-cases (h == 0)) [
          | inr other ↦ rw (needed, other) refl
          | inl zero_ ↦ elim (Bool-cases (is_dead_object a.ping)) [
            | inl dead ↦ rw (needed, zero_, dead) refl
            | inr alive ↦ rw (needed, zero_, alive) refl
          ]
        ]
      ])

-- The destructor of a proxy clears its handle if the handle still names it, and changes no entry
-- otherwise: a handle that has been given another proxy keeps that one. A strong lookup of the handle
-- after it gives a new proxy, if the handle was cleared or its proxy cannot be taken, except that it
-- gives null for handle 0 if the ping answers DEAD_OBJECT; and else it gives the proxy that is named.
pub expunge_handle_replaced :
    (weak_refs : ℕ → ℕ) (insert_at : Status) (h b j : ℕ) (t : Handles) (a : Answers)
    → is_negative insert_at ≡ false
    → let t' = expunge_handle insert_at h b t in
      (entry_at t' j ≡ (
        if h == j && (entry_at t h).binder == b
        then record (entry_at t j) { binder = 0 }
        else entry_at t j))
      × ((get_strong_proxy_for_handle weak_refs a h t').0 ≡ (
          if (entry_at t h).binder == b || needs_proxy a (entry_at t h)
          then (if h == 0 && is_dead_object a.ping then 0 else a.new_binder)
          else (entry_at t h).binder))
unfolding expunge_handle needs_proxy
expunge_handle_replaced weak_refs insert_at h b j t a ok =
    let (t', e, lt, same) = lookup_grows insert_at h t ok in
    (
      rw (e, expunge_handle) (ground (arith, expunge_at-entry h b j t' lt, same h, same j)),
      rw (e, expunge_handle)
          (held-proxy weak_refs a h (expunge_at h b t') (expunge_at-length h b t' lt)
            ∙ ap (λ (x : HandleEntry). proxy_of a h x) (expunge_at-entry h b h t' lt)
            ∙ cleared_proxy t' (same h)),
    )
  where
    cleared_proxy :
        (t' : Handles)
        → entry_at t' h ≡ entry_at t h
        → proxy_of a h (
            if h == h && (entry_at t' h).binder == b
            then record (entry_at t' h) { binder = 0 }
            else entry_at t' h)
          ≡ (if (entry_at t h).binder == b || needs_proxy a (entry_at t h)
              then (if h == 0 && is_dead_object a.ping then 0 else a.new_binder)
              else (entry_at t h).binder)
    cleared_proxy t' e =
        let self : (h == h) ≡ true = ground arith in
        rw (e, self)
          (elim (Bool-cases ((entry_at t h).binder == b)) [
            | inl hit ↦ rw hit refl
            | inr miss ↦ rw miss refl
          ])
