-- ===== src/ProcessState/Handles.antt =====
-- The table of proxies by handle of native/ProcessState.cpp.
use learn_node.Base.{
  ℕ, suc, zero, ◌+◌, ◌-◌, ◌<◌, ◌≡◌, refl, sym, ap, ◌∙◌, ◌⊎◌, inl, inr, ◌≢◌, true, false, none, some,
  List, [], ◌∷◌, ◌++◌, arith, ◌==◌, leb, Bool-cases, length, set, replicate, length-append,
  length-replicate, length-set, get_elem?-set_self, get_elem?-set_ne,
}
use learn_node.Status.{Status, is_negative, is_dead_object}
use learn_node.ProcessState.{
  HandleEntry, empty_entry, Handles, HandleEffect, pinged, force_set, dec_weak, Answers,
  lookup_handle_locked, entry_at, needs_proxy, new_entry, create_proxy, strong_at, weak_at,
  get_strong_proxy_for_handle, get_weak_proxy_for_handle,
}

pub entry_at-set_self :
    (t : Handles) (h : ℕ) (e : HandleEntry) → h < length t → entry_at (set t h e) h ≡ e
entry_at-set_self t h e lt = rw (get_elem?-set_self t h e lt, entry_at)

pub entry_at-set_ne :
    (t : Handles) (h j : ℕ) (e : HandleEntry) → h ≢ j → entry_at (set t h e) j ≡ entry_at t j
entry_at-set_ne t h j e ne = rw (get_elem?-set_ne t h j e ne, entry_at)

entry_at-replicate : (n j : ℕ) → entry_at (replicate n empty_entry) j ≡ empty_entry
entry_at-replicate zero j = refl
entry_at-replicate (suc n) zero = refl
entry_at-replicate (suc n) (suc j) = entry_at-replicate n j

entry_at-grow : (t : Handles) (n j : ℕ) → entry_at (t ++ replicate n empty_entry) j ≡ entry_at t j
entry_at-grow [] n j = entry_at-replicate n j
entry_at-grow (e ∷ t) n zero = refl
entry_at-grow (e ∷ t) n (suc j) = entry_at-grow t n j

-- With memory at hand the lookup gives a table that holds the handle and differs from the old one
-- by empty entries at its end alone.
pub lookup_grows :
    (insert_at : Status) (h : ℕ) (t : Handles)
    → is_negative insert_at ≡ false
    → (t' : Handles) × (lookup_handle_locked insert_at h t ≡ some t')
      × (h < length t')
      × ((j : ℕ) → entry_at t' j ≡ entry_at t j)
unfolding lookup_handle_locked
lookup_grows insert_at h t ok = elim (Bool-cases (leb (length t) h)) [
  | inl short ↦ (
    t ++ replicate (h + 1 - length t) empty_entry,
    ground arith,
    ground (
      arith,
      length-append t (replicate (h + 1 - length t) empty_entry),
      length-replicate (h + 1 - length t) empty_entry,
    ),
    λ j. entry_at-grow t (h + 1 - length t) j,
  )
  | inr long ↦ (t, ground arith, ground arith, λ j. refl)
]

-- A lookup fails, or gives such a table.
pub lookup_cases :
    (insert_at : Status) (h : ℕ) (t : Handles)
    → (lookup_handle_locked insert_at h t ≡ none)
      ⊎ ((t' : Handles) × (lookup_handle_locked insert_at h t ≡ some t')
          × (h < length t')
          × ((j : ℕ) → entry_at t' j ≡ entry_at t j))
lookup_cases insert_at h t = elim (Bool-cases (is_negative insert_at)) [
  | inr ok ↦ inr (lookup_grows insert_at h t ok)
  | inl full ↦ elim (Bool-cases (leb (length t) h)) [
    | inl short ↦ inl (unfold lookup_handle_locked in ground arith)
    | inr long ↦ inr (t, unfold lookup_handle_locked in ground arith, ground arith, λ j. refl)
  ]
]

-- The lookup of a handle that the table holds changes nothing.
pub lookup_held :
    (insert_at : Status) (h : ℕ) (t : Handles)
    → h < length t
    → lookup_handle_locked insert_at h t ≡ some t
unfolding lookup_handle_locked
lookup_held insert_at h t lt = ground arith

-- Where a table holds a proxy, the weak reference beside it is that proxy's.
abbrev pub IsLinked : (ℕ → ℕ) → Handles → Type 0
IsLinked weak_refs t =
    (j : ℕ) → (entry_at t j).binder ≢ 0 → (entry_at t j).refs ≡ weak_refs (entry_at t j).binder

-- What a lookup of `h` that answers `b` did to the table: `h` is in it and names `b` if `b` is not
-- null, and no other handle has changed.
abbrev Answered : ℕ → Handles → ℕ × Handles × List HandleEffect → Type 0
Answered h t (b, t', _) =
    (h < length t')
    × (b ≢ 0 → (entry_at t' h).binder ≡ b)
    × ((j : ℕ) → h ≢ j → entry_at t' j ≡ entry_at t j)

module _ (weak_refs : ℕ → ℕ) (a : Answers) (h : ℕ) where
  create_proxy-Answered : (t : Handles) → h < length t → Answered h t (create_proxy weak_refs a h t)
  unfolding create_proxy
  create_proxy-Answered t lt =
      let e = new_entry weak_refs a (entry_at t h) in
      (
        ground (arith, length-set t h e),
        λ p. ground (arith, entry_at-set_self t h e),
        λ j ne. entry_at-set_ne t h j e ne,
      )

  -- The three ways in which a strong lookup ends, the null answer of a dead ping among them.
  pub strong_cases {ℓ} :
      (P : ℕ × Handles × List HandleEffect → Type ℓ) (t : Handles)
      → (needs_proxy a (entry_at t h) ≡ false
          → P (
            (entry_at t h).binder,
            t,
            force_set (entry_at t h).binder ∷ dec_weak (entry_at t h).refs ∷ [],
          ))
      → P (0, t, pinged ∷ [])
      → ((es : List HandleEffect) → P (a.new_binder, (create_proxy weak_refs a h t).1, es))
      → P (strong_at weak_refs a h t)
  unfolding strong_at
  strong_cases P t keep null make = elim (Bool-cases (needs_proxy a (entry_at t h))) [
    | inr held ↦ rw held (keep held)
    | inl needed ↦ elim (Bool-cases (h == 0)) [
      | inr other ↦ rw (needed, other) (make _)
      | inl manager ↦ elim (Bool-cases (is_dead_object a.ping)) [
        | inl dead ↦ rw (needed, manager, dead) null
        | inr up ↦ rw (needed, manager, up) (make _)
      ]
    ]
  ]

  strong_at-Answered : (t : Handles) → h < length t → Answered h t (strong_at weak_refs a h t)
  unfolding create_proxy
  strong_at-Answered t lt =
      strong_cases (Answered h t) t (λ held. (lt, λ p. refl, λ j ne. refl))
        (lt, λ p. absurd (p refl), λ j ne. refl) (λ es. create_proxy-Answered t lt)

  weak_at-Answered : (t : Handles) → h < length t → Answered h t (weak_at weak_refs a h t)
  unfolding weak_at
  weak_at-Answered t lt = elim (Bool-cases (needs_proxy a (entry_at t h))) [
    | inl needed ↦ rw needed (create_proxy-Answered t lt)
    | inr held ↦ rw held (lt, λ p. refl, λ j ne. refl)
  ]

  -- A proxy in the table that can still be held is what both lookups give, with no change.
  held_again :
      (t : Handles)
      → h < length t
      → (entry_at t h).binder ≢ 0
      → a.attempt_inc_weak (entry_at t h).refs ≡ true
      → let e = entry_at t h in
        (get_strong_proxy_for_handle weak_refs a h t
          ≡ (e.binder, t, force_set e.binder ∷ dec_weak e.refs ∷ []))
        × (get_weak_proxy_for_handle weak_refs a h t ≡ (e.binder, t, dec_weak e.refs ∷ []))
  unfolding get_strong_proxy_for_handle get_weak_proxy_for_handle
  held_again t lt some_proxy alive = ground arith

module _ (weak_refs : ℕ → ℕ) where
  get_strong-Answered :
      (a : Answers) (h : ℕ) (t : Handles)
      → is_negative a.insert_at ≡ false
      → Answered h t (get_strong_proxy_for_handle weak_refs a h t)
  unfolding get_strong_proxy_for_handle
  get_strong-Answered a h t ok =
      let (t', e, lt, same) = lookup_grows a.insert_at h t ok in
      rw (e, get_strong_proxy_for_handle)
        (let (held, named, others) = strong_at-Answered weak_refs a h t' lt in
          (held, named, λ j ne. others j ne ∙ same j))

  -- One proxy for a handle: if a strong lookup, with memory at hand, has answered a proxy, then as
  -- long as its weak reference can be taken both lookups of that handle give the same proxy and
  -- leave the table alone. The lookup has changed no other handle.
  pub get_strong-canonical :
      (a a' : Answers) (h : ℕ) (t : Handles)
      → is_negative a.insert_at ≡ false
      → (get_strong_proxy_for_handle weak_refs a h t).0 ≢ 0
      → let (b, t', _) = get_strong_proxy_for_handle weak_refs a h t in
        a'.attempt_inc_weak (entry_at t' h).refs ≡ true
        → ((get_strong_proxy_for_handle weak_refs a' h t').0 ≡ b)
          × ((get_strong_proxy_for_handle weak_refs a' h t').1 ≡ t')
          × ((get_weak_proxy_for_handle weak_refs a' h t').0 ≡ b)
          × ((get_weak_proxy_for_handle weak_refs a' h t').1 ≡ t')
          × ((j : ℕ) → h ≢ j → entry_at t' j ≡ entry_at t j)
  get_strong-canonical a a' h t ok found alive =
      let (b, t', es) = get_strong_proxy_for_handle weak_refs a h t in
      let (held, named, others) = get_strong-Answered a h t ok in
      let (again, weak) =
        held_again weak_refs a' h t' held (λ z. found (sym (named found) ∙ z)) alive in
      (
        ap (λ r. r.0) again ∙ named found,
        ap (λ r. r.1) again,
        ap (λ r. r.0) weak ∙ named found,
        ap (λ r. r.1) weak,
        others,
      )
