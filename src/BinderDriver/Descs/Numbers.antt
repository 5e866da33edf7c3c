-- ===== src/BinderDriver/Descs/Numbers.antt =====
-- The numbers of references: what binder_get_ref_for_node of driver/binder.c gives and keeps.
use learn_node.Base.{
  ℕ, ◌+◌, ◌-◌, ◌%◌, ◌^◌, ◌≤◌, ◌<◌, ◌≡◌, ◌≢◌, refl, true, false, Option, none, some, List, [], ◌∷◌,
  ltb, ◌==◌, if◌then◌else◌, arith, length, ==_iff, Bool-cases, inl, inr,
}
use learn_node.BinderDriver.{BinderRef}
use learn_node.BinderDriver.Descs.{
  binder_get_ref, ref_of_node, next_desc, insert_ref, new_ref, first_desc, binder_get_ref_for_node,
}

-- The numbers grow along the table, from `b` on, and the largest uint32_t is not among them.
abbrev pub IsAbove : ℕ → List BinderRef → Type 0
IsAbove b [] = Unit
IsAbove b (r ∷ l) = (b ≤ r.desc) × (r.desc < 2 ^ 32 - 1) × IsAbove (r.desc + 1) l

above_none : (b d : ℕ) (l : List BinderRef) → IsAbove b l → d < b → binder_get_ref d l ≡ none
unfolding binder_get_ref
above_none b d [] a h = refl
above_none b d (r ∷ l) a h =
    ground (arith, above_none (r.desc + 1) d l a.2 (omega (arith, a.0)), a.0, ==_iff r.desc d)

next_gap :
    (s : ℕ) (r : BinderRef) (l : List BinderRef) → ltb s r.desc ≡ true → next_desc s (r ∷ l) ≡ s
unfolding next_desc
next_gap s r l gap = rw gap

next_taken :
    (s : ℕ) (r : BinderRef) (l : List BinderRef)
    → ltb s r.desc ≡ false
    → r.desc < 2 ^ 32 - 1
    → next_desc s (r ∷ l) ≡ next_desc (r.desc + 1) l
unfolding next_desc
next_taken s r l taken w =
    let small : (r.desc + 1) % 2 ^ 32 ≡ r.desc + 1 = omega arith in rw (taken, small)

taken_found :
    (d : ℕ) (r : BinderRef) (l : List BinderRef)
    → (r.desc + 1 ≤ d → binder_get_ref d l ≢ none)
    → r.desc ≤ d
    → binder_get_ref d (r ∷ l) ≢ none
unfolding binder_get_ref
taken_found d r l later low = elim (Bool-cases (r.desc == d)) [
  | inl here ↦ rw here (λ e. cc)
  | inr there ↦ rw there (later (ground arith))
]

free_later :
    (d : ℕ) (r : BinderRef) (l : List BinderRef)
    → r.desc < d
    → binder_get_ref d l ≡ none
    → binder_get_ref d (r ∷ l) ≡ none
unfolding binder_get_ref
free_later d r l lt e = ground arith

-- The loop ends at the first number from `s` on that is not taken.
next_desc-free :
    (b s : ℕ) (l : List BinderRef)
    → IsAbove b l
    → b ≤ s
    → s ≤ b + 1
    → s < 2 ^ 32
    → (s ≤ next_desc s l)
      × (binder_get_ref (next_desc s l) l ≡ none)
      × ((d : ℕ) → s ≤ d → d < next_desc s l → binder_get_ref d l ≢ none)
next_desc-free b s [] a low high w =
    unfold next_desc binder_get_ref in (omega arith, refl, λ d p q. absurd (omega arith))
next_desc-free b s (r ∷ l) a low high w = elim (Bool-cases (ltb s r.desc)) [
  | inl gap ↦ rw (next_gap s r l gap) (
    omega arith,
    above_none r.desc s (r ∷ l) (omega arith, a.1, a.2) (ground arith),
    λ d p q. absurd (omega arith),
  )
  | inr taken ↦
      let (le, none_there, found) =
        next_desc-free (r.desc + 1) (r.desc + 1) l a.2 (omega arith) (omega arith)
          (omega (arith, a.1)) in
      rw (next_taken s r l taken a.1) (
        ground arith,
        free_later (next_desc (r.desc + 1) l) r l (omega (arith, le)) none_there,
        λ d p q. taken_found d r l (λ m. found d m q) (ground arith),
      )
]

-- What insert_ref leaves of the table.
insert_ref-get :
    (b : ℕ) (new : BinderRef) (l : List BinderRef)
    → IsAbove b l
    → b ≤ new.desc
    → new.desc < 2 ^ 32 - 1
    → binder_get_ref new.desc l ≡ none
    → (l' : List BinderRef) × (insert_ref new l ≡ some l')
      × IsAbove b l'
      × ((d : ℕ) → binder_get_ref d l' ≡ (if new.desc == d then some new else binder_get_ref d l))
unfolding insert_ref binder_get_ref
insert_ref-get b new [] a low w e = (new ∷ [], refl, (low, w, tt), λ d. refl)
insert_ref-get b new (r ∷ l) a low w e = elim (Bool-cases (ltb new.desc r.desc)) [
  | inl before ↦ (new ∷ (r ∷ l), rw before, (low, w, (ground arith, a.1, a.2)), λ d. refl)
  | inr not_before ↦
      let (l', done, above, get) =
        insert_ref-get (r.desc + 1) new l a.2 (ground arith) w (ground arith) in
      let after : ltb r.desc new.desc ≡ true = ground arith in
      (r ∷ l', rw (not_before, after, done), (a.0, a.1, above), λ d. ground (arith, get d))
]

next_desc-le :
    (b s : ℕ) (l : List BinderRef) → IsAbove b l → s ≤ b + 1 → next_desc s l ≤ s + length l
next_desc-le b s [] a high = unfold next_desc in omega arith
next_desc-le b s (r ∷ l) a high = elim (Bool-cases (ltb s r.desc)) [
  | inl gap ↦ rw (next_gap s r l gap) (omega arith)
  | inr taken ↦
      rw (next_taken s r l taken a.1)
        (ground (arith, next_desc-le (r.desc + 1) (r.desc + 1) l a.2 (omega arith)))
]

first_desc-le : (context_mgr : Option ℕ) (node : ℕ) → first_desc context_mgr node ≤ 1
first_desc-le none node = omega arith
first_desc-le (some m) node = ground arith

-- What a new reference is, and what the table is after it.
abbrev pub IsNumbered : ℕ → BinderRef → List BinderRef → List BinderRef → Type 0
IsNumbered first r l l' =
    (first ≤ r.desc)
    × (binder_get_ref r.desc l ≡ none)
    × ((d : ℕ) → first ≤ d → d < r.desc → binder_get_ref d l ≢ none)
    × IsAbove 0 l'
    × ((d : ℕ) → binder_get_ref d l' ≡ (if r.desc == d then some r else binder_get_ref d l))

-- For a table in the order of its numbers with fewer than 2 ^ 32 - 2 references, the largest number
-- not among them: the reference that the process has for the node is given, and the table left as it
-- is; if it has none, a new one with no counts is made, its number is the smallest free one from 0 on
-- for the context manager and from 1 on for any other node, the table is in order after, and the
-- search finds the new reference under its number and under every other what it found before.
pub binder_get_ref_for_node-numbers :
    (context_mgr : Option ℕ) (proc node : ℕ) (l : List BinderRef)
    → IsAbove 0 l
    → length l < 2 ^ 32 - 2
    → ((r : BinderRef)
        → ref_of_node node l ≡ some r
        → binder_get_ref_for_node context_mgr proc node l ≡ some (r, l))
      × (ref_of_node node l ≡ none
          → (d : ℕ) × (l' : List BinderRef) × (binder_get_ref_for_node context_mgr proc node l
              ≡ some (new_ref proc node d, l'))
            × IsNumbered (first_desc context_mgr node) (new_ref proc node d) l l')
unfolding binder_get_ref_for_node
binder_get_ref_for_node-numbers context_mgr proc node l a few = (
  λ r e. rw (e, binder_get_ref_for_node),
  λ e.
      let s = first_desc context_mgr node in
      let small = first_desc-le context_mgr node in
      let (le, free, found) = next_desc-free 0 s l a (omega arith) small (omega (arith, small)) in
      let (l', done, above, get) =
        insert_ref-get 0 (new_ref proc node (next_desc s l)) l a (omega arith)
          (omega (arith, next_desc-le 0 s l a small, small)) free in
      (next_desc s l, l', rw (e, binder_get_ref_for_node, done), (le, free, found, above, get)),
)
