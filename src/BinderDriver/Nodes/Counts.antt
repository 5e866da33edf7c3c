-- ===== src/BinderDriver/Nodes/Counts.antt =====
-- What a node counts of the references to it (driver/binder.c), and the loss of a reference.
use learn_node.Base.{
  ℕ, suc, ◌+◌, ◌-◌, ◌≡◌, ◌≢◌, ◌≤◌, refl, Bool, true, false, Option, none, some, List, [], ◌∷◌, ◌==◌,
  ◌&&◌, length, arith, Bool-cases, inl, inr,
}
use learn_node.BinderDriver.{
  BinderNode, BinderRef, binder_inc_node, binder_dec_node, binder_inc_ref, binder_dec_ref,
  binder_delete_ref, settle, after_strong, after_weak, delete_unused,
}
use learn_node.BinderDriver.Nodes.{Shared, kept, strong_count}

-- What holds of a node with `others` more references, of which `strong` are strong.
abbrev pub Counts : ℕ → ℕ → BinderNode → List BinderRef → Type 0
Counts others strong n l =
    (n.refs ≡ others + length l)
    × (n.internal_strong_refs ≡ strong + strong_count l)
    × (n.freed ≡ true
        → (n.refs ≡ 0)
          × (n.internal_strong_refs ≡ 0)
          × (n.local_strong_refs ≡ 0)
          × (n.local_weak_refs ≡ 0))

pub strong_count-le : (l : List BinderRef) → strong_count l ≤ length l
strong_count-le [] = omega arith
strong_count-le (r ∷ l) = ground (arith, strong_count-le l)

pub inc_ref-Counts :
    (strong target_list : Bool) (r : BinderRef) (n : BinderNode) (o k : ℕ) (l : List BinderRef)
    → n.freed ≡ false
    → Counts o k n (r ∷ l)
    → Counts o k
        (binder_inc_ref strong target_list r n).2
        ((binder_inc_ref strong target_list r n).1 ∷ l)
unfolding binder_inc_ref binder_inc_node
inc_ref-Counts true target_list r n o k l f c = ground arith
inc_ref-Counts false target_list r n o k l f c = ground arith

-- A strong count less, while there is a reference: the node is not freed.
less_strong :
    (n : BinderNode) (m : ℕ)
    → n.internal_strong_refs ≡ suc m
    → n.refs ≢ 0
    → n.freed ≡ false
    → (n' : BinderNode) × (binder_dec_node true true n ≡ some n')
      × (n'.refs ≡ n.refs)
      × (n'.internal_strong_refs ≡ m)
      × (n'.freed ≡ false)
unfolding binder_dec_node
less_strong n m e p f = (
  after_strong (record n { internal_strong_refs = m }),
  rw e,
  unfold after_strong settle in ground arith,
  unfold after_strong settle in ground arith,
  unfold after_strong settle in ground arith,
)

-- A reference less.
less_refs :
    (n : BinderNode) (o k : ℕ) (l : List BinderRef)
    → k ≤ o
    → n.refs ≡ o + length l
    → n.internal_strong_refs ≡ k + strong_count l
    → n.freed ≡ false
    → Counts o k (after_weak n) l
unfolding after_weak settle
less_refs n o k l few e c f = ground (arith, strong_count-le l)

delete_weak :
    (r : BinderRef) (n : BinderNode) (m : ℕ)
    → (r.strong == 0) ≡ true
    → n.refs ≡ suc m
    → binder_delete_ref r n ≡ some (after_weak (record n { refs = m }))
unfolding binder_delete_ref binder_dec_node
delete_weak r n m weak e = rw (weak, e)

delete_strong :
    (r : BinderRef) (n n' : BinderNode) (m : ℕ)
    → (r.strong == 0) ≡ false
    → binder_dec_node true true n ≡ some n'
    → n'.refs ≡ suc m
    → binder_delete_ref r n ≡ some (after_weak (record n' { refs = m }))
unfolding binder_delete_ref
delete_strong r n n' m strong done e = rw (strong, done, e) (unfold binder_dec_node in refl)

dec_last :
    (r : BinderRef) (n n' : BinderNode) (t : Option BinderRef × BinderNode)
    → (r.strong == 0) ≡ false
    → (r.strong - 1 == 0) ≡ true
    → binder_dec_node true true n ≡ some n'
    → delete_unused (record r { strong = r.strong - 1 }) n' ≡ some t
    → binder_dec_ref true r n ≡ some t
unfolding binder_dec_ref
dec_last r n n' t some_left last done e = rw (some_left, last, done, e)

abbrev pub Done : ℕ → ℕ → Option Shared → Type 0
Done o k t = (s : Shared) × (t ≡ some s) × Counts o k s.node s.refs

-- The hypotheses that the lemmas on one reference share.
module _ (o k : ℕ) (few : k ≤ o) where
  pub delete_ref-Counts :
      (r : BinderRef) (n : BinderNode) (l : List BinderRef)
      → n.freed ≡ false
      → Counts o k n (r ∷ l)
      → (n' : BinderNode) × (binder_delete_ref r n ≡ some n') × Counts o k n' l
  delete_ref-Counts r n l f c = elim (Bool-cases (r.strong == 0)) [
    | inl weak ↦ (
      after_weak (record n { refs = o + length l }),
      delete_weak r n (o + length l) weak (ground arith),
      less_refs (record n { refs = o + length l }) o k l few refl (ground arith) f,
    )
    | inr strong ↦
        let (n', done, same, less, f') =
          less_strong n (k + strong_count l) (ground arith) (ground arith) f in
        (
          after_weak (record n' { refs = o + length l }),
          delete_strong r n n' (o + length l) strong done (ground arith),
          less_refs (record n' { refs = o + length l }) o k l few refl less f',
        )
  ]

  unused-Counts :
      (r : BinderRef) (n : BinderNode) (l : List BinderRef)
      → n.freed ≡ false
      → Counts o k n (r ∷ l)
      → (t : Option BinderRef × BinderNode) × (delete_unused r n ≡ some t)
        × Counts o k t.1 (kept t.0 l)
  unfolding delete_unused
  unused-Counts r n l f c = elim (Bool-cases (r.strong == 0 && r.weak == 0)) [
    | inl gone ↦
        let (n', done, c') = delete_ref-Counts r n l f c in ((none, n'), rw (gone, done), c')
    | inr left ↦ ((some r, n), rw left, c)
  ]

  pub dec_ref-Counts :
      (strong : Bool) (r : BinderRef) (n : BinderNode) (l : List BinderRef)
      → n.freed ≡ false
      → Counts o k n (r ∷ l)
      → (t : Option BinderRef × BinderNode) × (binder_dec_ref strong r n ≡ some t)
        × Counts o k t.1 (kept t.0 l)
  unfolding binder_dec_ref
  dec_ref-Counts true r n l f c = elim (Bool-cases (r.strong == 0)) [
    | inl none_left ↦ ((some r, n), rw none_left, c)
    | inr some_left ↦ elim (Bool-cases (r.strong - 1 == 0)) [
      | inl last ↦
          let (n', done, same, less, f') =
            less_strong n (k + strong_count l) (ground arith) (ground arith) f in
          let (t, done', c') =
            unused-Counts (record r { strong = r.strong - 1 }) n' l f' (ground arith) in
          (t, dec_last r n n' t some_left last done done', c')
      | inr more ↦
          let (t, done, c') =
            unused-Counts (record r { strong = r.strong - 1 }) n l f (ground arith) in
          (t, rw (some_left, more, done), c')
    ]
  ]
  dec_ref-Counts false r n l f c = elim (Bool-cases (r.weak == 0)) [
    | inl none_left ↦ ((some r, n), rw none_left, c)
    | inr some_left ↦
        let (t, done, c') = unused-Counts (record r { weak = r.weak - 1 }) n l f c in
        (t, rw (some_left, done), c')
  ]
