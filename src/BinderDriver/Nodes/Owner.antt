-- ===== src/BinderDriver/Nodes/Owner.antt =====
-- What the owner of a node has of it is not touched by the references to it (driver/binder.c).
use learn_node.Base.{
  ℕ, zero, suc, ◌-◌, ◌≡◌, refl, Bool, true, false, Option, none, some, List, [], ◌∷◌, ◌==◌, ◌&&◌,
  ◌>>=◌, if◌then◌else◌, arith, Bool-cases, inl, inr,
}
use learn_node.BinderDriver.{
  BinderNode, BinderRef, binder_inc_node, binder_dec_node, binder_inc_ref, binder_dec_ref,
  binder_delete_ref, settle, after_strong, after_weak, delete_unused, minus_one,
}
use learn_node.BinderDriver.Nodes.{inc_at, dec_at, delete_at}

abbrev pub SameOwner : BinderNode → BinderNode → Type 0
SameOwner n n' =
    (n'.local_strong_refs ≡ n.local_strong_refs)
    × (n'.local_weak_refs ≡ n.local_weak_refs)
    × (n'.pending_strong_ref ≡ n.pending_strong_ref)
    × (n'.pending_weak_ref ≡ n.pending_weak_ref)
    × (n'.has_strong_ref ≡ n.has_strong_ref)
    × (n'.has_weak_ref ≡ n.has_weak_ref)
    × (n'.has_proc ≡ n.has_proc)

SameOwner-trans : (a b c : BinderNode) → SameOwner a b → SameOwner b c → SameOwner a c
SameOwner-trans a b c h g = ground (arith, h, g)

abbrev pub Holds : {A : Type 0} → (A → Type 0) → Option A → Type 0
Holds P none = Unit
Holds P (some a) = P a

Holds-bind :
    {A B : Type 0} (P : A → Type 0) (Q : B → Type 0) (o : Option A) (f : A → Option B)
    → Holds P o
    → ((a : A) → P a → Holds Q (f a))
    → Holds Q (o >>= f)
Holds-bind P Q none f h g = tt
Holds-bind P Q (some a) f h g = g a h

inc_ref-SameOwner :
    (strong target_list : Bool) (r : BinderRef) (n : BinderNode)
    → SameOwner n (binder_inc_ref strong target_list r n).2
unfolding binder_inc_ref binder_inc_node
inc_ref-SameOwner true target_list r n = ground arith
inc_ref-SameOwner false target_list r n = ground arith

any : {A : Type 0} (o : Option A) → Holds (λ a. Unit) o
any none = tt
any (some a) = tt

dec_node-SameOwner :
    (strong : Bool) (n : BinderNode) → Holds (SameOwner n) (binder_dec_node strong true n)
unfolding binder_dec_node after_strong after_weak settle
dec_node-SameOwner true n =
    Holds-bind (λ c. Unit) (SameOwner n) (minus_one n.internal_strong_refs) _
      (any (minus_one n.internal_strong_refs)) (λ c u. ground arith)
dec_node-SameOwner false n = ground arith

-- Where the node is not touched, or loses a strong reference.
perhaps-SameOwner :
    (b : Bool) (n : BinderNode)
    → Holds (SameOwner n) (if b then some n else binder_dec_node true true n)
perhaps-SameOwner true n = (refl, refl, refl, refl, refl, refl, refl)
perhaps-SameOwner false n = dec_node-SameOwner true n

last-SameOwner :
    (b : Bool) (n : BinderNode)
    → Holds (SameOwner n) (if b then binder_dec_node true true n else some n)
last-SameOwner true n = dec_node-SameOwner true n
last-SameOwner false n = (refl, refl, refl, refl, refl, refl, refl)

delete_ref-SameOwner :
    (r : BinderRef) (n : BinderNode) → Holds (SameOwner n) (binder_delete_ref r n)
unfolding binder_delete_ref
delete_ref-SameOwner r n =
    Holds-bind (SameOwner n) (SameOwner n) _ _ (perhaps-SameOwner (r.strong == 0) n) (λ n1 same.
      Holds-bind (λ c. Unit) (SameOwner n) (minus_one n1.refs) _ (any (minus_one n1.refs))
        (λ c u. less_refs n1 c same))
  where
    less_refs :
        (n1 : BinderNode) (c : ℕ)
        → SameOwner n n1
        → Holds (SameOwner n) (binder_dec_node false true (record n1 { refs = c }))
    less_refs n1 c same =
        weaken (binder_dec_node false true (record n1 { refs = c }))
          (dec_node-SameOwner false (record n1 { refs = c }))
      where
        weaken :
            (o : Option BinderNode)
            → Holds (SameOwner (record n1 { refs = c })) o
            → Holds (SameOwner n) o
        weaken none h = tt
        weaken (some n2) h = SameOwner-trans n n1 n2 same h

-- Of the results that have the node behind a reference.
unused-SameOwner :
    (r : BinderRef) (n n0 : BinderNode)
    → SameOwner n0 n
    → Holds (λ t. SameOwner n0 t.1) (delete_unused r n)
unfolding delete_unused
unused-SameOwner r n n0 same = elim (Bool-cases (r.strong == 0 && r.weak == 0)) [
  | inl gone ↦ rw gone (
      Holds-bind (SameOwner n) (λ t. SameOwner n0 t.1) (binder_delete_ref r n) _
        (delete_ref-SameOwner r n) (λ n1 h. SameOwner-trans n0 n n1 same h))
  | inr left ↦ rw left same
]

dec_ref-SameOwner :
    (strong : Bool) (r : BinderRef) (n : BinderNode)
    → Holds (λ t. SameOwner n t.1) (binder_dec_ref strong r n)
unfolding binder_dec_ref
dec_ref-SameOwner true r n = elim (Bool-cases (r.strong == 0)) [
  | inl none_left ↦ rw none_left (refl, refl, refl, refl, refl, refl, refl)
  | inr some_left ↦ rw some_left (
      Holds-bind (SameOwner n) (λ t. SameOwner n t.1) _ _ (last-SameOwner (r.strong - 1 == 0) n)
        (λ n1 h. unused-SameOwner (record r { strong = r.strong - 1 }) n1 n h))
]
dec_ref-SameOwner false r n = elim (Bool-cases (r.weak == 0)) [
  | inl none_left ↦ rw none_left (refl, refl, refl, refl, refl, refl, refl)
  | inr some_left ↦ rw some_left (
      unused-SameOwner (record r { weak = r.weak - 1 }) n n
        (refl, refl, refl, refl, refl, refl, refl))
]

pub inc_at-SameOwner :
    (strong target_list : Bool) (i : ℕ) (n : BinderNode) (l : List BinderRef)
    → SameOwner n (inc_at strong target_list i n l).node
unfolding inc_at
inc_at-SameOwner strong target_list i n [] = (refl, refl, refl, refl, refl, refl, refl)
inc_at-SameOwner strong target_list zero n (r ∷ l) = inc_ref-SameOwner strong target_list r n
inc_at-SameOwner strong target_list (suc i) n (r ∷ l) = inc_at-SameOwner strong target_list i n l

pub dec_at-SameOwner :
    (strong : Bool) (i : ℕ) (n : BinderNode) (l : List BinderRef)
    → Holds (λ s. SameOwner n s.node) (dec_at strong i n l)
unfolding dec_at
dec_at-SameOwner strong i n [] = (refl, refl, refl, refl, refl, refl, refl)
dec_at-SameOwner strong zero n (r ∷ l) =
    Holds-bind (λ t. SameOwner n t.1) (λ s. SameOwner n s.node) (binder_dec_ref strong r n) _
      (dec_ref-SameOwner strong r n) (λ t h. h)
dec_at-SameOwner strong (suc i) n (r ∷ l) =
    Holds-bind (λ s. SameOwner n s.node) (λ s. SameOwner n s.node) (dec_at strong i n l) _
      (dec_at-SameOwner strong i n l) (λ s h. h)

pub delete_at-SameOwner :
    (i : ℕ) (n : BinderNode) (l : List BinderRef)
    → Holds (λ s. SameOwner n s.node) (delete_at i n l)
unfolding delete_at
delete_at-SameOwner i n [] = (refl, refl, refl, refl, refl, refl, refl)
delete_at-SameOwner zero n (r ∷ l) =
    Holds-bind (SameOwner n) (λ s. SameOwner n s.node) (binder_delete_ref r n) _
      (delete_ref-SameOwner r n) (λ n1 h. h)
delete_at-SameOwner (suc i) n (r ∷ l) =
    Holds-bind (λ s. SameOwner n s.node) (λ s. SameOwner n s.node) (delete_at i n l) _
      (delete_at-SameOwner i n l) (λ s h. h)
