-- ===== src/BinderDriver/Nodes/Places.antt =====
-- The counts of a node of driver/binder.c, as an operation on one of its references keeps them.
use learn_node.Base.{
  ℕ, zero, suc, ◌+◌, ◌≡◌, ◌≤◌, refl, Bool, false, List, [], ◌∷◌, ◌==◌, if◌then◌else◌, arith,
}
use learn_node.BinderDriver.{BinderNode, BinderRef}
use learn_node.BinderDriver.Nodes.{keep, kept, inc_at, dec_at, delete_at}
use learn_node.BinderDriver.Nodes.Counts.{
  Counts, inc_ref-Counts, Done, delete_ref-Counts, dec_ref-Counts,
}

-- A reference counted among the others, and back.
abbrev one : BinderRef → ℕ
one r = if r.strong == 0 then 0 else 1

passed :
    (o k : ℕ) (n : BinderNode) (r : BinderRef) (l : List BinderRef)
    → Counts o k n (r ∷ l)
    → Counts (o + 1) (k + one r) n l
passed o k n r l c = (omega (arith, c.0), omega (arith, c.1), c.2)

put_back :
    (o k : ℕ) (n : BinderNode) (r : BinderRef) (l : List BinderRef)
    → Counts (o + 1) (k + one r) n l
    → Counts o k n (r ∷ l)
put_back o k n r l c = (omega (arith, c.0), omega (arith, c.1), c.2)

few_passed : (o k : ℕ) (r : BinderRef) → k ≤ o → k + one r ≤ o + 1
few_passed o k r few = ground arith

pub inc_at-Counts :
    (strong target_list : Bool) (i : ℕ) (n : BinderNode) (l : List BinderRef) (o k : ℕ)
    → n.freed ≡ false
    → Counts o k n l
    → let s = inc_at strong target_list i n l in Counts o k s.node s.refs
unfolding inc_at
inc_at-Counts strong target_list i n [] o k f c = c
inc_at-Counts strong target_list zero n (r ∷ l) o k f c =
    inc_ref-Counts strong target_list r n o k l f c
inc_at-Counts strong target_list (suc i) n (r ∷ l) o k f c =
    let s = inc_at strong target_list i n l in
    put_back o k s.node r s.refs
      (inc_at-Counts strong target_list i n l (o + 1) (k + one r) f (passed o k n r l c))

pub dec_at-Counts :
    (strong : Bool) (i : ℕ) (n : BinderNode) (l : List BinderRef) (o k : ℕ)
    → k ≤ o
    → n.freed ≡ false
    → Counts o k n l
    → Done o k (dec_at strong i n l)
unfolding dec_at
dec_at-Counts strong i n [] o k few f c = (record { node = n; refs = [] }, refl, c)
dec_at-Counts strong zero n (r ∷ l) o k few f c =
    let (t, done, c') = dec_ref-Counts o k few strong r n l f c in
    (record { node = t.1; refs = kept t.0 l }, rw done, c')
dec_at-Counts strong (suc i) n (r ∷ l) o k few f c =
    let (s, done, c') =
      dec_at-Counts strong i n l (o + 1) (k + one r) (few_passed o k r few) f
        (passed o k n r l c) in
    (keep r s, rw done, put_back o k s.node r s.refs c')

pub delete_at-Counts :
    (i : ℕ) (n : BinderNode) (l : List BinderRef) (o k : ℕ)
    → k ≤ o
    → n.freed ≡ false
    → Counts o k n l
    → Done o k (delete_at i n l)
unfolding delete_at
delete_at-Counts i n [] o k few f c = (record { node = n; refs = [] }, refl, c)
delete_at-Counts zero n (r ∷ l) o k few f c =
    let (n', done, c') = delete_ref-Counts o k few r n l f c in
    (record { node = n'; refs = l }, rw done, c')
delete_at-Counts (suc i) n (r ∷ l) o k few f c =
    let (s, done, c') =
      delete_at-Counts i n l (o + 1) (k + one r) (few_passed o k r few) f (passed o k n r l c) in
    (keep r s, rw done, put_back o k s.node r s.refs c')
