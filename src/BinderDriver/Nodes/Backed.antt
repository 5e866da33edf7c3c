-- ===== src/BinderDriver/Nodes/Backed.antt =====
-- The local counts of a node of driver/binder.c and what they stand for, through the operations of its
-- owner.
use learn_node.Base.{
  ℕ, Option, length, ◌+◌, ◌-◌, ◌≡◌, Bool, true, false, some, List, ◌==◌, if◌then◌else◌, arith,
  Bool-cases, inl, inr,
}
use learn_node.BinderDriver.{
  BinderNode, BinderRef, binder_inc_node, binder_dec_node, settle, after_strong, after_weak,
}
use learn_node.BinderDriver.Nodes.{Life, read_node, binder_node_release, is_pending, clear_pending}
use learn_node.BinderDriver.Nodes.Counts.{Counts, strong_count-le}

pub inc_local-Counts :
    (strong target_list : Bool) (n : BinderNode) (l : List BinderRef)
    → n.freed ≡ false
    → Counts 0 0 n l
    → Counts 0 0 (binder_inc_node strong false target_list n).1 l
unfolding binder_inc_node
inc_local-Counts true target_list n l f c = ground arith
inc_local-Counts false target_list n l f c = ground arith

-- While the owner lives, its local counts are those that its buffers hold and those of the commands
-- that it has not answered yet; and what it has not answered it was told.
abbrev pub IsBacked : ℕ → ℕ → BinderNode → Type 0
IsBacked hs hw n =
    (n.local_strong_refs ≡ hs + (if n.pending_strong_ref then 1 else 0))
    × (n.local_weak_refs ≡ hw + (if n.pending_weak_ref then 1 else 0))
    × (n.pending_strong_ref ≡ true → n.has_strong_ref ≡ true)
    × (n.pending_weak_ref ≡ true → n.has_weak_ref ≡ true)

abbrev pub IsSound : Life → Type 0
IsSound l =
    Counts 0 0 l.shared.node l.shared.refs
    × (l.shared.node.has_proc ≡ true → IsBacked l.strong_holds l.weak_holds l.shared.node)
    × (l.released ≡ true → length l.shared.refs ≡ 0)

abbrev pub Goes : Option Life → Type 0
Goes t = (l' : Life) × (t ≡ some l') × IsSound l'

abbrev pub more : Bool → Bool → ℕ → ℕ
more true true k = k + 1
more false false k = k + 1
more _ _ k = k

-- A local count less, of those that are there.
pub dec_local-Sound :
    (strong : Bool) (hs hw : ℕ) (n : BinderNode) (l : List BinderRef)
    → n.freed ≡ false
    → Counts 0 0 n l
    → IsBacked (more strong true hs) (more strong false hw) n
    → (n' : BinderNode) × (binder_dec_node strong false n ≡ some n')
      × Counts 0 0 n' l
      × IsBacked hs hw n'
unfolding binder_dec_node
dec_local-Sound true hs hw n l f c b = (
  after_strong (record n { local_strong_refs = n.local_strong_refs - 1 }),
  ground arith,
  unfold after_strong settle in ground (arith, strong_count-le l),
  unfold after_strong settle in ground arith,
)
dec_local-Sound false hs hw n l f c b = (
  after_weak (record n { local_weak_refs = n.local_weak_refs - 1 }),
  ground arith,
  unfold after_weak settle in ground (arith, strong_count-le l),
  unfold after_weak settle in ground arith,
)

pub cleared-IsBacked :
    (strong : Bool) (hs hw : ℕ) (n : BinderNode)
    → is_pending strong n ≡ true
    → IsBacked hs hw n
    → IsBacked (more strong true hs) (more strong false hw) (clear_pending strong n)
cleared-IsBacked true hs hw n p b = ground arith
cleared-IsBacked false hs hw n p b = ground arith

pub inc_local-IsBacked :
    (strong target_list : Bool) (hs hw : ℕ) (n : BinderNode)
    → IsBacked hs hw n
    → IsBacked
        (more strong true hs)
        (more strong false hw)
        (binder_inc_node strong false target_list n).1
unfolding binder_inc_node
inc_local-IsBacked true target_list hs hw n b = ground arith
inc_local-IsBacked false target_list hs hw n b = ground arith

pub read_node-Counts :
    (n : BinderNode) (l : List BinderRef)
    → n.freed ≡ false
    → Counts 0 0 n l
    → Counts 0 0 (read_node n) l
unfolding read_node
read_node-Counts n l f c = ground arith

pub read_node-IsBacked :
    (hs hw : ℕ) (n : BinderNode) → IsBacked hs hw n → IsBacked hs hw (read_node n)
unfolding read_node
read_node-IsBacked hs hw n b = ground arith

pub is_off : {A : Type 0} (b : Bool) → b ≡ false → b ≡ true → A
is_off true off on = absurd (cc)
is_off false off on = absurd (cc)

pub release-IsSound :
    (l : Life)
    → l.shared.node.freed ≡ false
    → l.released ≡ false
    → Counts 0 0 l.shared.node l.shared.refs
    → IsSound (binder_node_release l)
unfolding binder_node_release
release-IsSound l f live c = elim (Bool-cases (l.shared.node.refs == 0)) [
  | inl alone ↦ rw alone (c, (λ p. absurd (cc)), λ r. ground (arith, alone, c))
  | inr referred ↦
      rw referred ((c.0, c.1, λ e. absurd (cc)), (λ p. absurd (cc)), is_off l.released live)
]
