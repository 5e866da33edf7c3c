-- ===== src/BinderDriver/Nodes/Steps.antt =====
-- The counts of a node of driver/binder.c, operation by operation.
use learn_node.Base.{
  Option, none, some_same, sym, subst, ◌-◌, ◌≡◌, refl, Bool, true, false, some, ◌==◌, if◌then◌else◌,
  arith, Bool-cases, inl, inr,
}
use learn_node.BinderDriver.Nodes.{
  Shared, Life, read_node, binder_node_release, on_refs, with_holds, with_node, is_pending,
  clear_pending, owned, Operation, new_ref, inc_ref, dec_ref, delete_ref, enter_buffer,
  leave_buffer, refs_done, read_work, proc_dies, linked, inc_at, dec_at, delete_at, apply,
}
use learn_node.BinderDriver.Nodes.Owner.{
  SameOwner, Holds, inc_at-SameOwner, dec_at-SameOwner, delete_at-SameOwner,
}
use learn_node.BinderDriver.Nodes.Counts.{Counts, Done}
use learn_node.BinderDriver.Nodes.Places.{inc_at-Counts, dec_at-Counts, delete_at-Counts}
use learn_node.BinderDriver.Nodes.Backed.{
  IsBacked, IsSound, Goes, inc_local-Counts, dec_local-Sound, cleared-IsBacked, inc_local-IsBacked,
  read_node-Counts, read_node-IsBacked, is_off, release-IsSound,
}

-- What an operation of a living owner leaves; `c` and `b` are what it finds.
module _ (l : Life) (f : l.shared.node.freed ≡ false) (live : l.released ≡ false)
    (c : Counts 0 0 l.shared.node l.shared.refs)
    (b : IsBacked l.strong_holds l.weak_holds l.shared.node) where
  unchanged : IsSound l
  unchanged = (c, (λ p. b), is_off l.released live)

  enter_buffer-Sound :
      (strong target_list : Bool) → Goes (owned (enter_buffer strong target_list) l)
  unfolding owned
  enter_buffer-Sound true target_list = (
    _,
    refl,
    (
      inc_local-Counts true target_list l.shared.node l.shared.refs f c,
      λ p. inc_local-IsBacked true target_list l.strong_holds l.weak_holds l.shared.node b,
      is_off l.released live,
    ),
  )
  enter_buffer-Sound false target_list = (
    _,
    refl,
    (
      inc_local-Counts false target_list l.shared.node l.shared.refs f c,
      λ p. inc_local-IsBacked false target_list l.strong_holds l.weak_holds l.shared.node b,
      is_off l.released live,
    ),
  )

  leave_buffer-Sound : (strong : Bool) → Goes (owned (leave_buffer strong) l)
  unfolding owned
  leave_buffer-Sound true = elim (Bool-cases (l.strong_holds == 0)) [
    | inl none_held ↦ (l, rw none_held refl, unchanged)
    | inr held ↦
        let (n', done, c', b') =
          dec_local-Sound true (l.strong_holds - 1) l.weak_holds l.shared.node l.shared.refs f c
            (ground arith) in
        (
          with_holds true (l.strong_holds - 1) (with_node n' l),
          rw (held, done) refl,
          (c', (λ p. b'), is_off l.released live),
        )
  ]
  leave_buffer-Sound false = elim (Bool-cases (l.weak_holds == 0)) [
    | inl none_held ↦ (l, rw none_held refl, unchanged)
    | inr held ↦
        let (n', done, c', b') =
          dec_local-Sound false l.strong_holds (l.weak_holds - 1) l.shared.node l.shared.refs f c
            (ground arith) in
        (
          with_holds false (l.weak_holds - 1) (with_node n' l),
          rw (held, done) refl,
          (c', (λ p. b'), is_off l.released live),
        )
  ]

  refs_done-Sound : (strong : Bool) → Goes (owned (refs_done strong) l)
  unfolding owned
  refs_done-Sound strong = elim (Bool-cases (is_pending strong l.shared.node)) [
    | inr answered ↦ (l, rw answered refl, unchanged)
    | inl waits ↦
        let (n', done, c', b') =
          dec_local-Sound strong l.strong_holds l.weak_holds (clear_pending strong l.shared.node)
            l.shared.refs (cleared strong) (cleared_Counts strong)
            (cleared-IsBacked strong l.strong_holds l.weak_holds l.shared.node waits b) in
        (with_node n' l, rw (waits, done) refl, (c', (λ p. b'), is_off l.released live))
  ]
    where
      cleared : (st : Bool) → (clear_pending st l.shared.node).freed ≡ false
      cleared true = f
      cleared false = f

      cleared_Counts : (st : Bool) → Counts 0 0 (clear_pending st l.shared.node) l.shared.refs
      cleared_Counts true = c
      cleared_Counts false = c

  read_work-Sound : Goes (owned read_work l)
  unfolding owned
  read_work-Sound = elim (Bool-cases l.shared.node.queued) [
    | inl waits ↦ (
      with_node (read_node l.shared.node) l,
      rw waits refl,
      (
        read_node-Counts l.shared.node l.shared.refs f c,
        λ p. read_node-IsBacked l.strong_holds l.weak_holds l.shared.node b,
        is_off l.released live,
      ),
    )
    | inr no_work ↦ (l, rw no_work refl, unchanged)
  ]

  owned-Sound : (op : Operation) → Goes (owned op l)
  unfolding owned
  owned-Sound (enter_buffer strong target_list) = enter_buffer-Sound strong target_list
  owned-Sound (leave_buffer strong) = leave_buffer-Sound strong
  owned-Sound (refs_done strong) = refs_done-Sound strong
  owned-Sound read_work = read_work-Sound
  owned-Sound proc_dies = (binder_node_release l, refl, release-IsSound l f live c)
  owned-Sound (new_ref proc node desc) = (l, refl, unchanged)
  owned-Sound (inc_ref i st tl) = (l, refl, unchanged)
  owned-Sound (dec_ref i st) = (l, refl, unchanged)
  owned-Sound (delete_ref i) = (l, refl, unchanged)

-- An operation on a reference leaves what the owner has.
kept-IsSound :
    (l : Life) (s : Shared)
    → l.released ≡ false
    → SameOwner l.shared.node s.node
    → (l.shared.node.has_proc ≡ true → IsBacked l.strong_holds l.weak_holds l.shared.node)
    → Counts 0 0 s.node s.refs
    → IsSound (record l { shared = s })
kept-IsSound l s live same b c = (c, (λ p. backed p), is_off l.released live)
  where
    backed : s.node.has_proc ≡ true → IsBacked l.strong_holds l.weak_holds s.node
    backed p =
        let lives : l.shared.node.has_proc ≡ true = cc in
        let before = b lives in ground (arith, same, before)

on_refs-Sound :
    (t : Option Shared) (l : Life)
    → l.released ≡ false
    → (l.shared.node.has_proc ≡ true → IsBacked l.strong_holds l.weak_holds l.shared.node)
    → Holds (λ s. SameOwner l.shared.node s.node) t
    → Done 0 0 t
    → Goes (on_refs t l)
on_refs-Sound none l live b same d = absurd (cc (d.1))
on_refs-Sound (some s') l live b same (s, e, c) =
    let here : s' ≡ s = some_same s' s e in
    (
      record l { shared = s' },
      refl,
      kept-IsSound l s' live same b (subst (λ (x : Shared). Counts 0 0 x.node x.refs) (sym here) c),
    )

by_owner :
    (op : Operation) (l : Life)
    → l.shared.node.freed ≡ false
    → l.released ≡ false
    → IsSound l
    → Goes (if l.shared.node.has_proc then owned op l else some l)
by_owner op l f live s = elim (Bool-cases l.shared.node.has_proc) [
  | inl lives ↦
      subst (λ b. Goes (if b then owned op l else some l)) (sym lives)
        (owned-Sound l f live s.0 (s.1 lives) op)
  | inr gone ↦ subst (λ b. Goes (if b then owned op l else some l)) (sym gone) (l, refl, s)
]

pub apply-Sound :
    (op : Operation) (l : Life)
    → l.shared.node.freed ≡ false
    → l.released ≡ false
    → IsSound l
    → Goes (apply op l)
unfolding apply
apply-Sound (new_ref proc node desc) l f live s = (
  record l { shared = linked proc node desc l.shared },
  refl,
  (ground (arith, s.0), s.1, is_off l.released live),
)
apply-Sound (inc_ref i strong target_list) l f live s = (
  record l { shared = inc_at strong target_list i l.shared.node l.shared.refs },
  refl,
  kept-IsSound l (inc_at strong target_list i l.shared.node l.shared.refs) live
      (inc_at-SameOwner strong target_list i l.shared.node l.shared.refs) s.1
      (inc_at-Counts strong target_list i l.shared.node l.shared.refs 0 0 f s.0),
)
apply-Sound (dec_ref i strong) l f live s =
    on_refs-Sound (dec_at strong i l.shared.node l.shared.refs) l live s.1
      (dec_at-SameOwner strong i l.shared.node l.shared.refs)
      (dec_at-Counts strong i l.shared.node l.shared.refs 0 0 (omega arith) f s.0)
apply-Sound (delete_ref i) l f live s =
    on_refs-Sound (delete_at i l.shared.node l.shared.refs) l live s.1
      (delete_at-SameOwner i l.shared.node l.shared.refs)
      (delete_at-Counts i l.shared.node l.shared.refs 0 0 (omega arith) f s.0)
apply-Sound (enter_buffer strong target_list) l f live s =
    by_owner (enter_buffer strong target_list) l f live s
apply-Sound (leave_buffer strong) l f live s = by_owner (leave_buffer strong) l f live s
apply-Sound (refs_done strong) l f live s = by_owner (refs_done strong) l f live s
apply-Sound read_work l f live s = by_owner read_work l f live s
apply-Sound proc_dies l f live s = by_owner proc_dies l f live s
