-- ===== src/BinderDriver.antt =====
-- driver/binder.c, the kernel's side of Binder: the counts that nodes and references keep of one
-- another, the numbers of references, and the buffers of a process. A node is in the hands of one
-- lock (binder_main_lock), so each function is one step.
pub mod Nodes
pub mod Descs
pub mod Buffers
pub mod Objects
pub mod Pages
mod Tests
use learn_node.Base.{
  ℕ, zero, suc, ◌+◌, ◌-◌, ◌≡◌, Bool, true, false, not, Option, none, some, ◌==◌, if◌then◌else◌,
  ◌&&◌, ◌||◌, ◌>>=◌,
}

-- A node. `refs` is the length of its list of references, `queued` says whether its work is in some
-- todo list, `has_proc` whether its process lives, and `freed` whether it was freed.
pub record BinderNode : Type 0 where
  pub refs : ℕ
  pub internal_strong_refs : ℕ
  pub local_weak_refs : ℕ
  pub local_strong_refs : ℕ
  pub has_strong_ref : Bool
  pub pending_strong_ref : Bool
  pub has_weak_ref : Bool
  pub pending_weak_ref : Bool
  pub queued : Bool
  pub has_proc : Bool
  pub is_context_mgr : Bool
  pub freed : Bool

-- binder_ref_death; `queued` says whether its work is in some list.
pub record Death : Type 0 where
  pub cookie : ℕ
  pub queued : Bool

-- A reference of the process `proc` to the node `node`, with its death notice.
pub record BinderRef : Type 0 where
  pub proc : ℕ
  pub node : ℕ
  pub desc : ℕ
  pub strong : ℕ
  pub weak : ℕ
  pub death : Option Death

-- kzalloc
pub binder_new_node : Bool → BinderNode
binder_new_node is_context_mgr = record {
  refs = 0;
  internal_strong_refs = 0;
  local_weak_refs = 0;
  local_strong_refs = 0;
  has_strong_ref = false;
  pending_strong_ref = false;
  has_weak_ref = false;
  pending_weak_ref = false;
  queued = false;
  has_proc = true;
  is_context_mgr = is_context_mgr;
  freed = false;
}

queue_strong : Bool → BinderNode → BinderNode
queue_strong target_list n =
    if not n.has_strong_ref && target_list then record n { queued = true } else n

-- The weak count is raised also where the call fails.
inc_weak : Bool → BinderNode → Bool × BinderNode
inc_weak target_list n =
    if not n.has_weak_ref && not n.queued
    then (if target_list then (true, record n { queued = true }) else (false, n))
    else (true, n)

-- `target_list` says whether the list is not NULL; the result is `false` for -EINVAL.
pub binder_inc_node : Bool → Bool → Bool → BinderNode → Bool × BinderNode
unfolding queue_strong inc_weak
binder_inc_node true true target_list n =
    if not target_list && n.internal_strong_refs == 0 && not (n.is_context_mgr && n.has_strong_ref)
    then (false, n)
    else (
      true,
      queue_strong target_list (record n { internal_strong_refs = n.internal_strong_refs + 1 }),
    )
binder_inc_node true false target_list n =
    (true, queue_strong target_list (record n { local_strong_refs = n.local_strong_refs + 1 }))
binder_inc_node false true target_list n = inc_weak target_list n
binder_inc_node false false target_list n =
    inc_weak target_list (record n { local_weak_refs = n.local_weak_refs + 1 })

-- `none` stands for a count below zero, which an int would take.
abbrev pub minus_one : ℕ → Option ℕ
minus_one zero = none
minus_one (suc n) = some n

-- Behind the counts: the owner is told, or the node is freed if nothing is left of it.
abbrev pub is_unused : BinderNode → Bool
is_unused n = n.refs == 0 && n.local_strong_refs == 0 && n.local_weak_refs == 0

settle : BinderNode → BinderNode
settle n =
    if n.has_proc && (n.has_strong_ref || n.has_weak_ref)
    then record n { queued = true }
    else if is_unused n
    then record n { queued = false; freed = true }
    else n

after_strong : BinderNode → BinderNode
unfolding settle
after_strong n =
    if not (n.local_strong_refs == 0) || not (n.internal_strong_refs == 0) then n else settle n

after_weak : BinderNode → BinderNode
unfolding settle
after_weak n = if not (n.local_weak_refs == 0) || not (n.refs == 0) then n else settle n

pub binder_dec_node : Bool → Bool → BinderNode → Option BinderNode
unfolding after_strong after_weak
binder_dec_node true true n = do
  c ← minus_one n.internal_strong_refs
  some (after_strong (record n { internal_strong_refs = c }))
binder_dec_node true false n = do
  c ← minus_one n.local_strong_refs
  some (after_strong (record n { local_strong_refs = c }))
binder_dec_node false true n = some (after_weak n)
binder_dec_node false false n = do
  c ← minus_one n.local_weak_refs
  some (after_weak (record n { local_weak_refs = c }))

-- The result is `false` where binder_inc_node fails.
pub binder_inc_ref : Bool → Bool → BinderRef → BinderNode → Bool × BinderRef × BinderNode
unfolding binder_inc_node
binder_inc_ref true target_list r n =
    if r.strong == 0
    then (let (ok, n') = binder_inc_node true true target_list n in
        if ok then (true, record r { strong = r.strong + 1 }, n') else (false, r, n'))
    else (true, record r { strong = r.strong + 1 }, n)
binder_inc_ref false target_list r n =
    if r.weak == 0
    then (let (ok, n') = binder_inc_node false true target_list n in
        if ok then (true, record r { weak = r.weak + 1 }, n') else (false, r, n'))
    else (true, record r { weak = r.weak + 1 }, n)

-- What binder_delete_ref does to the node; the reference is out of both trees and freed.
pub binder_delete_ref : BinderRef → BinderNode → Option BinderNode
unfolding binder_dec_node
binder_delete_ref r n = do
  n1 ← if r.strong == 0 then some n else binder_dec_node true true n
  c ← minus_one n1.refs
  binder_dec_node false true (record n1 { refs = c })

-- A reference with no count left is deleted: then there is none in the result.
delete_unused : BinderRef → BinderNode → Option (Option BinderRef × BinderNode)
delete_unused r n =
    if r.strong == 0 && r.weak == 0
    then (do n' ← binder_delete_ref r n; some (none, n'))
    else some (some r, n)

-- Where the count is 0 already nothing is done (-EINVAL).
pub binder_dec_ref : Bool → BinderRef → BinderNode → Option (Option BinderRef × BinderNode)
binder_dec_ref true r n =
    if r.strong == 0
    then some (some r, n)
    else let r' = record r { strong = r.strong - 1 } in
      (do n' ← if r'.strong == 0 then binder_dec_node true true n else some n; delete_unused r' n')
binder_dec_ref false r n =
    if r.weak == 0 then some (some r, n) else delete_unused (record r { weak = r.weak - 1 }) n
