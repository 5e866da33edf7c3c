-- ===== src/BinderDriver/Nodes.antt =====
-- The counts of a node and of the references to it, from any processes, through any sequence of the
-- operations of driver/binder.c on them.
pub mod Counts
pub mod Owner
pub mod Places
pub mod Backed
pub mod Steps
pub mod Run
use learn_node.Base.{
  ℕ, zero, suc, ◌+◌, ◌-◌, ◌≡◌, ◌≢◌, ◌≤◌, refl, Bool, true, false, not, Option, none, some, List, [],
  ◌∷◌, ◌==◌, if◌then◌else◌, ◌&&◌, ◌||◌, ◌>>=◌, length, arith, Bool-cases, inl, inr,
}
use learn_node.BinderDriver.{
  BinderNode, BinderRef, binder_new_node, binder_inc_node, binder_dec_node, binder_inc_ref,
  binder_dec_ref, binder_delete_ref, settle, after_strong, after_weak, delete_unused,
}

-- A node, and the references to it in the order of its list.
pub record Shared : Type 0 where
  pub node : BinderNode
  pub refs : List BinderRef

-- The node through its life: `strong_holds` and `weak_holds` are the local counts that buffers of the
-- owner hold, by being sent to the node or by having it among their objects, each with a buffer that
-- gives the count back; `released` says whether binder_node_release has freed it.
pub record Life : Type 0 where
  pub shared : Shared
  pub strong_holds : ℕ
  pub weak_holds : ℕ
  pub released : Bool

-- Which reference an operation is on is a place in the list. `enter_buffer` and `leave_buffer` are a
-- count taken by binder_transaction and given back by binder_transaction_buffer_release, `read_work` is
-- BINDER_WORK_NODE in binder_thread_read, `refs_done` BC_INCREFS_DONE and BC_ACQUIRE_DONE, and
-- `proc_dies` the end of the node's process.
pub data Operation : Type 0 where
  new_ref : (proc node desc : ℕ) → Operation
  inc_ref : ℕ → Bool → Bool → Operation
  dec_ref : ℕ → Bool → Operation
  delete_ref : ℕ → Operation
  enter_buffer : Bool → Bool → Operation
  leave_buffer refs_done : Bool → Operation
  read_work proc_dies : Operation

-- binder_get_ref_for_node, for a process that has none yet.
abbrev pub linked : ℕ → ℕ → ℕ → Shared → Shared
linked proc node desc s = record s {
  node = record s.node { refs = s.node.refs + 1 };
  refs =
      record { proc = proc; node = node; desc = desc; strong = 0; weak = 0; death = none } ∷ s.refs;
}

abbrev pub keep : BinderRef → Shared → Shared
keep r s = record s { refs = r ∷ s.refs }

abbrev pub kept : Option BinderRef → List BinderRef → List BinderRef
kept none l = l
kept (some r) l = r ∷ l

-- The references before the place are passed over and put back.
pub inc_at : Bool → Bool → ℕ → BinderNode → List BinderRef → Shared
unfolding binder_inc_ref
inc_at strong target_list i n [] = record { node = n; refs = [] }
inc_at strong target_list zero n (r ∷ l) =
    let (ok, r', n') = binder_inc_ref strong target_list r n in record { node = n'; refs = r' ∷ l }
inc_at strong target_list (suc i) n (r ∷ l) = keep r (inc_at strong target_list i n l)

pub dec_at : Bool → ℕ → BinderNode → List BinderRef → Option Shared
unfolding binder_dec_ref
dec_at strong i n [] = some (record { node = n; refs = [] })
dec_at strong zero n (r ∷ l) = do
  t ← binder_dec_ref strong r n
  some (record { node = t.1; refs = kept t.0 l })
dec_at strong (suc i) n (r ∷ l) = do s ← dec_at strong i n l; some (keep r s)

pub delete_at : ℕ → BinderNode → List BinderRef → Option Shared
unfolding binder_delete_ref
delete_at i n [] = some (record { node = n; refs = [] })
delete_at zero n (r ∷ l) = do n' ← binder_delete_ref r n; some (record { node = n'; refs = l })
delete_at (suc i) n (r ∷ l) = do s ← delete_at i n l; some (keep r s)

-- The commands that tell the owner of the counts, and what they leave.
pub read_node : BinderNode → BinderNode
read_node n =
    let strong = not (n.internal_strong_refs == 0) || not (n.local_strong_refs == 0) in
    let weak = not (n.refs == 0) || not (n.local_weak_refs == 0) || strong in
    if weak && not n.has_weak_ref
    then record n {
      has_weak_ref = true;
      pending_weak_ref = true;
      local_weak_refs = n.local_weak_refs + 1;
    }
    else if strong && not n.has_strong_ref
    then record n {
      has_strong_ref = true;
      pending_strong_ref = true;
      local_strong_refs = n.local_strong_refs + 1;
    }
    else if not strong && n.has_strong_ref
    then record n { has_strong_ref = false }
    else if not weak && n.has_weak_ref
    then record n { has_weak_ref = false }
    else if not weak && not strong
    then record n { queued = false; freed = true }
    else record n { queued = false }

-- The node of a process that ends: it is freed if nothing refers to it, whatever its local counts, and
-- else loses its process and those counts. The buffers of the process go with it.
-- The death notices that it queues for the references are left out.
pub binder_node_release : Life → Life
binder_node_release l =
    let n = l.shared.node in
    let gone = record l { strong_holds = 0; weak_holds = 0 } in
    if n.refs == 0
    then record gone {
      shared = record l.shared { node = record n { queued = false; has_proc = false } };
      released = true;
    }
    else record gone {
      shared = record l.shared {
        node = record n {
          queued = false;
          has_proc = false;
          local_strong_refs = 0;
          local_weak_refs = 0;
        };
      };
    }

abbrev pub holds : Bool → Life → ℕ
holds true l = l.strong_holds
holds false l = l.weak_holds

abbrev pub with_holds : Bool → ℕ → Life → Life
with_holds true k l = record l { strong_holds = k }
with_holds false k l = record l { weak_holds = k }

abbrev pub with_node : BinderNode → Life → Life
with_node n l = record l { shared = record l.shared { node = n } }

abbrev pub is_pending : Bool → BinderNode → Bool
is_pending true n = n.pending_strong_ref
is_pending false n = n.pending_weak_ref

abbrev pub clear_pending : Bool → BinderNode → BinderNode
clear_pending true n = record n { pending_strong_ref = false }
clear_pending false n = record n { pending_weak_ref = false }

abbrev pub on_refs : Option Shared → Life → Option Life
on_refs t l = do s ← t; some (record l { shared = s })

-- A process that has ended has no buffer and sends no command.
pub owned : Operation → Life → Option Life
unfolding read_node binder_node_release
owned (enter_buffer strong target_list) l = some (
    with_holds strong (holds strong l + 1)
      (with_node (binder_inc_node strong false target_list l.shared.node).1 l))
owned (leave_buffer strong) l = if holds strong l == 0 then some l else (do
  n ← binder_dec_node strong false l.shared.node
  some (with_holds strong (holds strong l - 1) (with_node n l)))
owned (refs_done strong) l =
    if is_pending strong l.shared.node
    then (do
      n ← binder_dec_node strong false (clear_pending strong l.shared.node)
      some (with_node n l))
    else some l
owned read_work l = some (if l.shared.node.queued then with_node (read_node l.shared.node) l else l)
owned proc_dies l = some (binder_node_release l)
owned op l = some l

pub apply : Operation → Life → Option Life
unfolding inc_at dec_at delete_at owned
apply (new_ref proc node desc) l = some (record l { shared = linked proc node desc l.shared })
apply (inc_ref i strong target_list) l =
    some (record l { shared = inc_at strong target_list i l.shared.node l.shared.refs })
apply (dec_ref i strong) l = on_refs (dec_at strong i l.shared.node l.shared.refs) l
apply (delete_ref i) l = on_refs (delete_at i l.shared.node l.shared.refs) l
apply op l = if l.shared.node.has_proc then owned op l else some l

-- Nothing is done to a node that was freed.
pub node_run : List Operation → Life → Option Life
unfolding apply
node_run [] l = some l
node_run (op ∷ ops) l =
    if l.shared.node.freed || l.released then some l else apply op l >>= λ l'. node_run ops l'

abbrev pub strong_count : List BinderRef → ℕ
strong_count [] = 0
strong_count (r ∷ l) = (if r.strong == 0 then 0 else 1) + strong_count l
