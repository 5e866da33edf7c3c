-- ===== src/BinderDriver/Descs.antt =====
-- The references of one process by their numbers (driver/binder.c): the search, the choice of a number
-- for a new reference, and the commands on references of binder_thread_write. The two trees of a
-- process hold the same references, and are one list in the order of the numbers.
pub mod Numbers
pub mod Tables
use learn_node.Base.{
  ℕ, zero, suc, ◌+◌, ◌%◌, ◌^◌, Bool, true, false, not, Option, none, some, List, [], ◌∷◌, ◌++◌, ltb,
  ◌==◌, if◌then◌else◌, ◌&&◌, ◌||◌, ◌>>=◌,
}
use learn_node.IpcThreadState.{
  Command, bc_increfs, bc_acquire, bc_release, bc_decrefs, bc_request_death_notification,
  bc_clear_death_notification,
}
use learn_node.BinderDriver.{BinderNode, BinderRef, Death, binder_inc_ref, binder_dec_ref}

unfoldable pub binder_get_ref : ℕ → List BinderRef → Option BinderRef
binder_get_ref desc [] = none
binder_get_ref desc (r ∷ l) = if r.desc == desc then some r else binder_get_ref desc l

-- The search of the other tree.
pub ref_of_node : ℕ → List BinderRef → Option BinderRef
ref_of_node node [] = none
ref_of_node node (r ∷ l) = if r.node == node then some r else ref_of_node node l

-- The loop over the numbers in order; a uint32_t.
pub next_desc : ℕ → List BinderRef → ℕ
next_desc desc [] = desc
next_desc desc (r ∷ l) =
    let rest = next_desc ((r.desc + 1) % 2 ^ 32) l in if ltb desc r.desc then desc else rest

-- Into the tree by numbers; `none` is the BUG where the number is taken.
pub insert_ref : BinderRef → List BinderRef → Option (List BinderRef)
insert_ref new [] = some (new ∷ [])
insert_ref new (r ∷ l) =
    if ltb new.desc r.desc
    then some (new ∷ (r ∷ l))
    else if ltb r.desc new.desc
    then (do l' ← insert_ref new l; some (r ∷ l'))
    else none

abbrev pub new_ref : ℕ → ℕ → ℕ → BinderRef
new_ref proc node desc = record {
  proc = proc;
  node = node;
  desc = desc;
  strong = 0;
  weak = 0;
  death = none;
}

abbrev pub first_desc : Option ℕ → ℕ → ℕ
first_desc none node = 1
first_desc (some context_mgr) node = if node == context_mgr then 0 else 1

-- The reference and the table after; kzalloc gives memory. The list of references that the node has
-- (hlist_add_head) is no part of a Process: BinderDriver/Nodes has it.
pub binder_get_ref_for_node :
    Option ℕ → ℕ → ℕ → List BinderRef → Option (BinderRef × List BinderRef)
unfolding ref_of_node next_desc insert_ref
binder_get_ref_for_node context_mgr proc node l = elim (ref_of_node node l) [
  | some r ↦ some (r, l)
  | none ↦
      let new = new_ref proc node (next_desc (first_desc context_mgr node) l) in
      (do l' ← insert_ref new l; some (new, l'))
]

-- What a process sees: its table, the nodes, which of them is the context manager, and the works of
-- death notices, in its lists of work and of delivered notices.
pub data Notice : Type 0 where
  dead_binder clear_done dead_binder_and_clear : ℕ → Notice

pub record Process : Type 0 where
  pub proc : ℕ
  pub refs : List BinderRef
  pub nodes : ℕ → BinderNode
  pub context_mgr : Option ℕ
  pub notices : List Notice

-- Writes through a pointer to a reference or a node.
pub write_ref : BinderRef → List BinderRef → List BinderRef
write_ref new [] = []
write_ref new (r ∷ l) = if r.desc == new.desc then new ∷ l else r ∷ write_ref new l

pub erase_ref : ℕ → List BinderRef → List BinderRef
erase_ref desc [] = []
erase_ref desc (r ∷ l) = if r.desc == desc then l else r ∷ erase_ref desc l

abbrev pub write_node : (ℕ → BinderNode) → ℕ → BinderNode → ℕ → BinderNode
write_node nodes a n b = if b == a then n else nodes b

-- BC_INCREFS and BC_ACQUIRE, of a reference that was found.
pub inc_command : Bool → BinderRef → Process → Process
inc_command strong r p =
    let (ok, r', n') = binder_inc_ref strong false r (p.nodes r.node) in
    record p { refs = write_ref r' p.refs; nodes = write_node p.nodes r.node n' }

after_dec : BinderRef → Process → Option BinderRef × BinderNode → Process
after_dec r p (none, n') = record p {
  refs = erase_ref r.desc p.refs;
  nodes = write_node p.nodes r.node n';
}
after_dec r p (some r', n') = record p {
  refs = write_ref r' p.refs;
  nodes = write_node p.nodes r.node n';
}

-- BC_RELEASE and BC_DECREFS
pub dec_command : Bool → BinderRef → Process → Option Process
unfolding after_dec
dec_command strong r p = do t ← binder_dec_ref strong r (p.nodes r.node); some (after_dec r p t)

-- BC_REQUEST_DEATH_NOTIFICATION: refused where one is set; told at once where the node is dead.
-- kzalloc gives memory, so that there is no BR_ERROR.
request_death : ℕ → BinderRef → Option Death → Process → Process
request_death cookie r (some d) p = p
request_death cookie r none p =
    if (p.nodes r.node).has_proc
    then record p {
      refs =
          write_ref (record r { death = some (record { cookie = cookie; queued = false }) }) p.refs;
    }
    else record p {
      refs =
          write_ref (record r { death = some (record { cookie = cookie; queued = true }) }) p.refs;
      notices = p.notices ++ dead_binder cookie ∷ [];
    }

-- The work of a notice that is still in a list gets another type.
retype : ℕ → List Notice → List Notice
retype cookie [] = []
retype cookie (dead_binder c ∷ ns) =
    if c == cookie then dead_binder_and_clear c ∷ ns else dead_binder c ∷ retype cookie ns
retype cookie (n ∷ ns) = n ∷ retype cookie ns

-- BC_CLEAR_DEATH_NOTIFICATION
clear_death : ℕ → BinderRef → Option Death → Process → Process
unfolding retype
clear_death cookie r none p = p
clear_death cookie r (some d) p =
    if d.cookie == cookie
    then record p {
      refs = write_ref (record r { death = none }) p.refs;
      notices = if d.queued then retype cookie p.notices else p.notices ++ clear_done cookie ∷ [];
    }
    else p

-- The reference that a command names, if there is one; for the number of the context manager it is
-- made if need be.
target_ref : Bool → ℕ → Process → Option (Option BinderRef × Process)
target_ref counts_up target p =
    if target == 0 && counts_up
    then elim p.context_mgr [
      | none ↦ some (binder_get_ref target p.refs, p)
      | some m ↦ (do
        t ← binder_get_ref_for_node p.context_mgr p.proc m p.refs
        some (some t.0, record p { refs = t.1 }))
    ]
    else some (binder_get_ref target p.refs, p)

-- What is done with the reference; a number with none is passed over.
with_ref : (BinderRef → Process → Option Process) → Option BinderRef × Process → Option Process
with_ref f (none, p) = some p
with_ref f (some r, p) = f r p

-- The commands on references in binder_thread_write; the others are not of this table. `none` is a
-- count below zero, or the BUG of a number given twice.
pub ref_command : Command → Process → Option Process
unfolding target_ref with_ref inc_command dec_command request_death clear_death
ref_command (bc_increfs target) p = do
  t ← target_ref true target p
  with_ref (λ r q. some (inc_command false r q)) t
ref_command (bc_acquire target) p = do
  t ← target_ref true target p
  with_ref (λ r q. some (inc_command true r q)) t
ref_command (bc_release target) p = do t ← target_ref false target p; with_ref (dec_command true) t
ref_command (bc_decrefs target) p = do t ← target_ref false target p; with_ref (dec_command false) t
ref_command (bc_request_death_notification target cookie) p =
    with_ref (λ r q. some (request_death cookie r r.death q)) (binder_get_ref target p.refs, p)
ref_command (bc_clear_death_notification target cookie) p =
    with_ref (λ r q. some (clear_death cookie r r.death q)) (binder_get_ref target p.refs, p)
ref_command c p = some p

pub ref_commands : List Command → Process → Option Process
ref_commands [] p = some p
ref_commands (c ∷ cs) p = ref_command c p >>= λ p'. ref_commands cs p'
