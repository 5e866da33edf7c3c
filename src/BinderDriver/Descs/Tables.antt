-- ===== src/BinderDriver/Descs/Tables.antt =====
-- What the commands of a process that holds a strong reference do to it (driver/binder.c).
use learn_node.Base.{
  ℕ, ◌+◌, ◌≡◌, ◌≢◌, ap, refl, true, false, none, some, List, [], ◌∷◌, ◌==◌, arith, ==_iff,
}
use learn_node.IpcThreadState.{Command, bc_acquire, bc_request_death_notification}
use learn_node.BinderDriver.{BinderRef, BinderNode, Death, binder_inc_ref}
use learn_node.BinderDriver.Descs.{
  binder_get_ref, write_ref, write_node, Process, inc_command, request_death, target_ref, with_ref,
  ref_command, ref_commands,
}

get_ref-desc :
    (desc : ℕ) (l : List BinderRef) (r : BinderRef) → binder_get_ref desc l ≡ some r → r.desc ≡ desc
unfolding binder_get_ref
get_ref-desc desc [] r e = absurd (cc)
get_ref-desc desc (s ∷ l) r e = ground (arith, get_ref-desc desc l r, ==_iff s.desc desc)

get_ref-write_ref :
    (desc : ℕ) (l : List BinderRef) (r new : BinderRef)
    → binder_get_ref desc l ≡ some r
    → new.desc ≡ desc
    → binder_get_ref desc (write_ref new l) ≡ some new
unfolding binder_get_ref write_ref
get_ref-write_ref desc [] r new e h = absurd (cc)
get_ref-write_ref desc (s ∷ l) r new e h = ground (
  arith,
  get_ref-write_ref desc l r new,
  ==_iff s.desc desc,
  ==_iff s.desc new.desc,
  ==_iff new.desc desc,
)

inc_ref_strong :
    (r : BinderRef) (n : BinderNode)
    → (r.strong == 0) ≡ false
    → binder_inc_ref true false r n ≡ (true, record r { strong = r.strong + 1 }, n)
unfolding binder_inc_ref
inc_ref_strong r n e = rw e

inc_command_strong :
    (r : BinderRef) (q : Process)
    → (r.strong == 0) ≡ false
    → inc_command true r q ≡ record q {
      refs = write_ref (record r { strong = r.strong + 1 }) q.refs;
      nodes = write_node q.nodes r.node (q.nodes r.node);
    }
unfolding inc_command
inc_command_strong r q e = rw (inc_ref_strong r (q.nodes r.node) e)

-- BC_ACQUIRE of a reference that is strong already.
pub acquire_strong :
    (h : ℕ) (q : Process) (r : BinderRef)
    → h ≢ 0
    → binder_get_ref h q.refs ≡ some r
    → r.strong ≢ 0
    → (q' : Process) × (ref_command (bc_acquire h) q ≡ some q')
      × (binder_get_ref h q'.refs ≡ some (record r { strong = r.strong + 1 }))
      × ((n : ℕ) → q'.nodes n ≡ q.nodes n)
unfolding ref_command target_ref with_ref
acquire_strong h q r nz e s =
    let not_mgr : (h == 0) ≡ false = ground arith in
    let strong : (r.strong == 0) ≡ false = ground arith in
    (
      record q {
        refs = write_ref (record r { strong = r.strong + 1 }) q.refs;
        nodes = write_node q.nodes r.node (q.nodes r.node);
      },
      rw (not_mgr, e) (ap some (inc_command_strong r q strong)),
      get_ref-write_ref h q.refs r (record r { strong = r.strong + 1 }) e
          (get_ref-desc h q.refs r e),
      λ n. ground (arith, ==_iff n r.node),
    )

-- BC_REQUEST_DEATH_NOTIFICATION for a living node, where no notice is set.
pub request_first :
    (h cookie : ℕ) (q : Process) (r : BinderRef)
    → binder_get_ref h q.refs ≡ some r
    → r.death ≡ none
    → (q.nodes r.node).has_proc ≡ true
    → (q' : Process) × (ref_command (bc_request_death_notification h cookie) q ≡ some q')
      × (binder_get_ref h q'.refs
          ≡ some (record r { death = some (record { cookie = cookie; queued = false }) }))
      × (q'.nodes ≡ q.nodes)
unfolding ref_command with_ref request_death
request_first h cookie q r e d live =
    let r' = record r { death = some (record { cookie = cookie; queued = false }) } in
    (
      record q { refs = write_ref r' q.refs },
      rw (e, d, live),
      get_ref-write_ref h q.refs r r' e (get_ref-desc h q.refs r e),
      refl,
    )

-- The same where a notice is set: nothing is done.
pub request_again :
    (h cookie : ℕ) (q : Process) (r : BinderRef) (d : Death)
    → binder_get_ref h q.refs ≡ some r
    → r.death ≡ some d
    → ref_command (bc_request_death_notification h cookie) q ≡ some q
unfolding ref_command with_ref request_death
request_again h cookie q r d e set = rw (e, set)

pub ref_commands_cons :
    (c : Command) (cs : List Command) (q q' : Process)
    → ref_command c q ≡ some q'
    → ref_commands (c ∷ cs) q ≡ ref_commands cs q'
unfolding ref_commands
ref_commands_cons c cs q q' e = rw e

pub ref_commands_nil : (q : Process) → ref_commands [] q ≡ some q
unfolding ref_commands
ref_commands_nil q = refl
