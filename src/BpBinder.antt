-- ===== src/BpBinder.antt =====
-- native/BpBinder.cpp and BpBinder.h: the proxy of a remote object. A method takes the proxy to its
-- new state and to the list of what it does outside, in order. What other code decides (whether
-- memory is there, whether a recipient still lives, what a transaction answers) is an argument.
-- A null pointer is 0.
pub mod Objects
pub mod Transact
pub mod DeathDriver
pub mod Obituaries
pub mod Recipients
mod Tests
use learn_node.Base.{
  ℕ, ◌≡◌, Bool, true, false, not, ◌&&◌, ◌||◌, Option, none, some, List, [], ◌∷◌, ◌++◌, length, ltb,
  ◌==◌, if◌then◌else◌, is_some, map,
}
use learn_node.Status.{
  Status, no_error, no_memory, invalid_operation, name_not_found, not_enough_data, dead_object,
  is_no_error, is_negative, is_dead_object,
}
use learn_node.IpcCall.{
  IpcCall, inc_strong_handle, dec_strong_handle, inc_weak_handle, dec_weak_handle,
  request_death_notification, clear_death_notification, expunge_handle, flush_commands,
}
use Objects.{ObjectManager, Entry, Cleanup, attach, find, detach, kill}

pub record Obituary : Type 0 where
  pub recipient : ℕ
  pub cookie : ℕ
  pub flags : ℕ

pub record BpBinder : Type 0 where
  pub self : ℕ
  pub handle : ℕ
  pub alive : Bool
  pub obits_sent : Bool
  pub obituaries : Option (List Obituary)
  pub objects : ObjectManager
  pub descriptor_cache : List ℕ

pub data Effect : Type 0 where
  ipc : IpcCall → Effect
  extend_lifetime_weak inc_weak : ℕ → Effect
  binder_died : ℕ → Effect
  cleanup : Cleanup → Effect

-- Whether `new Vector<Obituary>` gives memory, and what `Vector::add` returns.
pub record Memory : Type 0 where
  pub vector : Bool
  pub add : Status

abbrev pub death_calls : (ℕ → ℕ → IpcCall) → BpBinder → List Effect
death_calls call p = ipc (call p.handle p.self) ∷ ipc flush_commands ∷ []

-- The constructor: a weak reference on the handle is asked for.
unfoldable pub new_proxy : ℕ → ℕ → BpBinder × List Effect
new_proxy self handle = (
  record {
    self = self;
    handle = handle;
    alive = true;
    obits_sent = false;
    obituaries = none;
    objects = [];
    descriptor_cache = [];
  },
  extend_lifetime_weak self ∷ ipc (inc_weak_handle handle) ∷ [],
)

pub is_binder_alive : BpBinder → Bool
is_binder_alive p = p.alive

-- `mObituaries->add(ob)`, and what `linkToDeath` then returns.
add_obituary :
    Memory → Obituary → List Obituary → BpBinder → List Effect → Status × BpBinder × List Effect
add_obituary mem ob obits p effects =
    if is_negative mem.add
    then (mem.add, record p { obituaries = some obits }, effects)
    else (no_error, record p { obituaries = some (obits ++ ob ∷ []) }, effects)

-- The part of `linkToDeath` that runs when no obituary has been sent.
link_locked :
    Memory → Obituary → BpBinder → Option (List Obituary) → Status × BpBinder × List Effect
unfolding add_obituary
link_locked mem ob p none =
    if mem.vector
    then add_obituary mem ob [] p (inc_weak p.self ∷ death_calls request_death_notification p)
    else (no_memory, p, [])
link_locked mem ob p (some obits) = add_obituary mem ob obits p []

-- `none` is the abort of `LOG_ALWAYS_FATAL_IF`.
pub link_to_death : Memory → Obituary → BpBinder → Option (Status × BpBinder × List Effect)
unfolding link_locked
link_to_death mem ob p =
    if ob.recipient == 0
    then none
    else some (if p.obits_sent then (dead_object, p, []) else link_locked mem ob p p.obituaries)

-- The test of the loop in `unlinkToDeath`.
pub matches : ℕ → ℕ → ℕ → Obituary → Bool
matches recipient cookie flags obit =
    (obit.recipient == recipient || (recipient == 0 && obit.cookie == cookie))
    && obit.flags == flags

-- The loop: the first match, and the vector without it.
pub take_first : (Obituary → Bool) → List Obituary → Option (Obituary × List Obituary)
take_first test [] = none
take_first test (o ∷ os) =
    let rest = take_first test os in
    if test o then some (o, os) else elim rest [ none ↦ none | some (x, xs) ↦ some (x, o ∷ xs) ]

-- After the removal: an empty vector is deleted, and the driver told.
drop_obituaries : BpBinder → List Obituary → BpBinder × List Effect
drop_obituaries p [] = (record p { obituaries = none }, death_calls clear_death_notification p)
drop_obituaries p (o ∷ os) = (record p { obituaries = some (o ∷ os) }, [])

abbrev pub obituary_list : Option (List Obituary) → List Obituary
obituary_list none = []
obituary_list (some obits) = obits

unlink_found :
    BpBinder → Option (Obituary × List Obituary) → Status × Option ℕ × BpBinder × List Effect
unfolding drop_obituaries
unlink_found p none = (name_not_found, none, p, [])
unlink_found p (some (o, os)) =
    let (q, effects) = drop_obituaries p os in (no_error, some o.recipient, q, effects)

-- With the status comes what is written to `outRecipient`, if anything is.
pub unlink_to_death : ℕ → ℕ → ℕ → BpBinder → Status × Option ℕ × BpBinder × List Effect
unfolding unlink_found
unlink_to_death recipient cookie flags p =
    if p.obits_sent
    then (dead_object, none, p, [])
    else unlink_found p (take_first (matches recipient cookie flags) (obituary_list p.obituaries))

-- `recipient.promote()` gives the recipient if it still lives.
pub report_one_death : (ℕ → Bool) → Obituary → List Effect
report_one_death promote obit =
    if promote obit.recipient then binder_died obit.recipient ∷ [] else []

pub report_deaths : (ℕ → Bool) → List Obituary → List Effect
unfolding report_one_death
report_deaths promote [] = []
report_deaths promote (o ∷ os) = report_one_death promote o ++ report_deaths promote os

-- `sendObituary` before it locks: the proxy is dead, and the flag says whether to go on.
pub obituary_begin : BpBinder → BpBinder × Bool
obituary_begin p = (record p { alive = false }, not p.obits_sent)

-- What it does under the lock: the vector is taken out of the proxy.
pub obituary_locked : BpBinder → BpBinder × List Obituary × List Effect
obituary_locked p = (
  record p { obituaries = none; obits_sent = true },
  obituary_list p.obituaries,
  if is_some p.obituaries then death_calls clear_death_notification p else [],
)

pub send_obituary : (ℕ → Bool) → BpBinder → BpBinder × List Effect
unfolding obituary_begin obituary_locked report_deaths
send_obituary promote p =
    let (q, go_on) = obituary_begin p in
    let (r, obits, effects) = obituary_locked q in
    if go_on then (r, effects ++ report_deaths promote obits) else (q, [])

-- The constructor of a new reference and the last release: the driver counts strong references.
-- The flag says whether the thread has an IPCThreadState.
pub on_first_ref : Bool → BpBinder → List Effect
on_first_ref has_ipc p = if has_ipc then ipc (inc_strong_handle p.handle) ∷ [] else []

pub on_last_strong_ref : Bool → BpBinder → List Effect
on_last_strong_ref has_ipc p = if has_ipc then ipc (dec_strong_handle p.handle) ∷ [] else []

-- `attempt` is what IPCThreadState::attemptIncStrongHandle returns.
pub on_inc_strong_attempted : Bool → (ℕ → Status) → BpBinder → Bool
on_inc_strong_attempted has_ipc attempt p =
    if has_ipc then is_no_error (attempt p.handle) else false

-- The destructor, and that of its object manager.
pub destroy : Bool → BpBinder → List Effect
destroy has_ipc p =
    (if has_ipc && is_some p.obituaries
      then ipc (clear_death_notification p.handle p.self) ∷ []
      else [])
    ++ (if has_ipc
        then ipc (expunge_handle p.handle p.self) ∷ ipc (dec_weak_handle p.handle) ∷ []
        else [])
    ++ map cleanup (kill p.objects).1

pub attach_object : ℕ → Entry → BpBinder → BpBinder
attach_object id e p = record p { objects = attach id e p.objects }

pub find_object : ℕ → BpBinder → ℕ
find_object id p = find id p.objects

pub detach_object : ℕ → BpBinder → BpBinder
detach_object id p = record p { objects = detach id p.objects }
