-- ===== src/ServiceManager/Tests.antt =====
-- Tests of the model of native/service_manager.c, and its theorems at concrete requests.
use learn_node.Base.{
  ap, arith, ℕ, ◌+◌, ◌%◌, ◌≡◌, ◌≢◌, refl, true, false, ◌==◌, none, some, List, [], ◌∷◌, ◌++◌,
  length, replicate, if◌then◌else◌,
}
use learn_node.Status.{no_error}
use learn_node.IpcThreadState.{TransactionData}
use learn_node.BinderDriver.Objects.{Translation, other}
use learn_node.BinderIo.{BinderIo}
use learn_node.ServiceManager.Wire.Messages.{Room}
use learn_node.ServiceManager.{
  Manager, Environment, SvcInfo, Platform, find_svc, at_address, svcinfo_death, do_add_service,
  register, override, release, svc_can_register, set_handle, units_eq, check_mac_perms_from_lookup,
  str8,
}
use learn_node.ServiceManager.Registry.{
  Event, add_request, death_notice, step, svc_run, IsFresh, spec_run, acquires, releases, holders,
}
use learn_node.BinderDriver.{BinderRef}
use learn_node.BinderDriver.Descs.{Process, binder_get_ref, ref_commands}
use learn_node.ServiceManager.Registry.{lets_through}
use learn_node.ServiceManager.Registry.Kept.{svc_run-registry}
use learn_node.ServiceManager.Registry.TwoNames.{IsHeld, svc_run-one_notice}

-- Apps have uids from 10000 on, and all else is allowed.
abbrev platform : Platform
platform = record {
  get_app_id = λ uid. uid % 100000;
  aid_app = 10000;
  aid_user = 100000;
  aid_isolated_start = 99000;
  aid_isolated_end = 99999;
  getpidcon = λ pid. some 1;
  selabel_lookup = λ sehandle name. some 2;
  check_access = λ source target perm. true;
  own_context = 3;
}

abbrev wifi : List ℕ
wifi = b'w' ∷ b'i' ∷ b'f' ∷ b'i' ∷ []

abbrev audio : List ℕ
audio = b'a' ∷ b'u' ∷ b'd' ∷ b'i' ∷ b'o' ∷ []

-- Two services; the first is given another handle, and the second dies. An app is refused.
abbrev events : List Event
events =
    add_request 1 (some 1000) wifi (0 ∷ []) 5 1000 false 70
    ∷ add_request 1 (some 2000) audio (0 ∷ []) 6 1000 true 70
    ∷ add_request 1 (some 3000) wifi (0 ∷ []) 7 1000 true 71
    ∷ add_request 1 (some 4000) (b'x' ∷ []) (0 ∷ []) 8 10050 false 72
    ∷ death_notice 2000
    ∷ []

events-IsFresh : IsFresh platform [] events
unfolding step at_address do_add_service register override release svc_can_register
    check_mac_perms_from_lookup str8 find_svc svcinfo_death units_eq set_handle
events-IsFresh = (refl, (refl, (refl, (refl, tt))))

svc_run-registry_example :
    let (l, cs) = svc_run platform [] events in
    ((n tail : List ℕ) → find_svc (n ++ tail) (length n) l ≡ spec_run platform (λ m. none) events n)
    × ((h : ℕ) → h ≢ 0 → acquires h cs ≡ releases h cs + holders h l)
svc_run-registry_example = svc_run-registry platform events events-IsFresh

-- A process that holds the object with the handle 5, and its node.
abbrev held_ref : BinderRef
held_ref = record { proc = 1; node = 50; desc = 5; strong = 1; weak = 0; death = none }

abbrev holder : Process
holder = record {
  proc = 1;
  refs = held_ref ∷ [];
  nodes = λ n. record {
    refs = 1;
    internal_strong_refs = 1;
    local_weak_refs = 0;
    local_strong_refs = 0;
    has_strong_ref = true;
    pending_strong_ref = false;
    has_weak_ref = true;
    pending_weak_ref = false;
    queued = false;
    has_proc = true;
    is_context_mgr = false;
    freed = false;
  };
  context_mgr = some 1;
  notices = [];
}

holder-IsHeld : IsHeld 5 holder held_ref
unfolding binder_get_ref
holder-IsHeld = (refl, (λ e. cc), refl, refl)

let_through :
    (lets_through platform (add_request 1 (some 1000) wifi (0 ∷ []) 5 1000 false 70) ≡ true)
    × (lets_through platform (add_request 1 (some 2000) audio (0 ∷ []) 5 1000 false 70) ≡ true)
unfolding svc_can_register check_mac_perms_from_lookup str8
let_through = (refl, refl)

names_differ : audio ≢ wifi
names_differ e = absurd (omega (arith, ap length e))

svc_run-one_notice_example :
    let (l, cs) = svc_run platform [] (
      add_request 1 (some 1000) wifi (0 ∷ []) 5 1000 false 70
      ∷ add_request 1 (some 2000) audio (0 ∷ []) 5 1000 false 70
      ∷ []) in
    ((q' : Process) × (r' : BinderRef) × (ref_commands cs holder ≡ some q')
      × (binder_get_ref 5 q'.refs ≡ some r')
      × (r'.death ≡ some (record { cookie = 1000; queued = false })))
    × ((si : SvcInfo) × (find_svc (audio ++ 0 ∷ []) (length audio) (svcinfo_death 1000 l).0
          ≡ some si)
        × (si.handle ≡ 5))
svc_run-one_notice_example =
    svc_run-one_notice platform 1 5 1000 70 1000 2000 wifi (0 ∷ []) audio (0 ∷ []) false false
      holder held_ref let_through.0 let_through.1 names_differ (λ e. absurd (omega arith))
      holder-IsHeld

-- Both messages are written into buffers with other things in them; the second client is a system
-- service.
abbrev buffer : Room
buffer = record { memory = replicate 80 7; offsets = 0 ∷ 0 ∷ []; maxdata = 160; maxoffs = 2 }

abbrev request : ℕ → ℕ → TransactionData
request code euid = record {
  target = 0;
  cookie = 0;
  code = code;
  flags = record { one_way = false; status_code = false; accept_fds = false; rest = 0 };
  sender_pid = 70;
  sender_euid = euid;
  data_size = 0;
  buffer = 0;
  offsets_size = 0;
  offsets = 0;
  first_word = no_error;
}

abbrev started : Manager
started = record { sehandle = 1; svclist = [] }

abbrev quiet : Environment
quiet = record { memory = some 1000; new_sehandle = none }

-- What binder_parse has for a reply.
abbrev reply_room : Room
reply_room = record {
  memory = replicate 128 0;
  offsets = 0 ∷ 0 ∷ 0 ∷ 0 ∷ [];
  maxdata = 256;
  maxoffs = 4;
}

-- The driver's tables: the adder's 5 is the manager's 9, which is the finder's 4.
abbrev adder : Translation
adder = record {
  target = λ h. if h == 5 then some (other 9) else none;
  exported = λ ptr cookie. none;
  remaining = λ obj. none;
}

abbrev finder : Translation
finder = record {
  target = λ h. if h == 9 then some (other 4) else none;
  exported = λ ptr cookie. none;
  remaining = λ obj. none;
}
