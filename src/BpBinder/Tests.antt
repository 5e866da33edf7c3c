-- ===== src/BpBinder/Tests.antt =====
-- Tests of the model of native/BpBinder.cpp, and its theorems at concrete proxies.
use learn_node.Base.{
  ℕ, ◌≡◌, refl, Bool, true, false, if◌then◌else◌, is_some, none, some, List, [], ◌∷◌, ◌++◌, ◌+◌,
  arith,
}
use learn_node.Status.{Status, no_error, dead_object}
use learn_node.IpcCall.{clear_death_notification, flush_commands}
use learn_node.BpBinder.{
  BpBinder, Obituary, ipc, binder_died, Memory, new_proxy, link_to_death, unlink_to_death,
  send_obituary, take_first, matches, obituary_list, death_calls, report_deaths, destroy,
}
use learn_node.BpBinder.Objects.{
  Entry, ObjectManager, Distinct, attach, detach, find, attach-detach_map,
}
use learn_node.BpBinder.Transact.{Reader, Ipc, user, ping_transaction, transact, transact_dead}
use learn_node.BpBinder.DeathDriver.{
  Operation, link, unlink, obituary, run, watch, registered, life-death_command,
}
use learn_node.BpBinder.Obituaries.{
  Turn, links, begins, locks, turns, fresh, count, recipients, unlink_to_death-link_to_death,
  send_obituary_final, turns-reported_once,
}

abbrev proxy : BpBinder
proxy = (new_proxy 100 7).0

abbrev observer : Obituary
observer = record { recipient = 42; cookie = 0; flags = 0 }

abbrev watcher : Obituary
watcher = record { recipient = 43; cookie = 5; flags = 1 }

abbrev plenty : Memory
plenty = record { vector = true; add = no_error }

abbrev watched : BpBinder
watched = record proxy { obituaries = some (watcher ∷ []) }

watched-proxy : proxy.obituaries ≡ none
unfolding new_proxy
watched-proxy = refl

abbrev all_live : ℕ → Bool
all_live r = true

abbrev none_live : ℕ → Bool
none_live r = false

obituary_of_watched :
    (send_obituary all_live watched).1
    ≡ ipc (clear_death_notification 7 100) ∷ ipc flush_commands ∷ binder_died 43 ∷ []
unfolding new_proxy send_obituary
obituary_of_watched = refl

life : List Operation
life =
    link plenty observer
    ∷ link plenty watcher
    ∷ unlink 42 0 0
    ∷ obituary all_live
    ∷ link plenty observer
    ∷ []

life-death_command_example :
    let (p, made) = new_proxy 100 7 in
    let (q, es) = run p life in
    (watch 7 none (made ++ es) ≡ some (registered q))
    × (watch 7 none ((made ++ es) ++ destroy true q) ≡ some none)
life-death_command_example = life-death_command 100 7 life

race : List Turn
race = links plenty observer ∷ begins ∷ begins ∷ links plenty watcher ∷ locks ∷ locks ∷ []

turns-reported_once_example :
    let w = turns (fresh 100 7) race in
    (count 43 w.linked
      ≡ count 43 (recipients (obituary_list w.proxy.obituaries))
        + count 43 w.unlinked
        + count 43 w.taken)
    × (w.proxy.obits_sent ≡ true → count 43 w.linked ≡ count 43 w.unlinked + count 43 w.taken)
turns-reported_once_example = turns-reported_once 100 7 43 race

unlink_to_death-link_to_death_example :
    (q : BpBinder) × (link_to_death plenty observer watched ≡ some (no_error, q, []))
    × (unlink_to_death 42 0 0 q ≡ (no_error, some 42, watched, []))
unfolding new_proxy take_first matches
unlink_to_death-link_to_death_example =
    unlink_to_death-link_to_death plenty observer watched (λ e. ground arith) refl (λ e. cc) refl
      refl refl

send_obituary_final_example :
    let (q, es) = send_obituary all_live watched in
    (send_obituary none_live q ≡ (q, []))
    × (link_to_death plenty observer q ≡ some (dead_object, q, []))
    × (unlink_to_death 43 5 1 q ≡ (dead_object, none, q, []))
    × (q.alive ≡ false)
    × (es ≡ (
        if watched.obits_sent
        then []
        else (if is_some watched.obituaries
            then death_calls clear_death_notification watched
            else [])
          ++ report_deaths all_live (obituary_list watched.obituaries)))
send_obituary_final_example =
    send_obituary_final all_live none_live plenty observer 43 5 1 watched (λ e. ground arith)

abbrev reader : Reader Status
reader = record {
  data_size = λ r. 4;
  read_status = λ r. r;
  read_string16 = λ r. [];
  empty = no_error;
}

abbrev dying : Ipc Status
dying h code items flags = (dead_object, no_error)

abbrev answering : Ipc Status
answering h code items flags = (no_error, no_error)

transact_dead_example :
    let q = (transact reader dying (user 1) [] 0 watched).2 in
    (q.alive ≡ false)
    × (transact reader answering ping_transaction [] 0 q ≡ (dead_object, no_error, q))
unfolding transact new_proxy
transact_dead_example =
    transact_dead reader dying answering (user 1) ping_transaction [] [] 0 0 watched refl

abbrev surface : Entry
surface = record { object = 9; cleanup_cookie = 1; func = 77 }

abbrev attached : ObjectManager
attached = (3, surface) ∷ []

attach-detach_map_example :
    Distinct (attach 4 surface attached)
    × Distinct (detach 4 attached)
    × (find 4 (attach 4 surface attached) ≡ 9)
    × (find 4 (detach 4 attached) ≡ 0)
attach-detach_map_example = attach-detach_map 4 4 surface attached (refl, tt)
