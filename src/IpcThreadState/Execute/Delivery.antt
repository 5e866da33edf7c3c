-- ===== src/IpcThreadState/Execute/Delivery.antt =====
-- How a reply reaches its caller through the loop of waitForResponse in native/IPCThreadState.cpp.
use learn_node.Base.{
  ℕ, zero, suc, ◌<◌, ◌≡◌, refl, ap, ◌∙◌, both-true, Bool, true, false, ◌&&◌, List, [], ◌∷◌, ◌++◌,
  length, arith, none,
}
use learn_node.Status.{Status, no_error, is_negative}
use learn_node.IpcThreadState.{
  TransactionData, Message, br_error, br_ok, br_dead_reply, br_transaction_complete, br_noop,
  br_spawn_looper, br_finished, br_failed_reply, br_transaction, br_reply, br_acquire_result,
  br_increfs, br_acquire, br_release, br_decrefs, br_attempt_acquire, br_dead_binder,
  br_clear_death_notification_done, br_unknown, Thread, Run, done, ◌>>=◌, is_nil,
}
use learn_node.IpcThreadState.Driver.{talk_with_driver-unread}
use learn_node.IpcThreadState.Execute.{
  Process, command_result, no_result, note_result, execute_command, data_reference, Waited, finish,
  take_reply, stop, after_execute, on_message, on_input, round, wait_for_response,
  status_and_thread,
}

-- The messages that neither end a wait for a reply nor call an object or a proxy.
abbrev pub is_quiet : Message → Bool
is_quiet br_ok = true
is_quiet br_transaction_complete = true
is_quiet br_noop = true
is_quiet br_spawn_looper = true
is_quiet (br_acquire_result r) = true
is_quiet (br_increfs refs obj) = true
is_quiet (br_acquire refs obj) = true
is_quiet (br_release refs obj) = true
is_quiet (br_decrefs refs obj) = true
is_quiet (br_attempt_acquire refs obj) = true
is_quiet (br_clear_death_notification_done proxy) = true
is_quiet _ = false

abbrev pub all_quiet : List Message → Bool
all_quiet [] = true
all_quiet (m ∷ ms) = is_quiet m && all_quiet ms

-- The thread is connected, and `ms` waits.
pub record Reads (ms : List Message) (s : Thread) : Type 0 where
  pub reads : s.input ≡ ms
  pub connected : s.driver_open ≡ true
  pub sound : is_negative s.in_error ≡ false

-- What a quiet message leaves of a thread.
abbrev Undisturbed : Thread → Thread → Type 0
Undisturbed s s' =
    (s'.input ≡ s.input)
    × (s'.driver_open ≡ s.driver_open)
    × (s'.in_error ≡ s.in_error)
    × (s'.sent ≡ s.sent)

module _ (p : Process) (nested : Thread → Run (Status × Thread)) (again : Thread → Run Waited) where
  quiet-again :
      (err : Status) (m : Message) (s : Thread)
      → is_quiet m ≡ true
      → (s' : Thread) × (on_message p nested again true false err m s ≡ again s') × Undisturbed s s'
  unfolding on_message execute_command command_result note_result no_result after_execute
  quiet-again err br_ok s q = (_, refl, (refl, refl, refl, refl))
  quiet-again err br_transaction_complete s q = (_, refl, (refl, refl, refl, refl))
  quiet-again err br_noop s q = (_, refl, (refl, refl, refl, refl))
  quiet-again err br_spawn_looper s q = (_, refl, (refl, refl, refl, refl))
  quiet-again err (br_acquire_result r) s q = (_, refl, (refl, refl, refl, refl))
  quiet-again err (br_increfs refs obj) s q = (_, refl, (refl, refl, refl, refl))
  quiet-again err (br_acquire refs obj) s q = (_, refl, (refl, refl, refl, refl))
  quiet-again err (br_release refs obj) s q = (_, refl, (refl, refl, refl, refl))
  quiet-again err (br_decrefs refs obj) s q = (_, refl, (refl, refl, refl, refl))
  quiet-again err (br_attempt_acquire refs obj) s q = (_, refl, (refl, refl, refl, refl))
  quiet-again err (br_clear_death_notification_done proxy) s q = (_, refl, (refl, refl, refl, refl))
  quiet-again err (br_error result) s q = absurd (cc)
  quiet-again err br_dead_reply s q = absurd (cc)
  quiet-again err br_finished s q = absurd (cc)
  quiet-again err br_failed_reply s q = absurd (cc)
  quiet-again err (br_transaction td) s q = absurd (cc)
  quiet-again err (br_reply td) s q = absurd (cc)
  quiet-again err (br_dead_binder proxy) s q = absurd (cc)
  quiet-again err (br_unknown cmd) s q = absurd (cc)

  round-message :
      (m : Message) (ms : List Message) (s : Thread)
      → Reads (m ∷ ms) s
      → round p nested again true false (no_error, s)
        ≡ on_message p nested again true false s.in_error m
            (record s { input = ms; taken = s.taken ++ m ∷ [] })
  unfolding round on_input
  round-message m ms s r = simp (r.sound, r.reads) refl

  round-reply :
      (td : TransactionData) (s : Thread)
      → td.flags.status_code ≡ false
      → on_message p nested again true false s.in_error (br_reply td) s
        ≡ done (record { err = no_error; reply = data_reference td; acquired = none; thread = s })
  unfolding on_message stop take_reply finish
  round-reply td s e = simp e refl

abbrev Delivers : TransactionData → List Message → Thread → Run Waited → Type 0
Delivers td rest s m =
    (s' : Thread) × (m
      ≡ done (record { err = no_error; reply = data_reference td; acquired = none; thread = s' }))
    × (s'.input ≡ rest)
    × (s'.sent ≡ s.sent)

-- The waits inside a command, and the rest of the loop.
abbrev inner : ℕ → Process → Thread → Run (Status × Thread)
inner fuel p t = wait_for_response fuel p false false t >>= status_and_thread

abbrev outer : ℕ → Process → Thread → Run Waited
outer fuel p t = wait_for_response fuel p true false t

unread : (ms : List Message) (m : Message) (s : Thread) → s.input ≡ m ∷ ms → is_nil s.input ≡ false
unread ms m s e = rw e refl

wait-Delivers :
    (noise : List Message) (fuel : ℕ) (p : Process) (td : TransactionData) (rest : List Message)
    (s : Thread)
    → td.flags.status_code ≡ false
    → all_quiet noise ≡ true
    → length noise < fuel
    → Reads (noise ++ br_reply td ∷ rest) s
    → Delivers td rest s (wait_for_response fuel p true false s)
unfolding wait_for_response
wait-Delivers noise zero p td rest s e quiet less r = absurd (omega arith)
wait-Delivers [] (suc fuel) p td rest s e quiet less r = (
  record s { input = rest; taken = s.taken ++ br_reply td ∷ [] },
  rw (talk_with_driver-unread s r.connected (unread rest (br_reply td) s r.reads)) (
      round-message p (inner fuel p) (outer fuel p) (br_reply td) rest s r
      ∙ round-reply p (inner fuel p) (outer fuel p) td
          (record s { input = rest; taken = s.taken ++ br_reply td ∷ [] }) e),
  refl,
  refl,
)
wait-Delivers (m ∷ noise) (suc fuel) p td rest s e quiet less r =
    let (quiet_m, quiet_noise) = both-true (is_quiet m) (all_quiet noise) quiet in
    let (s₁, again, (same_input, same_open, same_error, same_sent)) =
      quiet-again p (inner fuel p) (outer fuel p) s.in_error m
        (record s { input = noise ++ br_reply td ∷ rest; taken = s.taken ++ m ∷ [] }) quiet_m in
    let (s₂, ends, read, sent) =
      wait-Delivers noise fuel p td rest s₁ e quiet_noise (omega arith) (record {
        reads = same_input;
        connected = same_open ∙ r.connected;
        sound = ap is_negative same_error ∙ r.sound;
      }) in
    (
      s₂,
      rw (talk_with_driver-unread s r.connected (unread _ m s r.reads))
          (round-message p (inner fuel p) (outer fuel p) m _ s r ∙ again ∙ ends),
      read,
      sent ∙ same_sent,
    )

-- A wait for a reply takes no notice of what the driver says meanwhile of references, of the thread
-- pool and of the commands that it has taken: where only such messages stand before a BR_REPLY with
-- data, one round for each of them and one more give that reply, without a call of the driver, and
-- leave what stands behind it to be read.
pub wait_for_response-delivers :
    (noise : List Message) (fuel : ℕ) (p : Process) (td : TransactionData) (rest : List Message)
    (s : Thread)
    → td.flags.status_code ≡ false
    → all_quiet noise ≡ true
    → length noise < fuel
    → Reads (noise ++ br_reply td ∷ rest) s
    → (s' : Thread) × (wait_for_response fuel p true false s
        ≡ done (record { err = no_error; reply = data_reference td; acquired = none; thread = s' }))
      × (s'.input ≡ rest)
      × (s'.sent ≡ s.sent)
wait_for_response-delivers noise fuel p td rest s e quiet less r =
    wait-Delivers noise fuel p td rest s e quiet less r
