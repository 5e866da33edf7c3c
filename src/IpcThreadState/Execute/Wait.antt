-- ===== src/IpcThreadState/Execute/Wait.antt =====
-- The end of waitForResponse and of transact in native/IPCThreadState.cpp: each round of the loop
-- takes a message or an answer of the driver.
use learn_node.Base.{
  ℕ, zero, suc, ◌+◌, ◌≤◌, ◌<◌, ◌≡◌, refl, ◌≢◌, inl, inr, Bool, true, false, not, ◌&&◌, none, List,
  [], ◌∷◌, ◌++◌, Bool-cases, if◌then◌else◌, arith,
}
use learn_node.Status.{Status, dead_object, failed_transaction, is_no_error, is_negative}
use learn_node.IpcThreadState.{
  Flags, TransactionData, bc_transaction, Message, br_error, br_ok, br_dead_reply,
  br_transaction_complete, br_noop, br_spawn_looper, br_finished, br_failed_reply, br_transaction,
  br_reply, br_acquire_result, br_increfs, br_acquire, br_release, br_decrefs, br_attempt_acquire,
  br_dead_binder, br_clear_death_notification_done, br_unknown, Thread, Run, out_of_fuel, ◌>>=◌,
  is_nil, Parcel, free_buffer, write_transaction_data,
}
use learn_node.IpcThreadState.Driver.{talk_with_driver}
use learn_node.IpcThreadState.Driver.Rounds.{
  rounds, left, Within, Within-bind, Within-if, Within-weaken, Within-out_of_fuel, talk-Within,
}
use learn_node.IpcThreadState.Execute.Commands.{
  Tame, rounds_of, write-rounds, free_buffer-rounds, execute-Within,
}
use learn_node.IpcThreadState.Execute.{
  Process, execute_command, Waited, finish, plain, take_reply, stop, after_execute, acquire_result,
  on_message, on_input, round, wait_for_response, after_write_transaction, transact,
  status_and_thread,
}

-- The thread that a wait leaves.
abbrev pub rounds_left : Waited → ℕ
rounds_left w = rounds w.thread

module _ (p : Process) (tame : Tame p) (nested : Thread → Run (Status × Thread))
    (again : Thread → Run Waited) (has_reply has_acquire : Bool) (n : ℕ)
    (nested-Within : (t : Thread) → rounds t ≤ n → Within rounds_of n (nested t))
    (again-Within : (t : Thread) → rounds t ≤ n → Within rounds_left n (again t)) where
  stop-Within :
      (k : ℕ) (w : Waited)
      → rounds_left w ≤ k
      → Within rounds_left k (stop p nested again has_reply has_acquire w)
  unfolding stop finish
  stop-Within k w h = elim (Bool-cases (is_no_error w.err)) [
    | inl ok ↦ rw ok h
    | inr fails ↦ rw fails h
  ]

  plain-Within :
      (k : ℕ) (err : Status) (s : Thread)
      → rounds s ≤ k
      → Within rounds_left k (stop p nested again has_reply has_acquire (plain err s))
  unfolding plain
  plain-Within k err s h = stop-Within k (plain err s) h

  after_execute-Within :
      (r : Status × Thread)
      → rounds_of r ≤ n
      → Within rounds_left n (after_execute p nested again has_reply has_acquire r)
  unfolding after_execute
  after_execute-Within (err, s) h =
      Within-if rounds_left n (is_no_error err) _ _ (again-Within s h) (plain-Within n err s h)

  default-Within :
      (m : Message) (s : Thread)
      → rounds s ≤ n
      → Within rounds_left n
          (execute_command p nested m s >>= after_execute p nested again has_reply has_acquire)
  default-Within m s h =
      Within-bind rounds_of rounds_left n n (execute_command p nested m s) _
        (execute-Within p tame nested n nested-Within m s h) after_execute-Within

  replied-Within :
      (td : TransactionData) (s : Thread)
      → rounds s ≤ n
      → Within rounds_left n (stop p nested again has_reply has_acquire (take_reply td s))
  unfolding take_reply
  replied-Within td s h = stop-Within n (take_reply td s) take_reply-rounds
    where
      take_reply-rounds : rounds_left (take_reply td s) ≤ n
      take_reply-rounds = elim (Bool-cases td.flags.status_code) [
        | inl status ↦ rw status (rw (free_buffer-rounds false td.buffer s) h)
        | inr data_ ↦ rw data_ h
      ]

  message-Within :
      (err : Status) (m : Message) (s : Thread)
      → rounds s ≤ n
      → Within rounds_left n (on_message p nested again has_reply has_acquire err m s)
  unfolding on_message
  message-Within err (br_error result) s h = default-Within (br_error result) s h
  message-Within err br_ok s h = default-Within br_ok s h
  message-Within err br_dead_reply s h = plain-Within n dead_object s h
  message-Within err br_transaction_complete s h =
      Within-if rounds_left n (not has_reply && not has_acquire) _ _ (plain-Within n err s h)
        (again-Within s h)
  message-Within err br_noop s h = default-Within br_noop s h
  message-Within err br_spawn_looper s h = default-Within br_spawn_looper s h
  message-Within err br_finished s h = default-Within br_finished s h
  message-Within err br_failed_reply s h = plain-Within n failed_transaction s h
  message-Within err (br_transaction td) s h = default-Within (br_transaction td) s h
  message-Within err (br_reply td) s h =
      Within-if rounds_left n has_reply _ _ (replied-Within td s h)
        (again-Within (free_buffer false td.buffer s) (rw (free_buffer-rounds false td.buffer s) h))
  message-Within err (br_acquire_result r) s h =
      Within-if rounds_left n has_acquire _ _
        (stop-Within n (acquire_result p nested again has_reply has_acquire err r s) h)
        (again-Within s h)
  message-Within err (br_increfs refs obj) s h = default-Within (br_increfs refs obj) s h
  message-Within err (br_acquire refs obj) s h = default-Within (br_acquire refs obj) s h
  message-Within err (br_release refs obj) s h = default-Within (br_release refs obj) s h
  message-Within err (br_decrefs refs obj) s h = default-Within (br_decrefs refs obj) s h
  message-Within err (br_attempt_acquire refs obj) s h =
      default-Within (br_attempt_acquire refs obj) s h
  message-Within err (br_dead_binder proxy) s h = default-Within (br_dead_binder proxy) s h
  message-Within err (br_clear_death_notification_done proxy) s h =
      default-Within (br_clear_death_notification_done proxy) s h
  message-Within err (br_unknown cmd) s h = default-Within (br_unknown cmd) s h

  input-Within :
      (err : Status) (ms : List Message) (s : Thread)
      → s.input ≡ ms
      → rounds s + (if is_nil ms then 1 else 0) ≤ suc n
      → Within rounds_left n (on_input p nested again has_reply has_acquire err ms s)
  unfolding on_input
  input-Within err [] s e h = again-Within s (omega arith)
  input-Within err (m ∷ ms) s e h =
      message-Within err m (record s { input = ms; taken = s.taken ++ m ∷ [] }) (ground arith)

  pub round-Within :
      (r : Status × Thread)
      → left r ≤ suc n
      → Within rounds_left (suc n) (round p nested again has_reply has_acquire r)
  unfolding round
  round-Within (err, s) h = elim (Bool-cases (is_negative err)) [
    | inl fails ↦ rw fails (plain-Within (suc n) err s (omega arith))
    | inr works ↦ rw works (
        Within-if rounds_left (suc n) (is_negative s.in_error) _ _
          (plain-Within (suc n) s.in_error s (omega arith))
          (Within-weaken rounds_left n (suc n)
            (on_input p nested again has_reply has_acquire s.in_error s.input s) (omega arith)
            (input-Within s.in_error s.input s refl (ground arith))))
  ]

module _ (p : Process) (nested : Thread → Run (Status × Thread)) (again : Thread → Run Waited)
    (has_reply has_acquire : Bool) where
  -- Without a round left, the call of the driver has failed.
  spent-Within :
      (r : Status × Thread)
      → left r ≤ 0
      → Within rounds_left 0 (round p nested again has_reply has_acquire r)
  unfolding round stop finish plain
  spent-Within (err, s) h = elim (Bool-cases (is_negative err)) [
    | inl fails ↦ ground arith
    | inr works ↦ absurd (ground arith)
  ]

-- A wait with enough fuel.
abbrev pub Waits : ℕ → Process → Type 0
Waits fuel p =
    (n : ℕ) (has_reply has_acquire : Bool) (s : Thread)
    → rounds s ≤ n
    → n < fuel
    → Within rounds_left n (wait_for_response fuel p has_reply has_acquire s)

next-Within :
    (fuel n : ℕ) (p : Process) (has_reply has_acquire : Bool)
    → Tame p
    → Waits fuel p
    → n < suc fuel
    → (r : Status × Thread) → left r ≤ n
    → Within rounds_left n (
        round p
          (λ t. wait_for_response fuel p false false t >>= status_and_thread)
          (λ t. wait_for_response fuel p has_reply has_acquire t)
          has_reply
          has_acquire
          r)
next-Within fuel zero p has_reply has_acquire tame waits less r h =
    spent-Within p _ _ has_reply has_acquire r h
next-Within fuel (suc k) p has_reply has_acquire tame waits less r h =
    round-Within p tame _ _ has_reply has_acquire k
      (λ t b.
        Within-bind rounds_left rounds_of k k (wait_for_response fuel p false false t)
          status_and_thread (waits k false false t b (omega arith)) (λ w c. c))
      (λ t b. waits k has_reply has_acquire t b (omega arith)) r h

pub wait-Within : (fuel : ℕ) (p : Process) → Tame p → Waits fuel p
unfolding wait_for_response
wait-Within zero p tame n has_reply has_acquire s h less = absurd (omega arith)
wait-Within (suc fuel) p tame n has_reply has_acquire s h less =
    Within-bind left rounds_left n n (talk_with_driver true s) _
      (Within-weaken left (rounds s) n (talk_with_driver true s) h (talk-Within s))
      (next-Within fuel n p has_reply has_acquire tame (wait-Within fuel p tame) less)

written-Within :
    (fuel : ℕ) (p : Process) (flags : Flags) (r : Status × Thread)
    → Tame p
    → rounds_of r < fuel
    → Within rounds_left (rounds_of r) (after_write_transaction fuel p flags r)
unfolding after_write_transaction
written-Within fuel p flags (err, s) tame less =
    Within-if rounds_left (rounds s) (is_no_error err) _ _
      (wait-Within fuel p tame (rounds s) (not flags.one_way) false s (omega arith) less)
      (omega arith)

transact-Within :
    (fuel : ℕ) (p : Process) (handle code : ℕ) (parcel : Parcel) (flags : Flags) (s : Thread)
    → Tame p
    → rounds s < fuel
    → Within rounds_left (rounds s) (transact fuel p handle code parcel flags s)
unfolding transact
transact-Within fuel p handle code parcel flags s tame less =
    let r =
      write_transaction_data bc_transaction (record flags { accept_fds = true }) handle code parcel
        none s in
    let same : rounds_of r ≡ rounds s =
      write-rounds bc_transaction (record flags { accept_fds = true }) handle code parcel none s in
    Within-weaken rounds_left (rounds_of r) (rounds s) (after_write_transaction fuel p flags r)
      (omega arith) (written-Within fuel p flags r tame (omega arith))

-- A call of transact ends, or it waits for an answer that the driver never gives: one round for
-- each answer that the driver has still to give, for each message in those answers and for each
-- message that waits, and one more, are enough fuel, however transactions nest. The objects and the
-- proxies of the process have to end, and may not add to those rounds.
pub transact-terminates :
    (fuel : ℕ) (p : Process) (handle code : ℕ) (parcel : Parcel) (flags : Flags) (s : Thread)
    → Tame p
    → rounds s < fuel
    → transact fuel p handle code parcel flags s ≢ out_of_fuel
transact-terminates fuel p handle code parcel flags s tame less =
    Within-out_of_fuel rounds_left (rounds s) (transact fuel p handle code parcel flags s)
      (transact-Within fuel p handle code parcel flags s tame less)
