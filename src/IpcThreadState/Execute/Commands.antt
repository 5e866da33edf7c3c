-- ===== src/IpcThreadState/Execute/Commands.antt =====
-- What the commands that native/IPCThreadState.cpp executes leave of the answers of the driver and
-- of the messages that wait.
use learn_node.Base.{ℕ, ◌≤◌, ◌≡◌, Bool, true, Option, some, arith}
use learn_node.Status.{Status, is_negative}
use learn_node.IpcThreadState.{
  Flags, no_flags, TransactionData, Command, bc_reply, Message, br_error, br_ok, br_dead_reply,
  br_transaction_complete, br_noop, br_spawn_looper, br_finished, br_failed_reply, br_transaction,
  br_reply, br_acquire_result, br_increfs, br_acquire, br_release, br_decrefs, br_attempt_acquire,
  br_dead_binder, br_clear_death_notification_done, br_unknown, Thread, Run, ◌>>=◌, Parcel,
  free_buffer, write_transaction_data,
}
use learn_node.IpcThreadState.Driver.Rounds.{rounds, Within, Within-bind, Within-if, Within-weaken}
use learn_node.IpcThreadState.Execute.{
  Process, take_identity, restore_identity, execute_transaction, answer_transaction, reply_with,
  command_result, no_result, note_result, execute_command, adjust_priority, no_handle, send_reply,
  after_write_reply,
}

-- The thread that is left, by its rounds.
abbrev pub rounds_of : Status × Thread → ℕ
rounds_of (err, s) = rounds s

-- The objects of the process and its proxies end, and leave no more rounds than they were given.
pub record Tame (p : Process) : Type 0 where
  pub served :
      (td : TransactionData) (s : Thread) → Within (λ r. rounds r.2) (rounds s) (p.serve td s)
  pub notified : (proxy : ℕ) (s : Thread) → Within rounds (rounds s) (p.send_obituary proxy s)

pub write-rounds :
    (cmd : TransactionData → Command) (flags : Flags) (handle code : ℕ) (parcel : Parcel)
    (b : Option ℕ) (s : Thread)
    → rounds_of (write_transaction_data cmd flags handle code parcel b s) ≡ rounds s
unfolding write_transaction_data
write-rounds cmd flags handle code parcel b s = ground arith

pub free_buffer-rounds :
    (has_parcel : Bool) (buffer : ℕ) (s : Thread)
    → rounds (free_buffer has_parcel buffer s) ≡ rounds s
unfolding free_buffer
free_buffer-rounds has_parcel buffer s = ground arith

module _ (p : Process) (nested : Thread → Run (Status × Thread)) where
  take_identity-rounds :
      (td : TransactionData) (s : Thread) → rounds (take_identity p nested td s) ≡ rounds s
  unfolding take_identity adjust_priority
  take_identity-rounds td s = ground arith

  restore_identity-rounds :
      (td : TransactionData) (s t : Thread) → rounds (restore_identity p nested td s t) ≡ rounds t
  unfolding restore_identity
  restore_identity-rounds td s t = free_buffer-rounds true td.buffer _

module _ (p : Process) (tame : Tame p) (nested : Thread → Run (Status × Thread)) (n : ℕ)
    (nested-Within : (t : Thread) → rounds t ≤ n → Within rounds_of n (nested t)) where
  after_write-Within :
      (r : Status × Thread) → rounds_of r ≤ n → Within rounds_of n (after_write_reply p nested r)
  unfolding after_write_reply
  after_write-Within (err, s) h = Within-if rounds_of n (is_negative err) _ _ h (nested-Within s h)

  send_reply-Within :
      (reply : Parcel) (flags : Flags) (s : Thread)
      → rounds s ≤ n
      → Within rounds_of n (send_reply p nested reply flags s)
  unfolding send_reply
  send_reply-Within reply flags s h =
      after_write-Within
        (write_transaction_data bc_reply flags no_handle 0 reply (some p.status_buffer) s)
        (rw (write-rounds bc_reply flags no_handle 0 reply (some p.status_buffer) s) h)

  answer-Within :
      (td : TransactionData) (r : Status × Parcel × Thread)
      → rounds r.2 ≤ n
      → Within rounds n (answer_transaction p nested td r)
  unfolding answer_transaction
  answer-Within td (error, reply, s) h = Within-if rounds n td.flags.one_way _ _ h (
      Within-bind rounds_of rounds n n (send_reply p nested (reply_with error reply) no_flags s) _
        (send_reply-Within (reply_with error reply) no_flags s h) (λ r k. k))

  executed-Within :
      (td : TransactionData) (s : Thread)
      → rounds s ≤ n
      → Within rounds n (execute_transaction p nested td s)
  unfolding execute_transaction
  executed-Within td s h =
      Within-bind rounds rounds n n
        (p.serve td (take_identity p nested td s) >>= answer_transaction p nested td) _
        (Within-bind (λ r. rounds r.2) rounds n n (p.serve td (take_identity p nested td s)) _
          (Within-weaken (λ r. rounds r.2) _ n (p.serve td (take_identity p nested td s))
            (rw (take_identity-rounds p nested td s) h)
            (tame.served td (take_identity p nested td s)))
          (answer-Within td))
        (λ t k. rw (restore_identity-rounds p nested td s t) k)

  command-Within :
      (m : Message) (s : Thread) → rounds s ≤ n → Within rounds_of n (command_result p nested m s)
  unfolding command_result no_result
  command-Within (br_error result) s h = h
  command-Within br_ok s h = h
  command-Within br_dead_reply s h = h
  command-Within br_transaction_complete s h = h
  command-Within br_noop s h = h
  command-Within br_spawn_looper s h = h
  command-Within br_finished s h = h
  command-Within br_failed_reply s h = h
  command-Within (br_transaction td) s h =
      Within-bind rounds rounds_of n n (execute_transaction p nested td s) _
        (executed-Within td s h) (λ t k. k)
  command-Within (br_reply td) s h = h
  command-Within (br_acquire_result r) s h = h
  command-Within (br_increfs refs obj) s h = h
  command-Within (br_acquire refs obj) s h = h
  command-Within (br_release refs obj) s h = h
  command-Within (br_decrefs refs obj) s h = h
  command-Within (br_attempt_acquire refs obj) s h = h
  command-Within (br_dead_binder proxy) s h =
      Within-bind rounds rounds_of n n (p.send_obituary proxy s) _
        (Within-weaken rounds _ n (p.send_obituary proxy s) h (tame.notified proxy s)) (λ t k. k)
  command-Within (br_clear_death_notification_done proxy) s h = h
  command-Within (br_unknown cmd) s h = h

  pub execute-Within :
      (m : Message) (s : Thread) → rounds s ≤ n → Within rounds_of n (execute_command p nested m s)
  unfolding execute_command note_result
  execute-Within m s h =
      Within-bind rounds_of rounds_of n n (command_result p nested m s) _ (command-Within m s h)
        (λ r k. ground arith)
