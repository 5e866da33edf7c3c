-- ===== src/IpcThreadState/Execute.antt =====
-- executeCommand, sendReply, waitForResponse and transact of native/IPCThreadState.cpp. The objects
-- of the process, and the proxies that get obituaries, are arguments: they may do anything to the
-- thread, call Binder again among it. Fuel counts the rounds of waitForResponse.
pub mod Identity
pub mod Commands
pub mod Wait
pub mod Outcome
pub mod Delivery
mod Tests
use learn_node.Base.{
  ℕ, zero, suc, ◌^◌, ◌-◌, Bool, true, false, not, ◌&&◌, Option, none, some, List, [], ◌∷◌, ◌++◌,
  ◌==◌, if◌then◌else◌,
}
use learn_node.Status.{
  Status, no_error, unknown_error, invalid_operation, dead_object, failed_transaction, timed_out,
  is_no_error, is_negative,
}
use learn_node.IpcThreadState.{
  Flags, no_flags, TransactionData, Command, bc_transaction, bc_reply, bc_acquire_result,
  bc_increfs_done, bc_acquire_done, bc_dead_binder_done, Message, br_error, br_ok, br_dead_reply,
  br_transaction_complete, br_noop, br_spawn_looper, br_finished, br_failed_reply, br_transaction,
  br_reply, br_acquire_result, br_increfs, br_acquire, br_release, br_decrefs, br_attempt_acquire,
  br_dead_binder, br_clear_death_notification_done, br_unknown, Outside, inc_strong, inc_weak,
  dec_weak, spawn_pooled_thread, set_priority_normal, set_sched_background, Thread, Run, done,
  blocked, out_of_fuel, ◌>>=◌, write, outwards, free_buffer, Parcel, write_transaction_data,
}
use learn_node.IpcThreadState.Driver.{talk_with_driver}

-- What the process answers: whether a weak reference can be made strong, what an object does with a
-- transaction (status, reply and thread), what `sendObituary` of a proxy does, the scheduling of
-- the thread, and the address of the status buffer of a reply.
pub record Process : Type 0 where
  pub attempt_inc_strong : ℕ → Bool
  pub serve : TransactionData → Thread → Run (Status × Parcel × Thread)
  pub send_obituary : ℕ → Thread → Run Thread
  pub disable_background_scheduling : Bool
  pub above_normal : Bool
  pub at_background : Bool
  pub status_buffer : ℕ

-- The handle -1 of a reply.
abbrev pub no_handle : ℕ
no_handle = 2 ^ 32 - 1

adjust_priority : Process → Thread → Thread
adjust_priority p s =
    if p.disable_background_scheduling
    then (if p.above_normal then outwards set_priority_normal s else s)
    else if p.at_background
    then outwards set_sched_background s
    else s

-- `if (error < NO_ERROR) reply.setError(error)`
reply_with : Status → Parcel → Parcel
reply_with error reply = if is_negative error then record reply { error = error } else reply

module _ (p : Process) (nested : Thread → Run (Status × Thread)) where
  after_write_reply : Status × Thread → Run (Status × Thread)
  after_write_reply (err, s) = if is_negative err then done (err, s) else nested s

  pub send_reply : Parcel → Flags → Thread → Run (Status × Thread)
  unfolding after_write_reply
  send_reply reply flags s =
      after_write_reply
        (write_transaction_data bc_reply flags no_handle 0 reply (some p.status_buffer) s)

  -- The thread works for the sender.
  pub take_identity : TransactionData → Thread → Thread
  unfolding adjust_priority
  take_identity td s = adjust_priority p (record s {
    calling_pid = td.sender_pid;
    calling_uid = td.sender_euid;
    last_flags = td.flags;
  })

  -- The reply, unless the call is one way; what `sendReply` returns is dropped.
  pub answer_transaction : TransactionData → Status × Parcel × Thread → Run Thread
  unfolding reply_with send_reply
  answer_transaction td (error, reply, s) =
      if td.flags.one_way
      then done s
      else send_reply (reply_with error reply) no_flags s >>= λ r. done r.1

  -- The identity of before, and the buffer that the incoming parcel frees when it goes.
  pub restore_identity : TransactionData → Thread → Thread → Thread
  restore_identity td before s = free_buffer true td.buffer (record s {
    calling_pid = before.calling_pid;
    calling_uid = before.calling_uid;
    strict_mode_policy = before.strict_mode_policy;
    last_flags = before.last_flags;
  })

  pub execute_transaction : TransactionData → Thread → Run Thread
  unfolding take_identity answer_transaction restore_identity
  execute_transaction td s = p.serve td (take_identity td s) >>= answer_transaction td >>= λ s'.
      done (restore_identity td s s')

  no_result : Thread → Run (Status × Thread)
  no_result s = done (no_error, s)

  -- The switch.
  pub command_result : Message → Thread → Run (Status × Thread)
  unfolding execute_transaction no_result
  command_result (br_error result) s = done (result, s)
  command_result br_ok s = no_result s
  command_result (br_acquire refs obj) s =
      no_result (write (bc_acquire_done refs obj) (outwards (inc_strong obj) s))
  command_result (br_release refs obj) s =
      no_result (record s { pending_strong = s.pending_strong ++ obj ∷ [] })
  command_result (br_increfs refs obj) s =
      no_result (write (bc_increfs_done refs obj) (outwards (inc_weak refs) s))
  command_result (br_decrefs refs obj) s =
      no_result (record s { pending_weak = s.pending_weak ++ refs ∷ [] })
  command_result (br_attempt_acquire refs obj) s =
      no_result (write (bc_acquire_result (p.attempt_inc_strong refs)) s)
  command_result (br_transaction td) s = execute_transaction td s >>= no_result
  command_result (br_dead_binder proxy) s =
      p.send_obituary proxy s >>= λ s'. no_result (write (bc_dead_binder_done proxy) s')
  command_result (br_clear_death_notification_done proxy) s =
      no_result (outwards (dec_weak proxy) s)
  command_result br_finished s = done (timed_out, s)
  command_result br_noop s = no_result s
  command_result br_spawn_looper s = no_result (outwards spawn_pooled_thread s)
  command_result br_dead_reply s = done (unknown_error, s)
  command_result br_transaction_complete s = done (unknown_error, s)
  command_result br_failed_reply s = done (unknown_error, s)
  command_result (br_reply td) s = done (unknown_error, s)
  command_result (br_acquire_result r) s = done (unknown_error, s)
  command_result (br_unknown cmd) s = done (unknown_error, s)

  note_result : Status × Thread → Run (Status × Thread)
  note_result (result, s) =
      done (result, if is_no_error result then s else record s { last_error = result })

  unfoldable pub execute_command : Message → Thread → Run (Status × Thread)
  unfolding command_result note_result
  execute_command m s = command_result m s >>= note_result

-- What becomes of the reply of a call.
pub data Reply : Type 0 where
  untouched : Reply
  data_reference : TransactionData → Reply
  error_set : Status → Reply

-- The result of a wait: `*acquireResult` where it was written.
pub record Waited : Type 0 where
  pub err : Status
  pub reply : Reply
  pub acquired : Option Status
  pub thread : Thread

-- The label `finish`, with whether the caller gave a reply and an acquireResult.
pub finish : Bool → Bool → Waited → Waited
finish has_reply has_acquire w = if is_no_error w.err then w else record {
  err = w.err;
  reply = if has_reply then error_set w.err else w.reply;
  acquired = if has_acquire then some w.err else w.acquired;
  thread = record w.thread { last_error = w.err };
}

plain : Status → Thread → Waited
plain err s = record { err = err; reply = untouched; acquired = none; thread = s }

-- BR_REPLY for a caller that wants it.
pub take_reply : TransactionData → Thread → Waited
unfolding plain
take_reply td s =
    if td.flags.status_code
    then plain td.first_word (free_buffer false td.buffer s)
    else record { err = no_error; reply = data_reference td; acquired = none; thread = s }

-- A round of waitForResponse: `again` is the rest of the loop, `nested` a wait inside a command.
module _ (p : Process) (nested : Thread → Run (Status × Thread)) (again : Thread → Run Waited)
    (has_reply has_acquire : Bool) where
  stop : Waited → Run Waited
  unfolding finish
  stop w = done (finish has_reply has_acquire w)

  after_execute : Status × Thread → Run Waited
  unfolding stop plain
  after_execute (err, s) = if is_no_error err then again s else stop (plain err s)

  acquire_result : Status → ℕ → Thread → Waited
  acquire_result err r s = record {
    err = err;
    reply = untouched;
    acquired = some (if r == 0 then invalid_operation else no_error);
    thread = s;
  }

  -- The switch of the loop; `err` is the status before it, which is not below zero.
  pub on_message : Status → Message → Thread → Run Waited
  unfolding after_execute acquire_result take_reply
  on_message err br_transaction_complete s =
      if not has_reply && not has_acquire then stop (plain err s) else again s
  on_message err br_dead_reply s = stop (plain dead_object s)
  on_message err br_failed_reply s = stop (plain failed_transaction s)
  on_message err (br_acquire_result r) s =
      if has_acquire then stop (acquire_result err r s) else again s
  on_message err (br_reply td) s =
      if has_reply then stop (take_reply td s) else again (free_buffer false td.buffer s)
  on_message err m s = execute_command p nested m s >>= after_execute

  on_input : Status → List Message → Thread → Run Waited
  unfolding on_message
  on_input err [] s = again s
  on_input err (m ∷ ms) s = on_message err m (record s { input = ms; taken = s.taken ++ m ∷ [] })

  pub round : Status × Thread → Run Waited
  unfolding on_input
  round (err, s) =
      if is_negative err
      then stop (plain err s)
      else if is_negative s.in_error
      then stop (plain s.in_error s)
      else on_input s.in_error s.input s

abbrev pub status_and_thread : Waited → Run (Status × Thread)
status_and_thread w = done (w.err, w.thread)

pub wait_for_response : ℕ → Process → Bool → Bool → Thread → Run Waited
unfolding round
wait_for_response zero p has_reply has_acquire s = out_of_fuel
wait_for_response (suc fuel) p has_reply has_acquire s =
    talk_with_driver true s
    >>= round p (λ t. wait_for_response fuel p false false t >>= status_and_thread)
        (λ t. wait_for_response fuel p has_reply has_acquire t) has_reply has_acquire

after_write_transaction : ℕ → Process → Flags → Status × Thread → Run Waited
after_write_transaction fuel p flags (err, s) =
    if is_no_error err
    then wait_for_response fuel p (not flags.one_way) false s
    else done (record {
      err = err;
      reply = error_set err;
      acquired = none;
      thread = record s { last_error = err };
    })

-- `transact`: the reply is asked for unless the call is one way; a caller that gives no reply has a
-- parcel made for it, which is dropped.
pub transact : ℕ → Process → ℕ → ℕ → Parcel → Flags → Thread → Run Waited
unfolding after_write_transaction
transact fuel p handle code parcel flags s = after_write_transaction fuel p flags (
    write_transaction_data bc_transaction (record flags { accept_fds = true }) handle code parcel
      none s)
