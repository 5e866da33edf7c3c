-- ===== src/IpcThreadState/Looper/Tests.antt =====
-- The theorems on joinThreadPool of native/IPCThreadState.cpp at a concrete thread.
use learn_node.Base.{◌≡◌, refl, ◌≢◌, true, false, [], ◌∷◌, arith}
use learn_node.Status.{no_error, timed_out, unknown_error}
use learn_node.IpcThreadState.{
  no_flags, br_noop, br_finished, bc_register_looper, bc_exit_looper, set_sched_foreground, Thread,
  done, out_of_fuel, Parcel,
}
use learn_node.IpcThreadState.Driver.{talk_with_driver}
use learn_node.IpcThreadState.Execute.{Process, execute_command}
use learn_node.IpcThreadState.Execute.Commands.{Tame}
use learn_node.IpcThreadState.Looper.{left_pool, join_thread_pool, handle_polled_commands}
use learn_node.IpcThreadState.Looper.Polled.{handle_polled_commands-spins}
use learn_node.IpcThreadState.Looper.Leave.{Allowed, join_thread_pool-Allowed}
use learn_node.IpcThreadState.Looper.Rounds.{join_thread_pool-terminates}

abbrev parcel : Parcel
parcel = record {
  error = no_error;
  ipc_data_size = 0;
  ipc_data = 0;
  ipc_objects_count = 0;
  ipc_objects = 0;
  word = no_error;
}

abbrev process : Process
process = record {
  attempt_inc_strong = λ refs. true;
  serve = λ td s. done (unknown_error, parcel, s);
  send_obituary = λ proxy s. done s;
  disable_background_scheduling = false;
  above_normal = false;
  at_background = false;
  status_buffer = 8192;
}

process-Tame : Tame process
process-Tame = record { served = λ td s. omega arith; notified = λ proxy s. omega arith }

-- The driver takes the registration, ends the thread after a moment, and takes its last command.
abbrev spawned : Thread
spawned = record {
  out = [];
  input = [];
  in_error = no_error;
  pending_strong = [];
  pending_weak = [];
  last_error = no_error;
  calling_pid = 1;
  calling_uid = 2;
  strict_mode_policy = 0;
  last_flags = no_flags;
  driver_open = true;
  answers =
      record {
        result = no_error;
        fd_closed = false;
        consumed = 1;
        received = br_noop ∷ br_finished ∷ [];
      }
      ∷ record { result = no_error; fd_closed = false; consumed = 1; received = [] }
      ∷ [];
  sent = [];
  taken = [];
  outside = [];
}

abbrev left_thread : Thread
left_thread = record spawned {
  answers = [];
  last_error = timed_out;
  sent = bc_register_looper ∷ bc_exit_looper ∷ [];
  outside = set_sched_foreground ∷ set_sched_foreground ∷ set_sched_foreground ∷ [];
}

leaves : join_thread_pool 6 process false spawned ≡ done (left_pool timed_out left_thread)
unfolding join_thread_pool talk_with_driver execute_command
leaves = refl

join_thread_pool-Allowed_example : Allowed false (left_pool timed_out left_thread)
join_thread_pool-Allowed_example =
    join_thread_pool-Allowed 6 process false spawned (left_pool timed_out left_thread) leaves

join_thread_pool-terminates_example : join_thread_pool 6 process false spawned ≢ out_of_fuel
join_thread_pool-terminates_example =
    join_thread_pool-terminates 6 process false spawned process-Tame (omega arith)

abbrev cut_off : Thread
cut_off = record spawned { driver_open = false; input = br_noop ∷ [] }

handle_polled_commands-spins_example : handle_polled_commands 1000 process cut_off ≡ out_of_fuel
handle_polled_commands-spins_example = handle_polled_commands-spins 1000 process cut_off refl refl
