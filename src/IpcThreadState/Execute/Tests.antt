-- ===== src/IpcThreadState/Execute/Tests.antt =====
-- The theorems on the execution of commands and on transact of native/IPCThreadState.cpp at a
-- concrete process and thread.
use learn_node.Base.{◌≡◌, refl, ◌≢◌, ◌⊎◌, true, false, none, List, [], ◌∷◌, ◌++◌, arith}
use learn_node.Status.{Status, no_error, bad_value, is_no_error}
use learn_node.IpcThreadState.{
  no_flags, TransactionData, Command, bc_transaction, bc_free_buffer, Message, br_noop,
  br_transaction, br_transaction_complete, br_reply, br_increfs, Thread, Run,
  close_file_descriptors, done, out_of_fuel, free_buffer, write_transaction_data, Parcel,
}
use learn_node.IpcThreadState.Driver.{talk_with_driver}
use learn_node.IpcThreadState.Execute.{
  Process, execute_command, untouched, data_reference, error_set, Waited, wait_for_response,
  transact,
}
use learn_node.IpcThreadState.Execute.Identity.{execute_command-identity}
use learn_node.IpcThreadState.Execute.Commands.{Tame}
use learn_node.IpcThreadState.Execute.Wait.{transact-terminates}
use learn_node.IpcThreadState.Execute.Outcome.{transact-outcome}
use learn_node.IpcThreadState.Execute.Delivery.{wait_for_response-delivers}

abbrev parcel : Parcel
parcel = record {
  error = no_error;
  ipc_data_size = 16;
  ipc_data = 4096;
  ipc_objects_count = 0;
  ipc_objects = 0;
  word = no_error;
}

-- An object that refuses everything, and changes the policy of the thread.
abbrev process : Process
process = record {
  attempt_inc_strong = λ refs. true;
  serve = λ td s. done (bad_value, parcel, record s { strict_mode_policy = 77 });
  send_obituary = λ proxy s. done s;
  disable_background_scheduling = false;
  above_normal = false;
  at_background = false;
  status_buffer = 8192;
}

process-Tame : Tame process
process-Tame = record { served = λ td s. omega arith; notified = λ proxy s. omega arith }

abbrev answered : TransactionData
answered = record {
  target = 0;
  cookie = 0;
  code = 0;
  flags = no_flags;
  sender_pid = 500;
  sender_euid = 1000;
  data_size = 4;
  buffer = 65536;
  offsets_size = 0;
  offsets = 0;
  first_word = no_error;
}

abbrev one_way_call : TransactionData
one_way_call = record answered { flags = record no_flags { one_way = true } }

abbrev caller : Thread
caller = record {
  out = [];
  input = [];
  in_error = no_error;
  pending_strong = [];
  pending_weak = [];
  last_error = no_error;
  calling_pid = 1;
  calling_uid = 2;
  strict_mode_policy = 3;
  last_flags = no_flags;
  driver_open = true;
  answers =
      record {
        result = no_error;
        fd_closed = false;
        consumed = 1;
        received = br_noop ∷ br_transaction_complete ∷ [];
      }
      ∷ record {
        result = no_error;
        fd_closed = false;
        consumed = 0;
        received = br_reply answered ∷ [];
      }
      ∷ [];
  sent = [];
  taken = [];
  outside = [];
}

abbrev no_nested : Thread → Run (Status × Thread)
no_nested s = out_of_fuel

abbrev served : Thread
served = record caller { out = bc_free_buffer 65536 ∷ []; outside = close_file_descriptors ∷ [] }

serves :
    execute_command process no_nested (br_transaction one_way_call) caller ≡ done (no_error, served)
unfolding execute_command free_buffer
serves = refl

execute_command-identity_example :
    (no_error ≡ no_error)
    × (served.calling_pid ≡ 1)
    × (served.calling_uid ≡ 2)
    × (served.strict_mode_policy ≡ 3)
    × (served.last_flags ≡ no_flags)
    × (out : List Command) × (served.out ≡ out ++ bc_free_buffer 65536 ∷ [])
execute_command-identity_example =
    execute_command-identity process no_nested one_way_call caller served no_error serves

transact-terminates_example : transact 6 process 7 1 parcel no_flags caller ≢ out_of_fuel
transact-terminates_example =
    transact-terminates 6 process 7 1 parcel no_flags caller process-Tame (omega arith)

abbrev sent_call : TransactionData
sent_call = record {
  target = 7;
  cookie = 0;
  code = 1;
  flags = record no_flags { accept_fds = true };
  sender_pid = 0;
  sender_euid = 0;
  data_size = 16;
  buffer = 4096;
  offsets_size = 0;
  offsets = 0;
  first_word = no_error;
}

abbrev replied : Waited
replied = record {
  err = no_error;
  reply = data_reference answered;
  acquired = none;
  thread = record caller {
    answers = [];
    sent = bc_transaction sent_call ∷ [];
    taken = br_noop ∷ br_transaction_complete ∷ br_reply answered ∷ [];
  };
}

replies : transact 6 process 7 1 parcel no_flags caller ≡ done replied
unfolding transact talk_with_driver write_transaction_data wait_for_response execute_command
replies = refl

transact-outcome_example :
    ((no_error ≡ no_error)
      × (td : TransactionData) × (data_reference answered ≡ data_reference td)
      × (td.flags.status_code ≡ false)
      × ((earlier : List Message) × (replied.thread.taken ≡ earlier ++ br_reply td ∷ [])))
    ⊎ ((no_error ≡ no_error)
        × (data_reference answered ≡ untouched)
        × (td : TransactionData) × (out : List Command) × (td.flags.status_code ≡ true)
        × (td.first_word ≡ no_error)
        × (replied.thread.out ≡ out ++ bc_free_buffer td.buffer ∷ [])
        × ((earlier : List Message) × (replied.thread.taken ≡ earlier ++ br_reply td ∷ [])))
    ⊎ ((is_no_error no_error ≡ false)
        × (data_reference answered ≡ error_set no_error)
        × (replied.thread.last_error ≡ no_error))
transact-outcome_example =
    transact-outcome 6 process 7 1 parcel no_flags caller replied refl replies

abbrev noise : List Message
noise = br_noop ∷ br_increfs 3 4 ∷ br_transaction_complete ∷ []

abbrev reader : Thread
reader = record caller {
  input = br_noop ∷ br_increfs 3 4 ∷ br_transaction_complete ∷ br_reply answered ∷ br_noop ∷ [];
}

wait_for_response-delivers_example :
    (s' : Thread) × (wait_for_response 4 process true false reader
      ≡ done (record {
        err = no_error;
        reply = data_reference answered;
        acquired = none;
        thread = s';
      }))
    × (s'.input ≡ br_noop ∷ [])
    × (s'.sent ≡ [])
wait_for_response-delivers_example =
    wait_for_response-delivers noise 4 process answered (br_noop ∷ []) reader refl refl
      (omega arith) (record { reads = refl; connected = refl; sound = refl })
