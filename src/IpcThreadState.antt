-- ===== src/IpcThreadState.antt =====
-- native/IPCThreadState.cpp: what each thread keeps for Binder, and what goes between it and the
-- driver. The output buffer is the list of the commands written into it, each with its operands,
-- and the input buffer the list of the driver's messages that are still to be read. A pointer is
-- its address, and a null pointer is 0.
pub mod Driver
pub mod Execute
pub mod Looper
use mathlib.Core.Path.{subst}
use learn_node.Base.{
  ℕ, ◌+◌, ◌*◌, ◌≡◌, Bool, true, false, not, ◌&&◌, ◌||◌, Option, none, some, List, [], ◌∷◌, ◌++◌,
  ◌==◌, if◌then◌else◌,
}
use learn_node.Status.{Status, no_error, invalid_operation, is_no_error, is_negative}

-- The flags of a transaction: the bits that the source names, and the rest of the word.
pub record Flags : Type 0 where
  pub one_way : Bool
  pub status_code : Bool
  pub accept_fds : Bool
  pub rest : ℕ

abbrev pub no_flags : Flags
no_flags = record { one_way = false; status_code = false; accept_fds = false; rest = 0 }

-- binder_transaction_data. `first_word` is what a read of a status_t at `buffer` gives.
pub record TransactionData : Type 0 where
  pub target : ℕ
  pub cookie : ℕ
  pub code : ℕ
  pub flags : Flags
  pub sender_pid : ℕ
  pub sender_euid : ℕ
  pub data_size : ℕ
  pub buffer : ℕ
  pub offsets_size : ℕ
  pub offsets : ℕ
  pub first_word : Status

pub data Command : Type 0 where
  bc_transaction bc_reply : TransactionData → Command
  bc_acquire_result : Bool → Command
  bc_free_buffer : ℕ → Command
  bc_increfs bc_acquire bc_release bc_decrefs : ℕ → Command
  bc_increfs_done bc_acquire_done : ℕ → ℕ → Command
  bc_attempt_acquire : ℕ → ℕ → Command
  bc_register_looper bc_enter_looper bc_exit_looper : Command
  bc_request_death_notification bc_clear_death_notification : ℕ → ℕ → Command
  bc_dead_binder_done : ℕ → Command

pub data Message : Type 0 where
  br_error : Status → Message
  br_ok br_dead_reply br_transaction_complete br_noop br_spawn_looper br_finished : Message
  br_failed_reply : Message
  br_transaction br_reply : TransactionData → Message
  br_acquire_result : ℕ → Message
  br_increfs br_acquire br_release br_decrefs br_attempt_acquire : ℕ → ℕ → Message
  br_dead_binder br_clear_death_notification_done : ℕ → Message
  br_unknown : ℕ → Message

-- What the thread does outside Binder, in order.
pub data Outside : Type 0 where
  inc_strong dec_strong inc_weak dec_weak : ℕ → Outside
  spawn_pooled_thread set_priority_normal set_sched_background set_sched_foreground : Outside
  close_file_descriptors : Outside

-- One answer of the driver to an ioctl: its status, whether the descriptor was closed meanwhile,
-- how many commands it took, and what it wrote into the input buffer.
pub record Answer : Type 0 where
  pub result : Status
  pub fd_closed : Bool
  pub consumed : ℕ
  pub received : List Message

-- `answers` is what the driver will say to the ioctls to come, and `sent` all commands that it has
-- taken, `taken` the messages that waitForResponse has read; the program reads none of them but
-- what the driver writes to it.
pub record Thread : Type 0 where
  pub out : List Command
  pub input : List Message
  pub in_error : Status
  pub pending_strong : List ℕ
  pub pending_weak : List ℕ
  pub last_error : Status
  pub calling_pid : ℕ
  pub calling_uid : ℕ
  pub strict_mode_policy : ℕ
  pub last_flags : Flags
  pub driver_open : Bool
  pub answers : List Answer
  pub sent : List Command
  pub taken : List Message
  pub outside : List Outside

-- A run ends, waits for an answer that never comes, or uses up its fuel.
pub data Run (A : Type 0) : Type 0 where
  done : A → Run A
  blocked out_of_fuel : Run A

infixl 5 ◌>>=◌
abbrev pub ◌>>=◌ : {A B : Type 0} → Run A → (A → Run B) → Run B
done a >>= f = f a
blocked >>= f = blocked
out_of_fuel >>= f = out_of_fuel

-- What holds of the value of a run that ends.
abbrev pub Ends {κ} : {A : Type 0} → (A → Type κ) → Run A → Type κ
Ends P (done a) = P a
Ends P blocked = Unit
Ends P out_of_fuel = Unit

pub Ends-done {κ} : {A : Type 0} (P : A → Type κ) (m : Run A) {a : A} → Ends P m → m ≡ done a → P a
Ends-done P (done b) h e = subst P (cc) h
Ends-done P blocked h e = cc
Ends-done P out_of_fuel h e = cc

pub Ends-bind {κ} :
    {A B : Type 0} (P : B → Type κ) (m : Run A) (f : A → Run B)
    → ((a : A) → Ends P (f a))
    → Ends P (m >>= f)
Ends-bind P (done a) f h = h a
Ends-bind P blocked f h = tt
Ends-bind P out_of_fuel f h = tt

pub Ends-if {κ} :
    {A : Type 0} (P : A → Type κ) (b : Bool) (m k : Run A)
    → Ends P m
    → Ends P k
    → Ends P (if b then m else k)
Ends-if P true m k h g = h
Ends-if P false m k h g = g

abbrev pub write : Command → Thread → Thread
write c s = record s { out = s.out ++ c ∷ [] }

abbrev pub outwards : Outside → Thread → Thread
outwards e s = record s { outside = s.outside ++ e ∷ [] }

pub inc_strong_handle : ℕ → Thread → Thread
inc_strong_handle handle = write (bc_acquire handle)

pub dec_strong_handle : ℕ → Thread → Thread
dec_strong_handle handle = write (bc_release handle)

pub inc_weak_handle : ℕ → Thread → Thread
inc_weak_handle handle = write (bc_increfs handle)

pub dec_weak_handle : ℕ → Thread → Thread
dec_weak_handle handle = write (bc_decrefs handle)

pub request_death_notification : ℕ → ℕ → Thread → Thread
request_death_notification handle proxy = write (bc_request_death_notification handle proxy)

pub clear_death_notification : ℕ → ℕ → Thread → Thread
clear_death_notification handle proxy = write (bc_clear_death_notification handle proxy)

-- The static `freeBuffer`, with whether it is given a parcel to close the descriptors of.
pub free_buffer : Bool → ℕ → Thread → Thread
free_buffer has_parcel buffer s =
    write (bc_free_buffer buffer) (if has_parcel then outwards close_file_descriptors s else s)

pub clear_last_error : Thread → Status × Thread
clear_last_error s = (s.last_error, record s { last_error = no_error })

abbrev pub is_nil {ℓ} : {A : Type ℓ} → List A → Bool
is_nil [] = true
is_nil (x ∷ xs) = false

-- Outgoing data, by what the thread reads of its Parcel.
pub record Parcel : Type 0 where
  pub error : Status
  pub ipc_data_size : ℕ
  pub ipc_data : ℕ
  pub ipc_objects_count : ℕ
  pub ipc_objects : ℕ
  pub word : Status

-- `sizeof(status_t)` and `sizeof(binder_size_t)`
abbrev pub status_size : ℕ
status_size = 4

abbrev pub binder_size : ℕ
binder_size = 8

transaction_data : Flags → ℕ → ℕ → Parcel → TransactionData
transaction_data flags handle code p = record {
  target = handle;
  cookie = 0;
  code = code;
  flags = flags;
  sender_pid = 0;
  sender_euid = 0;
  data_size = p.ipc_data_size;
  buffer = p.ipc_data;
  offsets_size = p.ipc_objects_count * binder_size;
  offsets = p.ipc_objects;
  first_word = p.word;
}

status_data : Flags → ℕ → ℕ → ℕ → Status → TransactionData
status_data flags handle code buffer err = record {
  target = handle;
  cookie = 0;
  code = code;
  flags = record flags { status_code = true };
  sender_pid = 0;
  sender_euid = 0;
  data_size = status_size;
  buffer = buffer;
  offsets_size = 0;
  offsets = 0;
  first_word = err;
}

-- `status_buffer` is the address of the caller's status buffer, if it gives one.
pub write_transaction_data :
    (TransactionData → Command) → Flags → ℕ → ℕ → Parcel → Option ℕ → Thread → Status × Thread
unfolding transaction_data status_data
write_transaction_data cmd flags handle code p status_buffer s =
    if is_no_error p.error
    then (no_error, write (cmd (transaction_data flags handle code p)) s)
    else elim status_buffer [
      | some b ↦ (no_error, write (cmd (status_data flags handle code b p.error)) s)
      | none ↦ (p.error, record s { last_error = p.error })
    ]
