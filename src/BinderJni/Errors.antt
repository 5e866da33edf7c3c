-- ===== src/BinderJni/Errors.antt =====
-- signalExceptionForError and the transact of a BinderProxy in jni/android_util_Binder.cpp.
use learn_node.Base.{
  ℕ, ◌*◌, ◌<◌, ◌≡◌, ◌↔◌, Bool, true, false, ◌&&◌, Option, none, some, ltb, if◌then◌else◌, arith,
}
use learn_node.Status.{
  Status, unknown_error, no_memory, invalid_operation, bad_value, bad_index, bad_type,
  name_not_found, permission_denied, not_enough_data, no_init, already_exists, dead_object,
  unknown_transaction, failed_transaction, fds_not_allowed, unexpected_null, ebadf, enfile, emfile,
  efbig, enospc, espipe, erofs, emlink, is_no_error,
}

-- The Java classes that are thrown.
pub data ExceptionClass : Type 0 where
  runtime_exception out_of_memory_error unsupported_operation_exception : ExceptionClass
  illegal_argument_exception index_out_of_bounds_exception no_such_element_exception :
      ExceptionClass
  security_exception parcel_format_exception null_pointer_exception : ExceptionClass
  illegal_state_exception dead_object_exception : ExceptionClass
  transaction_too_large_exception remote_exception : ExceptionClass

-- The messages of the exceptions; the last three have the code or the size in them.
pub data ExceptionText : Type 0 where
  no_text unknown_error_text not_enough_data_text not_initialized item_already_exists :
      ExceptionText
  unknown_transaction_code transaction_failed_on_small_parcel : ExceptionText
  not_allowed_to_write_file_descriptors bad_file_descriptor file_table_overflow : ExceptionText
  too_many_open_files file_too_large no_space_left illegal_seek read_only_file_system :
      ExceptionText
  too_many_links binder_has_been_finalized death_link_does_not_exist : ExceptionText
  data_parcel_size : ℕ → ExceptionText
  unknown_binder_error_code : Status → ExceptionText

pub record Exception : Type 0 where
  pub thrown : ExceptionClass
  pub message : ExceptionText

abbrev pub raise : ExceptionClass → ExceptionText → Exception
raise c m = record { thrown = c; message = m }

-- A dead object, by whether the method may throw a RemoteException.
dead : Bool → ExceptionText → Exception
dead can_throw m = raise (if can_throw then dead_object_exception else runtime_exception) m

failed : Bool → ℕ → Exception
unfolding dead
failed can_throw parcel_size =
    if can_throw && ltb (200 * 1024) parcel_size
    then raise transaction_too_large_exception (data_parcel_size parcel_size)
    else dead can_throw transaction_failed_on_small_parcel

-- `signalExceptionForError`; a parcel size below zero is 0 here.
pub signal_exception_for_error : Status → Bool → ℕ → Exception
unfolding dead failed
signal_exception_for_error err can_throw parcel_size = elim err [
  | unknown_error ↦ raise runtime_exception unknown_error_text
  | no_memory ↦ raise out_of_memory_error no_text
  | invalid_operation ↦ raise unsupported_operation_exception no_text
  | bad_value ↦ raise illegal_argument_exception no_text
  | bad_index ↦ raise index_out_of_bounds_exception no_text
  | bad_type ↦ raise illegal_argument_exception no_text
  | name_not_found ↦ raise no_such_element_exception no_text
  | permission_denied ↦ raise security_exception no_text
  | not_enough_data ↦ raise parcel_format_exception not_enough_data_text
  | no_init ↦ raise runtime_exception not_initialized
  | already_exists ↦ raise runtime_exception item_already_exists
  | dead_object ↦ dead can_throw no_text
  | unknown_transaction ↦ raise runtime_exception unknown_transaction_code
  | failed_transaction ↦ failed can_throw parcel_size
  | fds_not_allowed ↦ raise runtime_exception not_allowed_to_write_file_descriptors
  | unexpected_null ↦ raise null_pointer_exception no_text
  | ebadf ↦ raise runtime_exception bad_file_descriptor
  | enfile ↦ raise runtime_exception file_table_overflow
  | emfile ↦ raise runtime_exception too_many_open_files
  | efbig ↦ raise runtime_exception file_too_large
  | enospc ↦ raise runtime_exception no_space_left
  | espipe ↦ raise runtime_exception illegal_seek
  | erofs ↦ raise runtime_exception read_only_file_system
  | emlink ↦ raise runtime_exception too_many_links
  | other ↦
      raise (if can_throw then remote_exception else runtime_exception)
        (unknown_binder_error_code other)
]

-- RemoteException and the classes below it, which Java methods have to declare.
abbrev pub is_checked : ExceptionClass → Bool
is_checked dead_object_exception = true
is_checked transaction_too_large_exception = true
is_checked remote_exception = true
is_checked _ = false

-- What Java gives to a transact of a BinderProxy: a null parcel, one that is refused (its own
-- exception is pending), or a parcel.
pub data JavaParcel (A : Type 0) : Type 0 where
  null unusable : JavaParcel A
  parcel : A → JavaParcel A

-- What it gets: a value, an exception, or the exception that is pending.
pub data JavaResult : Type 0 where
  returned : Bool → JavaResult
  threw : Exception → JavaResult
  pending : JavaResult

is_unknown_transaction : Status → Bool
is_unknown_transaction unknown_transaction = true
is_unknown_transaction _ = false

transact_result : ℕ → Status → JavaResult
unfolding is_unknown_transaction
transact_result data_size err =
    if is_no_error err
    then returned true
    else if is_unknown_transaction err
    then returned false
    else threw (signal_exception_for_error err true data_size)

abbrev to_reply {ℓ} : {A : Type 0} {B : Type ℓ} → JavaParcel A → B → (Option A → B) → B
to_reply null refused use_reply = use_reply none
to_reply unusable refused use_reply = refused
to_reply (parcel r) refused use_reply = use_reply (some r)

-- android_os_BinderProxy_transact. A parcel is what `size` tells of it; `transact` is the transact
-- of an IBinder, with its thread of state `S`; `target` is mObject, none where it is null.
pub binder_proxy_transact :
    {A B S : Type 0}
    → (A → ℕ)
    → (B → A → Option A → S → Status × S)
    → Option B
    → JavaParcel A
    → JavaParcel A
    → S
    → JavaResult × S
unfolding transact_result
binder_proxy_transact size transact target null reply s =
    (threw (raise null_pointer_exception no_text), s)
binder_proxy_transact size transact target unusable reply s = (pending, s)
binder_proxy_transact size transact target (parcel d) reply s =
    to_reply reply (pending, s)
      λ r. elim target [
        | none ↦ (threw (raise illegal_state_exception binder_has_been_finalized), s)
        | some b ↦ let (err, s') = transact b d r s in (transact_result (size d) err, s')
      ]

too_large_iff :
    (err : Status) (can_throw : Bool) (parcel_size : ℕ)
    → ((signal_exception_for_error err can_throw parcel_size).thrown
        ≡ transaction_too_large_exception)
      ↔ ((err ≡ failed_transaction) × (can_throw ≡ true) × (200 * 1024 < parcel_size))
unfolding signal_exception_for_error failed dead
too_large_iff err can_throw parcel_size = ground arith

-- signalExceptionForError throws a RemoteException, or one of the classes below it, only from a
-- method that may throw one; and TransactionTooLargeException for FAILED_TRANSACTION and no other
-- status, where the method may throw it and the parcel has more than 200 kilobytes.
pub signal_exception_for_error-checked :
    (err : Status) (can_throw : Bool) (parcel_size : ℕ)
    → (is_checked (signal_exception_for_error err can_throw parcel_size).thrown ≡ true
        → can_throw ≡ true)
      × (((signal_exception_for_error err can_throw parcel_size).thrown
            ≡ transaction_too_large_exception)
          ↔ ((err ≡ failed_transaction) × (can_throw ≡ true) × (200 * 1024 < parcel_size)))
unfolding signal_exception_for_error failed dead
signal_exception_for_error-checked err can_throw parcel_size =
    ((λ checked. ground arith), too_large_iff err can_throw parcel_size)
