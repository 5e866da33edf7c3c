-- ===== src/Status.antt =====
-- `status_t`, as the Binder sources compare and return it. A constructor stands for each code that
-- the sources name; `negative` and `positive` stand for the codes that they do not name. That the
-- named codes are distinct and below zero is what utils/Errors.h and errno.h promise.
use learn_node.Base.{ℕ, ◌≡◌, Bool, true, false, arith}

pub data Status : Type 0 where
  no_error unknown_error no_memory invalid_operation bad_value bad_index bad_type : Status
  name_not_found permission_denied not_enough_data no_init already_exists dead_object : Status
  unknown_transaction failed_transaction fds_not_allowed unexpected_null timed_out : Status
  ebadf enfile emfile efbig enospc espipe erofs emlink econnrefused eintr : Status
  negative positive : ℕ → Status

-- `err == NO_ERROR`
abbrev pub is_no_error : Status → Bool
is_no_error no_error = true
is_no_error _ = false

-- `err < NO_ERROR`
abbrev pub is_negative : Status → Bool
is_negative no_error = false
is_negative (positive n) = false
is_negative _ = true

-- `err == DEAD_OBJECT`
abbrev pub is_dead_object : Status → Bool
is_dead_object dead_object = true
is_dead_object _ = false

pub is_no_error→≡ : (err : Status) → is_no_error err ≡ true → err ≡ no_error
is_no_error→≡ err e = ground arith

pub is_negative→ : (err : Status) → is_negative err ≡ true → is_no_error err ≡ false
is_negative→ err e = ground arith
