-- ===== src/BinderJni/Tests.antt =====
-- Tests of the model of jni/android_util_Binder.cpp, and its theorems at concrete values.
use learn_node.Base.{
  ℕ, ◌≤◌, ◌<◌, ◌≡◌, refl, ◌⊎◌, ◌↔◌, true, none, some, List, [], ◌∷◌, length, arith, ◌+◌, false, ◌≢◌,
}
use learn_node.Status.{no_error, failed_transaction}
use learn_node.IpcThreadState.{Thread, no_flags}
use learn_node.BinderJni.Identity.{
  clear_calling_identity, jni_restore_calling_identity, jni_restore-clear,
}
use learn_node.BinderJni.Errors.{
  signal_exception_for_error, is_checked, transaction_too_large_exception,
  signal_exception_for_error-checked,
}
use learn_node.BpBinder.{Memory, new_proxy}
use learn_node.BpBinder.Recipients.{member}
use learn_node.BinderJni.Recipients.InStep.{
  InStep, JavaCall, links, unlinks, dies, java_run, new_java_proxy, java_run-InStep,
}
use learn_node.BinderJni.Recipients.{JavaProxy, java_obituary}
use learn_node.BinderJni.Recipients.Notices.{released, java_obituary-notices}
use learn_node.BinderJni.EventLog.{
  LogFormat, conditionally_log_binder_call, whole_entry, if_fits,
  conditionally_log_binder_call-whole,
}

abbrev thread : Thread
thread = record {
  out = [];
  input = [];
  in_error = no_error;
  pending_strong = [];
  pending_weak = [];
  last_error = no_error;
  calling_pid = 321;
  calling_uid = 10042;
  strict_mode_policy = 0;
  last_flags = no_flags;
  driver_open = true;
  answers = [];
  sent = [];
  taken = [];
  outside = [];
}

jni_restore-clear_example :
    let (token, cleared) = clear_calling_identity 99 1000 thread in
    (cleared.calling_pid ≡ 99)
    × (cleared.calling_uid ≡ 1000)
    × (((0 < 10042) × (10042 < 999) × (jni_restore_calling_identity token cleared ≡ none))
        ⊎ (((thread.calling_uid ≡ 0) ⊎ (999 ≤ 10042))
            × (jni_restore_calling_identity token cleared ≡ some thread)))
unfolding clear_calling_identity
jni_restore-clear_example =
    jni_restore-clear 99 1000 thread (clear_calling_identity 99 1000 thread).1 (omega arith)

signal_exception_for_error-checked_example :
    (is_checked (signal_exception_for_error failed_transaction true 300000).thrown ≡ true
      → true ≡ true)
    × (((signal_exception_for_error failed_transaction true 300000).thrown
          ≡ transaction_too_large_exception)
        ↔ ((failed_transaction ≡ failed_transaction) × (true ≡ true) × (204800 < 300000)))
signal_exception_for_error-checked_example =
    signal_exception_for_error-checked failed_transaction true 300000

abbrev format : LogFormat
format = record {
  event_type_int = 0;
  event_type_string = 2;
  event_type_list = 3;
  max_payload = 4076;
}

conditionally_log_binder_call-whole_example :
    (400 < 5 → conditionally_log_binder_call format 400 17 (97 ∷ []) 1 (98 ∷ []) ≡ none)
    × (500 ≤ 400
        → conditionally_log_binder_call format 400 17 (97 ∷ []) 1 (98 ∷ [])
          ≡ if_fits format (whole_entry format (97 ∷ []) 1 400 (98 ∷ []) 100))
    × ((entry : List ℕ)
        → conditionally_log_binder_call format 400 17 (97 ∷ []) 1 (98 ∷ []) ≡ some entry
        → (percent : ℕ) × (entry ≡ whole_entry format (97 ∷ []) 1 400 (98 ∷ []) percent)
          × (0 < percent)
          × (percent ≤ 100)
          × (length entry ≤ 4076))
conditionally_log_binder_call-whole_example =
    conditionally_log_binder_call-whole format 400 17 (97 ∷ []) 1 (98 ∷ [])

-- An allocator that gives an address above all that are in use.
abbrev total : List ℕ → ℕ
total [] = 0
total (x ∷ xs) = x + total xs

abbrev next_address : List ℕ → ℕ
next_address xs = total xs + 1

member-above : (a : ℕ) (xs : List ℕ) → total xs < a → member a xs ≡ false
member-above a [] h = refl
member-above a (x ∷ xs) h = ground (arith, member-above a xs)

next_address-unused : (xs : List ℕ) → member (next_address xs) xs ≡ false
next_address-unused xs = member-above (next_address xs) xs (omega arith)

next_address-not_null : (xs : List ℕ) → next_address xs ≢ 0
next_address-not_null xs e = omega arith

abbrev plenty : Memory
plenty = record { vector = true; add = no_error }

abbrev uses : List JavaCall
uses =
    links plenty 70 0
    ∷ links plenty 71 0
    ∷ links plenty 0 0
    ∷ unlinks (λ o. false) 70 0
    ∷ unlinks (λ o. false) 71 5
    ∷ dies
    ∷ links plenty 72 0
    ∷ []

java_run-InStep_example : InStep (java_run next_address (new_java_proxy 100 7) uses)
unfolding new_proxy
java_run-InStep_example =
    java_run-InStep next_address next_address-unused next_address-not_null uses
      (new_java_proxy 100 7) (record { distinct = tt; nonzero = refl; same = λ open_. refl })

-- Two recipients, of which the second has had its notice.
abbrev two : JavaProxy
two = record {
  native = record (new_java_proxy 100 7).native {
    obituaries = some (
        record { recipient = 11; cookie = 0; flags = 0 }
        ∷ record { recipient = 12; cookie = 0; flags = 0 }
        ∷ []);
  };
  recipients =
      record { address = 11; object = 70; strong = true }
      ∷ record { address = 12; object = 71; strong = false }
      ∷ [];
  notices = [];
  effects = [];
}

java_obituary-notices_example :
    ((java_obituary two).notices ≡ 70 ∷ [])
    × ((java_obituary two).recipients ≡ released two.recipients)
    × ((java_obituary (java_obituary two)).notices ≡ (java_obituary two).notices)
unfolding new_proxy
java_obituary-notices_example =
    java_obituary-notices two
      (record { distinct = (refl, (refl, tt)); nonzero = refl; same = λ e. refl }) refl
