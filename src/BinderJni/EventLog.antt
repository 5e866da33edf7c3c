-- ===== src/BinderJni/EventLog.antt =====
-- push_eventlog_string, push_eventlog_int and conditionally_log_binder_call of
-- jni/android_util_Binder.cpp. The buffer is the list of the bytes before `pos`. The tags of the
-- event log and LOGGER_ENTRY_MAX_PAYLOAD come from the system and are arguments.
use learn_node.Base.{
  ℕ, ◌+◌, ◌*◌, ◌/◌, ◌%◌, ◌≤◌, ◌<◌, ◌≡◌, refl, sym, ◌∙◌, inl, inr, Bool, true, false, Option, none,
  some, List, [], ◌∷◌, ◌++◌, ltb, leb, ◌==◌, if◌then◌else◌, length, length-append, arith,
  Bool-cases, ◌>>=◌,
}

pub record LogFormat : Type 0 where
  pub event_type_int : ℕ
  pub event_type_string : ℕ
  pub event_type_list : ℕ
  pub max_payload : ℕ

-- `memcpy` of a jint on a little endian machine.
abbrev pub jint_bytes : ℕ → List ℕ
jint_bytes v = v % 256 ∷ v / 256 % 256 ∷ v / 65536 % 256 ∷ v / 16777216 % 256 ∷ []

module _ (f : LogFormat) where
  abbrev pub string_event : List ℕ → List ℕ
  string_event str = f.event_type_string ∷ jint_bytes (length str) ++ str

  abbrev pub int_event : ℕ → List ℕ
  int_event val = f.event_type_int ∷ jint_bytes val

  -- `end - *pos < space_needed`, with `end` one byte before the end of the buffer.
  no_room : List ℕ → ℕ → Bool
  no_room buf space_needed = ltb f.max_payload (length buf + space_needed + 1)

  pub push_eventlog_string : List ℕ → List ℕ → Option (List ℕ)
  unfolding no_room
  push_eventlog_string str buf =
      if no_room buf (1 + 4 + length str) then none else some (buf ++ string_event str)

  pub push_eventlog_int : ℕ → List ℕ → Option (List ℕ)
  unfolding no_room
  push_eventlog_int val buf = if no_room buf (1 + 4) then none else some (buf ++ int_event val)

  -- `buf` once the sample is taken.
  pub log_entry : List ℕ → ℕ → ℕ → List ℕ → ℕ → Option (List ℕ)
  unfolding push_eventlog_string push_eventlog_int
  log_entry desc code duration_ms process_name sample_percent =
      push_eventlog_string desc (f.event_type_list ∷ 5 ∷ [])
      >>= push_eventlog_int code
      >>= push_eventlog_int duration_ms
      >>= push_eventlog_string process_name
      >>= push_eventlog_int sample_percent
      >>= λ buf. some (buf ++ 10 ∷ [])

  -- `conditionally_log_binder_call`, with what it writes, for a duration and a `random()` not below
  -- 0.
  pub conditionally_log_binder_call : ℕ → ℕ → List ℕ → ℕ → List ℕ → Option (List ℕ)
  unfolding log_entry
  conditionally_log_binder_call duration_ms random desc code process_name =
      if leb 500 duration_ms
      then log_entry desc code duration_ms process_name 100
      else let sample_percent = 100 * duration_ms / 500 in
        if sample_percent == 0
        then none
        else if ltb sample_percent (random % 100 + 1)
        then none
        else log_entry desc code duration_ms process_name sample_percent

  -- The entry as one text.
  abbrev pub whole_entry : List ℕ → ℕ → ℕ → List ℕ → ℕ → List ℕ
  whole_entry desc code duration_ms process_name sample_percent =
      f.event_type_list ∷ 5 ∷ string_event desc
      ++ int_event code
      ++ int_event duration_ms
      ++ string_event process_name
      ++ int_event sample_percent
      ++ 10 ∷ []

  -- A buffer that leaves room for the last byte.
  fit : List ℕ → Option (List ℕ)
  fit buf = if leb (length buf + 1) f.max_payload then some buf else none

  push_eventlog_string-fit :
      (str buf : List ℕ) → push_eventlog_string str buf ≡ fit (buf ++ string_event str)
  unfolding push_eventlog_string no_room fit
  push_eventlog_string-fit str buf = rw (length-append buf (string_event str)) (ground arith)

  push_eventlog_int-fit :
      (val : ℕ) (buf : List ℕ) → push_eventlog_int val buf ≡ fit (buf ++ int_event val)
  unfolding push_eventlog_int no_room fit
  push_eventlog_int-fit val buf = rw (length-append buf (int_event val)) (ground arith)

  -- Once a buffer has no room, neither has a longer one.
  fit-full : (buf e : List ℕ) → leb (length buf + 1) f.max_payload ≡ false → fit (buf ++ e) ≡ none
  unfolding fit
  fit-full buf e h = rw (length-append buf e) (ground arith)

  string-after :
      (str buf : List ℕ) → (fit buf >>= push_eventlog_string str) ≡ fit (buf ++ string_event str)
  unfolding fit
  string-after str buf = elim (Bool-cases (leb (length buf + 1) f.max_payload)) [
    | inl room ↦ rw room (push_eventlog_string-fit str buf)
    | inr full ↦ rw full (sym (fit-full buf (string_event str) full))
  ]

  int-after :
      (val : ℕ) (buf : List ℕ) → (fit buf >>= push_eventlog_int val) ≡ fit (buf ++ int_event val)
  unfolding fit
  int-after val buf = elim (Bool-cases (leb (length buf + 1) f.max_payload)) [
    | inl room ↦ rw room (push_eventlog_int-fit val buf)
    | inr full ↦ rw full (sym (fit-full buf (int_event val) full))
  ]

  -- An entry that fits, or nothing.
  abbrev pub if_fits : List ℕ → Option (List ℕ)
  if_fits entry = if leb (length entry) f.max_payload then some entry else none

  end-after : (buf : List ℕ) → (fit buf >>= λ b. some (b ++ 10 ∷ [])) ≡ if_fits (buf ++ 10 ∷ [])
  unfolding fit
  end-after buf = elim (Bool-cases (leb (length buf + 1) f.max_payload)) [
    | inl room ↦ rw (room, length-append buf (10 ∷ []), room) refl
    | inr full ↦ rw (full, length-append buf (10 ∷ []), full) refl
  ]

  log_entry-fits :
      (desc : List ℕ) (code duration_ms : ℕ) (process_name : List ℕ) (sample_percent : ℕ)
      → log_entry desc code duration_ms process_name sample_percent
        ≡ if_fits (whole_entry desc code duration_ms process_name sample_percent)
  unfolding log_entry
  log_entry-fits desc code duration_ms process_name sample_percent =
      rw
        (
          push_eventlog_string-fit desc (f.event_type_list ∷ 5 ∷ []),
          int-after code (f.event_type_list ∷ 5 ∷ string_event desc),
          int-after duration_ms ((f.event_type_list ∷ 5 ∷ string_event desc) ++ int_event code),
          string-after process_name (
              ((f.event_type_list ∷ 5 ∷ string_event desc) ++ int_event code)
              ++ int_event duration_ms),
          int-after sample_percent (
              (((f.event_type_list ∷ 5 ∷ string_event desc) ++ int_event code)
                ++ int_event duration_ms)
              ++ string_event process_name),
          end-after (
              ((((f.event_type_list ∷ 5 ∷ string_event desc) ++ int_event code)
                  ++ int_event duration_ms)
                ++ string_event process_name)
              ++ int_event sample_percent),
        )
        refl

  if_fits-some :
      (whole entry : List ℕ)
      → if_fits whole ≡ some entry
      → (entry ≡ whole) × (length entry ≤ f.max_payload)
  if_fits-some whole entry e = ground arith

module _ (f : LogFormat) (duration_ms random : ℕ) (desc : List ℕ) (code : ℕ)
    (process_name : List ℕ) where
  abbrev Logged : List ℕ → Type 0
  Logged entry =
      (percent : ℕ) × (entry ≡ whole_entry f desc code duration_ms process_name percent)
      × (0 < percent)
      × (percent ≤ 100)
      × (length entry ≤ f.max_payload)

  entry-Logged :
      (percent : ℕ) (entry : List ℕ)
      → log_entry f desc code duration_ms process_name percent ≡ some entry
      → 0 < percent
      → percent ≤ 100
      → Logged entry
  entry-Logged percent entry e positive_ bound =
      let (whole, room) =
        if_fits-some f (whole_entry f desc code duration_ms process_name percent) entry
          (sym (log_entry-fits f desc code duration_ms process_name percent) ∙ e) in
      (percent, whole, positive_, bound, room)

  call-Logged :
      (entry : List ℕ)
      → conditionally_log_binder_call f duration_ms random desc code process_name ≡ some entry
      → Logged entry
  unfolding conditionally_log_binder_call
  call-Logged entry e = elim (Bool-cases (leb 500 duration_ms)) [
    | inl long ↦ entry-Logged 100 entry (rw long at e) (omega arith) (omega arith)
    | inr short ↦ elim (Bool-cases (100 * duration_ms / 500 == 0)) [
      | inl zero_ ↦ absurd (ground arith)
      | inr some_ ↦ elim (Bool-cases (ltb (100 * duration_ms / 500) (random % 100 + 1))) [
        | inl unlucky ↦ absurd (ground arith)
        | inr lucky ↦
            entry-Logged (100 * duration_ms / 500) entry (simp (short, some_, lucky) at e)
              (ground arith) (ground arith)
      ]
    ]
  ]

-- A binder call that took less than 5 milliseconds is not logged, and one that took 500 or more is
-- always logged, as 100 percent, if the entry fits. What is logged is a whole entry, which is no
-- longer than the payload that the log allows and has a percentage from 1 to 100, never a part of
-- one.
pub conditionally_log_binder_call-whole :
    (f : LogFormat) (duration_ms random : ℕ) (desc : List ℕ) (code : ℕ) (process_name : List ℕ)
    → (duration_ms < 5
        → conditionally_log_binder_call f duration_ms random desc code process_name ≡ none)
      × (500 ≤ duration_ms
          → conditionally_log_binder_call f duration_ms random desc code process_name
            ≡ if_fits f (whole_entry f desc code duration_ms process_name 100))
      × ((entry : List ℕ)
          → conditionally_log_binder_call f duration_ms random desc code process_name ≡ some entry
          → (percent : ℕ) × (entry ≡ whole_entry f desc code duration_ms process_name percent)
            × (0 < percent)
            × (percent ≤ 100)
            × (length entry ≤ f.max_payload))
unfolding conditionally_log_binder_call
conditionally_log_binder_call-whole f duration_ms random desc code process_name = (
  (λ short. rw (below duration_ms (omega arith), rounded duration_ms short) refl),
  (λ long. rw (above duration_ms long) (log_entry-fits f desc code duration_ms process_name 100)),
  call-Logged f duration_ms random desc code process_name,
)
  where
    below : (d : ℕ) → d < 500 → leb 500 d ≡ false
    below d h = ground arith

    above : (d : ℕ) → 500 ≤ d → leb 500 d ≡ true
    above d h = ground arith

    rounded : (d : ℕ) → d < 5 → (100 * d / 500 == 0) ≡ true
    rounded d h = ground arith
