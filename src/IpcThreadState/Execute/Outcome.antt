-- ===== src/IpcThreadState/Execute/Outcome.antt =====
-- What becomes of the reply of a two-way transact of native/IPCThreadState.cpp.
use learn_node.Base.{
  ℕ, zero, suc, ◌≡◌, refl, ◌⊎◌, inl, inr, true, false, List, [], ◌∷◌, ◌++◌, Bool-cases, none,
}
use learn_node.Status.{
  Status, no_error, dead_object, failed_transaction, is_no_error, is_negative, is_no_error→≡,
  is_negative→,
}
use learn_node.IpcThreadState.{
  Flags, TransactionData, Command, bc_transaction, bc_free_buffer, Message, br_error, br_ok,
  br_dead_reply, br_transaction_complete, br_noop, br_spawn_looper, br_finished, br_failed_reply,
  br_transaction, br_reply, br_acquire_result, br_increfs, br_acquire, br_release, br_decrefs,
  br_attempt_acquire, br_dead_binder, br_clear_death_notification_done, br_unknown, Thread, Run,
  done, ◌>>=◌, Ends, Ends-done, Ends-bind, Parcel, free_buffer, write_transaction_data,
}
use learn_node.IpcThreadState.Driver.{talk_with_driver}
use learn_node.IpcThreadState.Execute.{
  Process, execute_command, untouched, data_reference, error_set, Waited, finish, plain, take_reply,
  stop, after_execute, on_message, on_input, round, wait_for_response, after_write_transaction,
  transact,
}

-- The reply has the data of a BR_REPLY; or the reply was a status without error, whose buffer was
-- freed; or the reply and the thread keep the error.
abbrev Replied : Waited → Type 0
Replied w =
    ((w.err ≡ no_error)
      × (td : TransactionData) × (w.reply ≡ data_reference td)
      × (td.flags.status_code ≡ false)
      × ((earlier : List Message) × (w.thread.taken ≡ earlier ++ br_reply td ∷ [])))
    ⊎ ((w.err ≡ no_error)
        × (w.reply ≡ untouched)
        × (td : TransactionData) × (out : List Command) × (td.flags.status_code ≡ true)
        × (td.first_word ≡ no_error)
        × (w.thread.out ≡ out ++ bc_free_buffer td.buffer ∷ [])
        × ((earlier : List Message) × (w.thread.taken ≡ earlier ++ br_reply td ∷ [])))
    ⊎ ((is_no_error w.err ≡ false) × (w.reply ≡ error_set w.err) × (w.thread.last_error ≡ w.err))

module _ (p : Process) (nested : Thread → Run (Status × Thread)) (again : Thread → Run Waited)
    (again-Replied : (t : Thread) → Ends Replied (again t)) where
  failed :
      (w : Waited) → is_no_error w.err ≡ false → Ends Replied (stop p nested again true false w)
  unfolding stop finish
  failed w e = rw e (inr (inr (e, refl, refl)))

  executed : (r : Status × Thread) → Ends Replied (after_execute p nested again true false r)
  unfolding after_execute
  executed (err, s) = elim (Bool-cases (is_no_error err)) [
    | inl ok ↦ rw ok (again-Replied s)
    | inr fails ↦ rw fails (inr (inr (fails, refl, refl)))
  ]

  default :
      (m : Message) (s : Thread)
      → Ends Replied (execute_command p nested m s >>= after_execute p nested again true false)
  default m s = Ends-bind Replied (execute_command p nested m s) _ executed

  replied :
      (td : TransactionData) (s : Thread) (earlier : List Message)
      → s.taken ≡ earlier ++ br_reply td ∷ []
      → Ends Replied (stop p nested again true false (take_reply td s))
  unfolding stop finish take_reply free_buffer plain
  replied td s earlier last = elim (Bool-cases td.flags.status_code) [
    | inr data_ ↦ simp data_ (inl (refl, td, refl, data_, (earlier, last)))
    | inl status ↦ elim (Bool-cases (is_no_error td.first_word)) [
      | inl ok ↦
          simp (status, ok)
            (inr (
              inl (
                is_no_error→≡ td.first_word ok,
                refl,
                td,
                s.out,
                status,
                is_no_error→≡ td.first_word ok,
                refl,
                (earlier, last),
              )))
      | inr fails ↦ simp (status, fails) (inr (inr (refl, refl, refl)))
    ]
  ]

  message :
      (err : Status) (m : Message) (s : Thread) (earlier : List Message)
      → s.taken ≡ earlier ++ m ∷ []
      → Ends Replied (on_message p nested again true false err m s)
  unfolding on_message
  message err (br_error result) s earlier last = default (br_error result) s
  message err br_ok s earlier last = default br_ok s
  message err br_dead_reply s earlier last = failed (plain dead_object s) refl
  message err br_transaction_complete s earlier last = again-Replied s
  message err br_noop s earlier last = default br_noop s
  message err br_spawn_looper s earlier last = default br_spawn_looper s
  message err br_finished s earlier last = default br_finished s
  message err br_failed_reply s earlier last = failed (plain failed_transaction s) refl
  message err (br_transaction td) s earlier last = default (br_transaction td) s
  message err (br_reply td) s earlier last = replied td s earlier last
  message err (br_acquire_result r) s earlier last = again-Replied s
  message err (br_increfs refs obj) s earlier last = default (br_increfs refs obj) s
  message err (br_acquire refs obj) s earlier last = default (br_acquire refs obj) s
  message err (br_release refs obj) s earlier last = default (br_release refs obj) s
  message err (br_decrefs refs obj) s earlier last = default (br_decrefs refs obj) s
  message err (br_attempt_acquire refs obj) s earlier last = default (br_attempt_acquire refs obj) s
  message err (br_dead_binder proxy) s earlier last = default (br_dead_binder proxy) s
  message err (br_clear_death_notification_done proxy) s earlier last =
      default (br_clear_death_notification_done proxy) s
  message err (br_unknown cmd) s earlier last = default (br_unknown cmd) s

  input :
      (err : Status) (ms : List Message) (s : Thread)
      → Ends Replied (on_input p nested again true false err ms s)
  unfolding on_input
  input err [] s = again-Replied s
  input err (m ∷ ms) s =
      message err m (record s { input = ms; taken = s.taken ++ m ∷ [] }) s.taken refl

  round-Replied : (r : Status × Thread) → Ends Replied (round p nested again true false r)
  unfolding round
  round-Replied (err, s) = elim (Bool-cases (is_negative err)) [
    | inl fails ↦ rw fails (failed (plain err s) (is_negative→ err fails))
    | inr works ↦ rw works (elim (Bool-cases (is_negative s.in_error)) [
      | inl fails ↦ rw fails (failed (plain s.in_error s) (is_negative→ s.in_error fails))
      | inr works' ↦ rw works' (input s.in_error s.input s)
    ])
  ]

wait-Replied :
    (fuel : ℕ) (p : Process) (s : Thread) → Ends Replied (wait_for_response fuel p true false s)
unfolding wait_for_response
wait-Replied zero p s = tt
wait-Replied (suc fuel) p s =
    Ends-bind Replied (talk_with_driver true s) _ (round-Replied p _ _ (wait-Replied fuel p))

written-Replied :
    (fuel : ℕ) (p : Process) (flags : Flags) (r : Status × Thread)
    → flags.one_way ≡ false
    → Ends Replied (after_write_transaction fuel p flags r)
unfolding after_write_transaction
written-Replied fuel p flags (err, s) e = elim (Bool-cases (is_no_error err)) [
  | inl ok ↦ simp (ok, e) (wait-Replied fuel p s)
  | inr fails ↦ simp fails (inr (inr (refl, refl, refl)))
]

-- A two-way transact that ends has either data, or a status. It returns NO_ERROR with the data of
-- the message that its wait took last, a BR_REPLY that is no status; or where that last message is a
-- BR_REPLY whose status is NO_ERROR, and then its last command frees the buffer of that message; else
-- the reply and the last error of the thread are the error that it returns.
pub transact-outcome :
    (fuel : ℕ) (p : Process) (handle code : ℕ) (parcel : Parcel) (flags : Flags) (s : Thread)
    (w : Waited)
    → flags.one_way ≡ false
    → transact fuel p handle code parcel flags s ≡ done w
    → ((w.err ≡ no_error)
        × (td : TransactionData) × (w.reply ≡ data_reference td)
        × (td.flags.status_code ≡ false)
        × ((earlier : List Message) × (w.thread.taken ≡ earlier ++ br_reply td ∷ [])))
      ⊎ ((w.err ≡ no_error)
          × (w.reply ≡ untouched)
          × (td : TransactionData) × (out : List Command) × (td.flags.status_code ≡ true)
          × (td.first_word ≡ no_error)
          × (w.thread.out ≡ out ++ bc_free_buffer td.buffer ∷ [])
          × ((earlier : List Message) × (w.thread.taken ≡ earlier ++ br_reply td ∷ [])))
      ⊎ ((is_no_error w.err ≡ false) × (w.reply ≡ error_set w.err) × (w.thread.last_error ≡ w.err))
unfolding transact
transact-outcome fuel p handle code parcel flags s w two_way e =
    Ends-done Replied (transact fuel p handle code parcel flags s)
      (written-Replied fuel p flags
        (write_transaction_data bc_transaction (record flags { accept_fds = true }) handle code
          parcel none s)
        two_way)
      e
