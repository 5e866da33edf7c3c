-- ===== src/IpcThreadState/Execute/Identity.antt =====
-- The identity of the caller while native/IPCThreadState.cpp executes BR_TRANSACTION.
use learn_node.Base.{◌≡◌, refl, List, [], ◌∷◌, ◌++◌}
use learn_node.Status.{Status, no_error}
use learn_node.IpcThreadState.{
  TransactionData, Command, bc_free_buffer, br_transaction, Thread, Run, done, blocked, out_of_fuel,
  ◌>>=◌, Ends, Ends-done, Parcel, free_buffer,
}
use learn_node.IpcThreadState.Execute.{
  Process, restore_identity, execute_transaction, answer_transaction, command_result, no_result,
  note_result, execute_command, take_identity,
}

-- The thread of before and the one behind the command.
abbrev Restored : TransactionData → Thread → Status × Thread → Type 0
Restored td s (err, s') =
    (err ≡ no_error)
    × (s'.calling_pid ≡ s.calling_pid)
    × (s'.calling_uid ≡ s.calling_uid)
    × (s'.strict_mode_policy ≡ s.strict_mode_policy)
    × (s'.last_flags ≡ s.last_flags)
    × (out : List Command) × (s'.out ≡ out ++ bc_free_buffer td.buffer ∷ [])

module _ (p : Process) (nested : Thread → Run (Status × Thread)) where
  restore-Restored :
      (td : TransactionData) (s t : Thread)
      → Restored td s (no_error, restore_identity p nested td s t)
  unfolding restore_identity free_buffer
  restore-Restored td s t = (refl, refl, refl, refl, refl, t.out, refl)

  answered :
      (td : TransactionData) (s : Thread) (m : Run Thread)
      → Ends (Restored td s) (
          m
          >>= (λ s'. done (restore_identity p nested td s s'))
          >>= no_result p nested
          >>= note_result p nested)
  unfolding no_result note_result
  answered td s (done t) = restore-Restored td s t
  answered td s blocked = tt
  answered td s out_of_fuel = tt

  served :
      (td : TransactionData) (s : Thread) (m : Run (Status × Parcel × Thread))
      → Ends (Restored td s) (
          m
          >>= answer_transaction p nested td
          >>= (λ s'. done (restore_identity p nested td s s'))
          >>= no_result p nested
          >>= note_result p nested)
  served td s (done r) = answered td s (answer_transaction p nested td r)
  served td s blocked = tt
  served td s out_of_fuel = tt

-- Whatever the object does to the thread, and whatever status it answers with, BR_TRANSACTION gives
-- NO_ERROR when it ends; the calling pid and uid, the strict mode policy and the flags of the last
-- transaction are those of before it, and the last command written frees the buffer that came in.
pub execute_command-identity :
    (p : Process) (nested : Thread → Run (Status × Thread)) (td : TransactionData) (s s' : Thread)
    (err : Status)
    → execute_command p nested (br_transaction td) s ≡ done (err, s')
    → (err ≡ no_error)
      × (s'.calling_pid ≡ s.calling_pid)
      × (s'.calling_uid ≡ s.calling_uid)
      × (s'.strict_mode_policy ≡ s.strict_mode_policy)
      × (s'.last_flags ≡ s.last_flags)
      × (out : List Command) × (s'.out ≡ out ++ bc_free_buffer td.buffer ∷ [])
unfolding execute_command command_result execute_transaction
execute_command-identity p nested td s s' err e =
    Ends-done (Restored td s) (execute_command p nested (br_transaction td) s)
      (served p nested td s (p.serve td (take_identity p nested td s))) e
