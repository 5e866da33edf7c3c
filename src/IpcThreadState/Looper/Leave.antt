-- ===== src/IpcThreadState/Looper/Leave.antt =====
-- How a thread of the pool ends joinThreadPool in native/IPCThreadState.cpp.
use learn_node.Base.{
  ℕ, zero, suc, ◌≡◌, ◌⊎◌, inl, inr, Bool, true, false, not, ◌&&◌, Bool-cases, arith,
}
use learn_node.Status.{Status, is_negative}
use learn_node.IpcThreadState.{bc_exit_looper, Thread, Run, done, Ends, Ends-done, Ends-bind, write}
use learn_node.IpcThreadState.Driver.{talk_with_driver}
use learn_node.IpcThreadState.Execute.{Process}
use learn_node.IpcThreadState.Looper.{
  get_and_execute_command, process_pending_derefs, is_timed_out, is_disconnected, Joined, left_pool,
  aborted, leave_pool, after_round, pool_loop, join_thread_pool,
}

-- What lets a thread leave, and what aborts the process.
abbrev pub Allowed : Bool → Joined → Type 0
Allowed is_main (left_pool result s) =
    (is_disconnected result ≡ true) ⊎ ((is_timed_out result ≡ true) × (is_main ≡ false))
Allowed is_main (aborted result) =
    (is_negative result ≡ true) × (is_timed_out result ≡ false) × (is_disconnected result ≡ false)

leave-Allowed :
    (is_main : Bool) (result : Status) (s : Thread)
    → (is_disconnected result ≡ true) ⊎ ((is_timed_out result ≡ true) × (is_main ≡ false))
    → Ends (Allowed is_main) (leave_pool result s)
unfolding leave_pool
leave-Allowed is_main result s h =
    Ends-bind (Allowed is_main) (talk_with_driver false (write bc_exit_looper s)) _ (λ r. h)

round-Allowed :
    (is_main : Bool) (again : Thread → Run Joined)
    → ((t : Thread) → Ends (Allowed is_main) (again t))
    → (r : Status × Thread) → Ends (Allowed is_main) (after_round is_main again r)
unfolding after_round
round-Allowed is_main again h (result, s) =
    elim (Bool-cases
      (is_negative result && not (is_timed_out result) && not (is_disconnected result))) [
        | inl aborts ↦ rw aborts (ground arith)
        | inr goes_on ↦ rw goes_on (elim (Bool-cases (is_timed_out result && not is_main)) [
          | inl late ↦ rw late (leave-Allowed is_main result s (inr (ground arith)))
          | inr stays ↦ rw stays (elim (Bool-cases (is_disconnected result)) [
            | inl closed ↦ rw closed (leave-Allowed is_main result s (inl closed))
            | inr open_ ↦ rw open_ (h s)
          ])
        ])
      ]

loop-Allowed :
    (fuel : ℕ) (p : Process) (is_main : Bool) (s : Thread)
    → Ends (Allowed is_main) (pool_loop fuel p is_main s)
unfolding pool_loop
loop-Allowed zero p is_main s = tt
loop-Allowed (suc fuel) p is_main s =
    Ends-bind (Allowed is_main) (get_and_execute_command fuel p (process_pending_derefs s)) _
      (round-Allowed is_main _ (loop-Allowed fuel p is_main))

-- A thread leaves the pool only when the driver is gone (EBADF or ECONNREFUSED), or, if it is not
-- the main one, when it is told that it is not needed (TIMED_OUT); the process is aborted only for
-- an error that is none of these three.
pub join_thread_pool-Allowed :
    (fuel : ℕ) (p : Process) (is_main : Bool) (s : Thread) (j : Joined)
    → join_thread_pool fuel p is_main s ≡ done j
    → Allowed is_main j
unfolding join_thread_pool
join_thread_pool-Allowed fuel p is_main s j e =
    Ends-done (Allowed is_main) (join_thread_pool fuel p is_main s) (loop-Allowed fuel p is_main _)
      e
