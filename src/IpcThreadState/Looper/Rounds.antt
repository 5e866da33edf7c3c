-- ===== src/IpcThreadState/Looper/Rounds.antt =====
-- The loop of joinThreadPool in native/IPCThreadState.cpp ends or waits for the driver.
use learn_node.Base.{
  ℕ, zero, suc, ◌+◌, ◌≤◌, ◌<◌, ◌≡◌, refl, ◌≢◌, inl, inr, Bool, true, false, not, ◌&&◌, List, [],
  ◌∷◌, Bool-cases, if◌then◌else◌, arith,
}
use learn_node.Status.{Status, is_negative}
use learn_node.IpcThreadState.{bc_exit_looper, Message, Thread, Run, out_of_fuel, write}
use learn_node.IpcThreadState.Driver.{talk_with_driver}
use learn_node.IpcThreadState.Driver.Rounds.{
  rounds, left, is_ebadf, Within, Within-bind, Within-if, Within-weaken, Within-out_of_fuel,
  talk-Within, nothing, talk-ends,
}
use learn_node.IpcThreadState.Execute.{
  Process, execute_command, wait_for_response, status_and_thread,
}
use learn_node.IpcThreadState.Execute.Commands.{Tame, rounds_of, execute-Within}
use learn_node.IpcThreadState.Execute.Wait.{wait-Within, rounds_left}
use learn_node.IpcThreadState.Looper.{
  nested_wait, after_command, on_command, after_talk, get_and_execute_command,
  process_pending_derefs, is_timed_out, is_disconnected, Joined, leave_pool, after_round, pool_loop,
  join_thread_pool,
}

-- One more than what is left, unless the descriptor was closed.
progress : Status × Thread → ℕ
progress (err, s) = rounds s + (if is_ebadf err then 0 else 1)

module _ (fuel : ℕ) (p : Process) (tame : Tame p) where
  nested-Within :
      (k : ℕ) → k < fuel → (t : Thread) → rounds t ≤ k → Within rounds_of k (nested_wait fuel p t)
  nested-Within k less t b =
      Within-bind rounds_left rounds_of k k (wait_for_response fuel p false false t)
        status_and_thread (wait-Within fuel p tame k false false t b less) (λ w c. c)

  command-progress :
      (n : ℕ) (result : Status) (ms : List Message) (s : Thread)
      → n < suc fuel
      → s.input ≡ ms
      → left (result, s) ≤ n
      → is_negative result ≡ false
      → Within progress n (on_command fuel p result ms s)
  unfolding on_command after_command progress
  command-progress n result [] s less e h works = ground arith
  command-progress zero result (m ∷ ms) s less e h works = absurd (ground arith)
  command-progress (suc k) result (m ∷ ms) s less e h works =
      Within-bind rounds_of progress k (suc k)
        (execute_command p (nested_wait fuel p) m (record s { input = ms })) _
        (execute-Within p tame (nested_wait fuel p) k (nested-Within k (omega arith)) m
          (record s { input = ms }) (ground arith))
        (λ r b. ground arith)

  talk-progress :
      (n : ℕ) (r : Status × Thread)
      → n < suc fuel
      → left r ≤ n
      → Within progress n (after_talk fuel p r)
  unfolding after_talk progress
  talk-progress n (result, s) less h = elim (Bool-cases (is_negative result)) [
    | inl fails ↦ rw fails (ground arith)
    | inr works ↦ rw works (command-progress n result s.input s less refl h works)
  ]

  get-progress :
      (n : ℕ) (s : Thread)
      → rounds s ≤ n
      → n < suc fuel
      → Within progress n (get_and_execute_command fuel p s)
  unfolding get_and_execute_command
  get-progress n s h less =
      Within-bind left progress n n (talk_with_driver true s) _
        (Within-weaken left (rounds s) n (talk_with_driver true s) h (talk-Within s))
        (λ r b. talk-progress n r less b)

leave-ends : (result : Status) (s : Thread) → Within nothing 0 (leave_pool result s)
unfolding leave_pool
leave-ends result s =
    Within-bind nothing nothing 0 0 (talk_with_driver false (write bc_exit_looper s)) _
      (talk-ends false (write bc_exit_looper s)) (λ r b. omega arith)

round-ends :
    (is_main : Bool) (again : Thread → Run Joined) (n : ℕ)
    → ((t : Thread) → rounds t < n → Within nothing 0 (again t))
    → (r : Status × Thread) → progress r ≤ n
    → Within nothing 0 (after_round is_main again r)
unfolding after_round progress
round-ends is_main again n h (result, s) b = elim (Bool-cases (is_disconnected result)) [
  | inl closed ↦
      Within-if nothing 0
        (is_negative result && not (is_timed_out result) && not (is_disconnected result)) _ _
        (omega arith)
        (Within-if nothing 0 (is_timed_out result && not is_main) _ _ (leave-ends result s)
          (simp closed (leave-ends result s)))
  | inr open_ ↦
      Within-if nothing 0
        (is_negative result && not (is_timed_out result) && not (is_disconnected result)) _ _
        (omega arith)
        (Within-if nothing 0 (is_timed_out result && not is_main) _ _ (leave-ends result s)
          (simp open_ (h s (ground arith))))
]

process_pending_derefs-rounds : (s : Thread) → rounds (process_pending_derefs s) ≡ rounds s
unfolding process_pending_derefs
process_pending_derefs-rounds s = ground arith

loop-ends :
    (fuel n : ℕ) (p : Process) (is_main : Bool) (s : Thread)
    → Tame p
    → rounds s ≤ n
    → n < fuel
    → Within nothing 0 (pool_loop fuel p is_main s)
unfolding pool_loop
loop-ends zero n p is_main s tame h less = absurd (omega arith)
loop-ends (suc fuel) n p is_main s tame h less =
    Within-bind progress nothing n 0 (get_and_execute_command fuel p (process_pending_derefs s)) _
      (get-progress fuel p tame n (process_pending_derefs s)
        (rw (process_pending_derefs-rounds s) h) less)
      (round-ends is_main _ n
        (λ t b. loop-ends fuel (rounds t) p is_main t tame (omega arith) (omega arith)))

-- The loop of a thread of the pool ends, or waits for the driver: one round for each answer that
-- the driver has still to give, for each message in those answers and for each message that waits,
-- and one more, are enough fuel, where the objects and the proxies of the process end and add
-- nothing to those rounds.
pub join_thread_pool-terminates :
    (fuel : ℕ) (p : Process) (is_main : Bool) (s : Thread)
    → Tame p
    → rounds s < fuel
    → join_thread_pool fuel p is_main s ≢ out_of_fuel
unfolding join_thread_pool
join_thread_pool-terminates fuel p is_main s tame less =
    Within-out_of_fuel nothing 0 (join_thread_pool fuel p is_main s)
      (loop-ends fuel (rounds s) p is_main _ tame (omega arith) less)
