-- ===== src/IpcThreadState/Looper.antt =====
-- The threads of the pool in native/IPCThreadState.cpp: getAndExecuteCommand, processPendingDerefs,
-- joinThreadPool, the polling calls, stopProcess and the end of a thread.
pub mod Leave
pub mod Rounds
pub mod Polled
mod Tests
use learn_node.Base.{
  ℕ, zero, suc, ◌≡◌, Bool, true, false, not, ◌&&◌, ◌||◌, List, [], ◌∷◌, ◌++◌, map, if◌then◌else◌,
}
use learn_node.Status.{Status, no_error, timed_out, ebadf, econnrefused, is_negative}
use learn_node.IpcThreadState.{
  bc_register_looper, bc_enter_looper, bc_exit_looper, Message, Outside, dec_weak, dec_strong,
  set_sched_foreground, Thread, Run, done, blocked, out_of_fuel, ◌>>=◌, write, outwards, is_nil,
}
use learn_node.IpcThreadState.Driver.{talk_with_driver, flush_commands}
use learn_node.IpcThreadState.Execute.{
  Process, execute_command, wait_for_response, status_and_thread,
}

-- A wait inside a command, with `fuel` rounds.
abbrev pub nested_wait : ℕ → Process → Thread → Run (Status × Thread)
nested_wait fuel p s = wait_for_response fuel p false false s >>= status_and_thread

module _ (fuel : ℕ) (p : Process) where
  after_command : Status × Thread → Run (Status × Thread)
  after_command (result, s) = done (result, outwards set_sched_foreground s)

  on_command : Status → List Message → Thread → Run (Status × Thread)
  unfolding after_command
  on_command result [] s = done (result, s)
  on_command result (m ∷ ms) s =
      execute_command p (nested_wait fuel p) m (record s { input = ms }) >>= after_command

  after_talk : Status × Thread → Run (Status × Thread)
  unfolding on_command
  after_talk (result, s) =
      if is_negative result then done (result, s) else on_command result s.input s

  pub get_and_execute_command : Thread → Run (Status × Thread)
  unfolding after_talk
  get_and_execute_command s = talk_with_driver true s >>= after_talk

pub process_pending_derefs : Thread → Thread
process_pending_derefs s =
    if is_nil s.input
    then record s {
      pending_weak = [];
      pending_strong = [];
      outside = s.outside ++ map dec_weak s.pending_weak ++ map dec_strong s.pending_strong;
    }
    else s

abbrev pub is_timed_out : Status → Bool
is_timed_out timed_out = true
is_timed_out _ = false

-- The condition of the loop of joinThreadPool, negated.
abbrev pub is_disconnected : Status → Bool
is_disconnected ebadf = true
is_disconnected econnrefused = true
is_disconnected _ = false

-- joinThreadPool returns, or aborts the process.
pub data Joined : Type 0 where
  left_pool : Status → Thread → Joined
  aborted : Status → Joined

leave_pool : Status → Thread → Run Joined
leave_pool result s =
    talk_with_driver false (write bc_exit_looper s) >>= λ r. done (left_pool result r.1)

-- The body of the loop behind getAndExecuteCommand; `again` is the rest of the loop.
pub after_round : Bool → (Thread → Run Joined) → Status × Thread → Run Joined
unfolding leave_pool
after_round is_main again (result, s) =
    if is_negative result && not (is_timed_out result) && not (is_disconnected result)
    then done (aborted result)
    else if is_timed_out result && not is_main
    then leave_pool result s
    else if is_disconnected result
    then leave_pool result s
    else again s

pub pool_loop : ℕ → Process → Bool → Thread → Run Joined
unfolding after_round get_and_execute_command process_pending_derefs
pool_loop zero p is_main s = out_of_fuel
pool_loop (suc fuel) p is_main s =
    get_and_execute_command fuel p (process_pending_derefs s)
    >>= after_round is_main (λ t. pool_loop fuel p is_main t)

pub join_thread_pool : ℕ → Process → Bool → Thread → Run Joined
unfolding pool_loop
join_thread_pool fuel p is_main s =
    let entering = if is_main then bc_enter_looper else bc_register_looper in
    pool_loop fuel p is_main (outwards set_sched_foreground (write entering s))

-- The status of setupPolling; the descriptor that it gives is the process's.
pub setup_polling : Thread → Status × Thread
setup_polling s = if s.driver_open then (no_error, write bc_enter_looper s) else (ebadf, s)

after_polled : Status × Thread → Run (Status × Thread)
unfolding process_pending_derefs
after_polled (result, s) = flush_commands (process_pending_derefs s) >>= λ s'. done (result, s')

again_polled : (Thread → Run (Status × Thread)) → Status × Thread → Run (Status × Thread)
unfolding after_polled
again_polled again (result, s) = if is_nil s.input then after_polled (result, s) else again s

pub handle_polled_commands : ℕ → Process → Thread → Run (Status × Thread)
unfolding again_polled get_and_execute_command
handle_polled_commands zero p s = out_of_fuel
handle_polled_commands (suc fuel) p s =
    get_and_execute_command fuel p s >>= again_polled (λ t. handle_polled_commands fuel p t)

pub stop_process : Thread → Run Thread
stop_process s = flush_commands s >>= λ s'. done (record s' { driver_open = false })
