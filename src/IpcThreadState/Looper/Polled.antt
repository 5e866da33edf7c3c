-- ===== src/IpcThreadState/Looper/Polled.antt =====
-- handlePolledCommands of native/IPCThreadState.cpp once the descriptor of the driver is closed.
use learn_node.Base.{ℕ, zero, suc, ◌≡◌, refl, false}
use learn_node.Status.{ebadf}
use learn_node.IpcThreadState.{Thread, done, out_of_fuel, is_nil}
use learn_node.IpcThreadState.Driver.{talk_with_driver}
use learn_node.IpcThreadState.Execute.{Process}
use learn_node.IpcThreadState.Looper.{get_and_execute_command, handle_polled_commands}

closed-get :
    (fuel : ℕ) (p : Process) (s : Thread)
    → s.driver_open ≡ false
    → get_and_execute_command fuel p s ≡ done (ebadf, s)
unfolding get_and_execute_command talk_with_driver
closed-get fuel p s shut = simp shut refl

-- Once the driver's descriptor is closed while a message waits, handlePolledCommands goes round for
-- ever: no number of rounds ends its loop, since getAndExecuteCommand fails before it reads.
pub handle_polled_commands-spins :
    (fuel : ℕ) (p : Process) (s : Thread)
    → s.driver_open ≡ false
    → is_nil s.input ≡ false
    → handle_polled_commands fuel p s ≡ out_of_fuel
unfolding handle_polled_commands
handle_polled_commands-spins zero p s shut unread = refl
handle_polled_commands-spins (suc fuel) p s shut unread =
    rw (closed-get fuel p s shut, unread) (handle_polled_commands-spins fuel p s shut unread)
