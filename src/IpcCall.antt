-- ===== src/IpcCall.antt =====
-- What a proxy asks of the IPCThreadState of its thread (native/BpBinder.cpp calls these methods of
-- native/IPCThreadState.cpp), as values, in the order of the calls. A handle is a number below
-- 2 ^ 31, and a proxy is named by its address.
use learn_node.Base.{ℕ}

pub data IpcCall : Type 0 where
  inc_strong_handle dec_strong_handle inc_weak_handle dec_weak_handle : ℕ → IpcCall
  request_death_notification clear_death_notification : ℕ → ℕ → IpcCall
  expunge_handle : ℕ → ℕ → IpcCall
  flush_commands : IpcCall
