-- ===== src/BinderDriver/Nodes/Run.antt =====
-- The counts of a node of driver/binder.c through any sequence of operations.
use learn_node.Base.{Bool, false, []}
use learn_node.BinderDriver.{binder_new_node}
use learn_node.BinderDriver.Nodes.{Life}

abbrev pub fresh : Bool → Life
fresh is_context_mgr = record {
  shared = record { node = binder_new_node is_context_mgr; refs = [] };
  strong_holds = 0;
  weak_holds = 0;
  released = false;
}
