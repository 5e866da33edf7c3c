-- ===== src/ServiceManager/Wire/Served.antt =====
-- A service that is registered over a message is found over another (native/service_manager.c).
use learn_node.BinderIo.{BinderIo}
