-- ===== src/Fsm/Handlers.antt =====
-- The command handlers of metadata/fsm/fsm.go, by the registry that they change. A handler
-- returns the new state and its error, if it has one.
pub mod Nodes
pub mod Files
pub mod Chunks
pub mod Jobs
