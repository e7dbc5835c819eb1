-- ===== src/Fsm.antt =====
-- metadata/fsm: the state machine that every metadata replica runs.
pub mod Types
pub mod Commands
pub mod State
pub mod Reads
pub mod Handlers
pub mod Apply
pub mod Invariant
pub mod Scans
pub mod Uploads
pub mod Replicas
pub mod Accepts
pub mod Resolve
pub mod History
pub mod Snapshot
pub mod Propose
