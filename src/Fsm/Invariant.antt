-- ===== src/Fsm/Invariant.antt =====
-- What every log entry keeps.
pub mod Keys
pub mod Stubs
pub mod Normal
pub mod Links
pub mod Log
pub mod Atomic
pub mod Checksum
