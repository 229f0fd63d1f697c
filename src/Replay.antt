-- ===== src/Replay.antt =====
-- What replaying events through src/esaa/projector.py does to the tasks: theorems about `replay`.
pub mod Evolution
pub mod Rule
pub mod Immutable
pub mod Ownership
pub mod Trail
pub mod Last
mod Samples
