-- ===== src/Service.antt =====
-- src/esaa/service_core.py: how the service commits events. What other processes do to the store
-- while it works or sleeps is an argument (`others`).
mod Retry
mod Seal
mod Commit
mod Views
pub use Retry.{Tried}
unfoldable pub use Retry.*
pub use Commit.{Accepted, Sealed}
unfoldable pub use Seal.*
unfoldable pub use Commit.*
pub use Views.{Workspace, Saved, Projected, Verdict, Until, Replayed}
unfoldable pub use Views.*
pub mod Stale
pub mod Settled
pub mod Stored
pub mod Sealing
pub mod Preview
pub mod Projecting
mod Samples
mod ViewSamples
