-- ===== src/Store.antt =====
-- src/esaa/store.py: the event store.
mod Lines
mod Format
mod Chain
mod Parse
mod Append
unfoldable pub use Lines.*
pub use Format.{RunnerBlock, runner_block, malformed, block_of, RawEvent, Codec, IsFaithful}
unfoldable pub use Format.{raw_of}
unfoldable pub use Chain.*
unfoldable pub use Parse.*
unfoldable pub use Append.*
