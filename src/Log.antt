-- ===== src/Log.antt =====
-- What the event store keeps: theorems about src/esaa/store.py.
pub mod Lines
pub mod Append
pub mod Verify
pub mod Read
pub mod Accepted
pub mod Chained
pub mod Reread
pub mod Roundtrip
pub mod Transaction
mod Samples
