-- ===== src/Value.antt =====
-- value.py: snapshots and their canonical encoding.
pub mod Snapshot
pub mod Reach
pub mod Reachable
pub mod Decimal
pub mod Digits
pub mod Encode
pub mod Decode
pub mod RoundTrip
pub mod Payload
pub mod Classes
pub mod Checks
pub mod Validate
pub mod Valid
pub mod Serialize
pub mod Graphs
pub mod Ascending
pub mod Canonical
pub mod Exact
mod Tests
mod ValidTests
