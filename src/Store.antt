-- ===== src/Store.antt =====
-- internal/store/store.go
pub mod Records
pub mod Inserts
pub mod Atomicity
pub mod Batches
pub mod Success
pub mod Keyed
pub mod Identity
pub mod Keeping
pub mod Steps
pub mod Invariant
pub mod Growth
pub mod Bags
pub mod Removing
pub mod Privacy
pub mod Redacted
pub mod Queries
pub mod Promised
pub mod Answers
pub mod Lookups
pub mod Found
pub mod RoundTrip
pub mod LogTrip
pub mod MetricTrip
pub mod Numbers
pub mod NotANumber
pub mod Schema
pub mod Prepared
pub mod Opening
pub mod Closing
pub mod Retention
pub mod Expiry
pub mod Oldest
pub mod Eviction
pub mod MaxSize
pub mod Emptied
