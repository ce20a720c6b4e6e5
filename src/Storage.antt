-- ===== src/Storage.antt =====
-- worker/storage: what is kept of a probe.
pub mod OutcomeMapping
pub mod Periods
pub mod Partitions
pub mod Expiry
pub mod Retention
