-- ===== src/Scheduling.antt =====
-- worker/scheduler: what paces the scheduler.
pub mod LogBackoff
pub mod ProbePool
pub mod Runtime
pub mod Recorder
pub mod Slot
pub mod Tick
pub mod Loader
