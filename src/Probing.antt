-- ===== src/Probing.antt =====
-- worker/probing: one probe of one endpoint.
pub mod Redirects
pub mod BodyCap
pub mod FailureClasses
pub mod GuardPin
pub mod Timing
pub mod Probe
