-- ===== src/Assertions.antt =====
-- core/assertions and worker/probing/assertions: the assertions on a response body.
pub mod JsonPath
pub mod Json
pub mod Evaluate
