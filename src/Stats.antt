-- ===== src/Stats.antt =====
-- core/stats: latency histograms, percentiles and window planning.
pub mod Histogram
pub mod Window
