-- ===== src/Stats.antt =====
-- internal/stats: the collector and its histograms.
pub mod Histogram
pub mod Collector
