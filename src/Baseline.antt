-- ===== src/Baseline.antt =====
-- scripts/run-performance-baseline.py: the gates for k6 metrics and the read baseline.
pub mod Metric
pub mod Summary
pub mod Sample
pub mod Aggregate
