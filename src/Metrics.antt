-- ===== src/Metrics.antt =====
-- metrics/: the measurements, their translation to points, and the exporter.
pub mod Measurements
pub mod Exporter
pub mod Conserved
pub mod Examples
