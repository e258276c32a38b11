-- ===== src/Metrics.antt =====
-- backend/application/services/metrics_service.py
pub mod Delta
pub mod Window
pub mod Accumulator
