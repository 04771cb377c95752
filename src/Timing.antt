-- ===== src/Timing.antt =====
-- Latencies: Dispatch is `timing_plan` of backend/timing.py, Alignment `latency_compensation_plan` of
-- backend/plugin_latency.py.
pub mod Dispatch
pub mod Alignment
mod Tests
