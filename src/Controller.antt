-- ===== src/Controller.antt =====
-- controller/health.py, the reconciliation cycle of controller/main.py, and the events that the
-- periodic loops log.
pub mod Runtime
pub mod Cycle
pub mod Reported
pub mod Watch
pub mod Capped
