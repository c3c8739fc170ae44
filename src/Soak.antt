-- ===== src/Soak.antt =====
-- The software fault-injection trial of soak/run_software.py.
pub mod Plan
pub mod Batches
pub mod Site
pub mod Trial
pub mod Run
mod Tests
