-- ===== src/Resilience.antt =====
-- gauth/resilience: patterns.py and circuit.py.
pub mod Retry
pub mod Delays
pub mod Protected
pub mod Bulkhead
mod Tests
