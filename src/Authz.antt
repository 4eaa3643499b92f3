-- ===== src/Authz.antt =====
-- gauth/authz: policies, the store that keeps them, the engine that decides by them, and their
-- conditions.
pub mod Types
pub mod Policy
pub mod Store
pub mod Engine
pub mod Conditions
mod Tests
