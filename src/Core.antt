-- ===== src/Core.antt =====
-- gauth/core: the protocol's types, its exceptions and the `GAuth` object.
pub mod Types
pub mod Exceptions
pub mod Interfaces
pub mod Gauth
