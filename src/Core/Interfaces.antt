-- ===== src/Core/Interfaces.antt =====
-- The abstract classes that `GAuth` is built on: `TokenStore` (gauth/token/store.py),
-- `AuditLogger` (gauth/audit/logger.py) and `RateLimiter` (gauth/ratelimit/limiter.py). An
-- implementation keeps a state of its own, and its methods may raise.
use gauth_py.Base.{ℕ, Bool, Option, String}
use gauth_py.Core.Types.{AccessToken, AuditEvent}
use gauth_py.Core.Exceptions.{Act}

pub record TokenStore : Type 1 where
  pub Tokens : Type 0
  pub store : String → AccessToken → Act Tokens (Unit {0})
  pub get : String → Act Tokens (Option AccessToken)
  pub delete : String → Act Tokens Bool

pub record AuditLogger : Type 1 where
  pub Log : Type 0
  pub log : AuditEvent → Act Log (Unit {0})

pub record RateLimiter : Type 1 where
  pub Limits : Type 0
  pub allow : String → ℕ → Act Limits Bool
