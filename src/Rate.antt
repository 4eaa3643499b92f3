-- ===== src/Rate.antt =====
-- gauth/rate/limiter.py: the limiters that report a quota with every answer. Times and durations
-- are microseconds.
pub mod SlidingWindow
mod Tests
use gauth_py.Base.{ℕ, Bool, true, Option, none, some, String, ltb, ◌==◌, max, if◌then◌else◌}
use gauth_py.Base.Int.{ℤ}
use gauth_py.Core.Exceptions.{Result, ok, raise, value_error}

-- The fields that the limiters in memory read.
pub record RateLimitConfig : Type 0 where
  pub rate : ℕ
  pub window : ℕ
  pub burst_size : ℕ
  pub cleanup_interval : ℕ

-- `__post_init__`: a burst size that is not given, or is below the rate, is raised.
unfoldable pub config_init : ℕ → ℕ → Option ℕ → ℕ → Result RateLimitConfig
config_init rate window burst_size cleanup_interval =
    if rate == 0
    then raise (value_error "Rate must be positive")
    else if window == 0
    then raise (value_error "Window must be positive")
    else let given : ℕ = elim burst_size [ none ↦ max rate 10 | some b ↦ b ] in
      ok (record {
        rate = rate;
        window = window;
        burst_size = if ltb given rate then rate else given;
        cleanup_interval = cleanup_interval;
      })

pub record RateLimitQuota : Type 0 where
  pub allowed : Bool
  pub remaining : ℤ
  pub reset_time : ℕ
  pub retry_after : Option ℕ
