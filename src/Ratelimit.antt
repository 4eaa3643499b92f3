-- ===== src/Ratelimit.antt =====
-- gauth/ratelimit/limiter.py: the three limiters that keep their state in memory. Each method
-- holds the lock throughout; `now` is the clock inside it, in microseconds.
pub mod Times
pub mod TokenBucket
pub mod SlidingWindow
pub mod FixedWindow
mod Tests
