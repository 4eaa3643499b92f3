-- ===== src/Ratelimit/TokenBucket.antt =====
-- gauth/ratelimit/limiter.py: `TokenBucketRateLimiter`. The source counts tokens by floats and
-- adds `elapsed / window * max_requests` of them; here a token is `time_window` units, so that
-- the same sums are exact integers. A bucket's level may be negative: the clock can be set back.
pub mod Bound
use mathlib.Core.List.{lookup}
use gauth_py.Base.{
  ℕ, ◌*◌, Bool, true, false, List, [], Option, none, some, String, String_discrete, ◌==◌,
  if◌then◌else◌,
}
use gauth_py.Base.Int.{ℤ, pos, sub_ℕ, ltb_ℤ, ◌+ℤ◌, ◌-ℤ◌}
use gauth_py.Base.Dict.{insert, contains}
use gauth_py.Core.Exceptions.{Act, Result, ok, raise, other_error}

pub record Bucket : Type 0 where
  pub tokens : ℤ
  pub last_update : ℕ

pub record TokenBucketRateLimiter : Type 0 where
  pub max_requests : ℕ
  pub time_window : ℕ
  pub burst_limit : ℕ
  pub buckets : List (String × Bucket)

unfoldable pub init : ℕ → ℕ → ℕ → TokenBucketRateLimiter
init max_requests time_window burst_limit = record {
  max_requests = max_requests;
  time_window = time_window;
  burst_limit = burst_limit;
  buckets = [];
}

unfoldable pub full_bucket : TokenBucketRateLimiter → ℕ → Bucket
full_bucket l now = record { tokens = pos (l.max_requests * l.time_window); last_update = now }

abbrev min_ℤ : ℤ → ℤ → ℤ
min_ℤ a b = if ltb_ℤ b a then b else a

-- The two assignments to the bucket that add the tokens of the time elapsed.
unfoldable pub refill : TokenBucketRateLimiter → Bucket → ℕ → Bucket
unfolding ◌+ℤ◌
refill l b now = record {
  tokens =
      min_ℤ (pos (l.max_requests * l.time_window))
        (b.tokens +ℤ sub_ℕ (now * l.max_requests) (b.last_update * l.max_requests));
  last_update = now;
}

-- The test `tokens >= 1` and the decrement, after the refill.
unfoldable pub take_token : TokenBucketRateLimiter → Bucket → ℕ → Bool × Bucket
unfolding refill ◌-ℤ◌
take_token l b now =
    let r = refill l b now in
    if ltb_ℤ r.tokens (pos l.time_window)
    then (false, r)
    else (true, record r { tokens = r.tokens -ℤ pos l.time_window })

unfoldable pub find_bucket : TokenBucketRateLimiter → String → ℕ → Bucket
unfolding lookup full_bucket
find_bucket l key now = elim (lookup String_discrete key l.buckets) [
  | none ↦ full_bucket l now
  | some b ↦ b
]

-- The division by an empty window fails after the bucket is there.
unfoldable pub allow : String → ℕ → Act TokenBucketRateLimiter Bool
allow key now l =
    let b = find_bucket l key now in
    let (allowed, b') = take_token l b now in
    if l.time_window == 0
    then (
      raise (other_error "float division by zero"),
      record l { buckets = insert String_discrete key b l.buckets },
    )
    else (ok allowed, record l { buckets = insert String_discrete key b' l.buckets })

unfoldable pub reset : String → ℕ → Act TokenBucketRateLimiter (Unit {0})
unfolding contains full_bucket insert
reset key now l =
    if contains String_discrete key l.buckets
    then (ok tt, record l { buckets = insert String_discrete key (full_bucket l now) l.buckets })
    else (ok tt, l)
