-- ===== src/Ratelimit/SlidingWindow.antt =====
-- gauth/ratelimit/limiter.py: `SlidingWindowRateLimiter`. A key's deque holds the times of the
-- requests that were let through, oldest first.
pub mod Window
pub mod Bound
use mathlib.Core.List.{lookup}
use gauth_py.Base.{
  ℕ, ◌+◌, Bool, true, false, List, [], ◌∷◌, ◌++◌, Option, none, some, String, String_discrete, ltb,
  length, if◌then◌else◌,
}
use gauth_py.Base.Dict.{insert, contains}
use gauth_py.Core.Exceptions.{Act, ok}

pub record SlidingWindowRateLimiter : Type 0 where
  pub max_requests : ℕ
  pub time_window : ℕ
  pub requests : List (String × List ℕ)

unfoldable pub init : ℕ → ℕ → SlidingWindowRateLimiter
init max_requests time_window = record {
  max_requests = max_requests;
  time_window = time_window;
  requests = [];
}

-- The loop that pops requests while the first is older than `now - time_window`.
unfoldable pub pop_old : ℕ → ℕ → List ℕ → List ℕ
pop_old window now [] = []
pop_old window now (r ∷ rs) =
    let rest = pop_old window now rs in if ltb (r + window) now then rest else r ∷ rs

-- `self.requests[key]` of a `defaultdict(deque)`.
unfoldable pub find_requests : SlidingWindowRateLimiter → String → List ℕ
unfolding lookup
find_requests l key = elim (lookup String_discrete key l.requests) [ none ↦ [] | some rs ↦ rs ]

-- The body of `allow` on the deque of the key.
unfoldable pub admit : ℕ → ℕ → ℕ → List ℕ → Bool × List ℕ
unfolding pop_old
admit max_requests window now rs =
    let recent = pop_old window now rs in
    if ltb (length recent) max_requests then (true, recent ++ now ∷ []) else (false, recent)

unfoldable pub allow : String → ℕ → Act SlidingWindowRateLimiter Bool
allow key now l =
    let (allowed, rs) = admit l.max_requests l.time_window now (find_requests l key) in
    (ok allowed, record l { requests = insert String_discrete key rs l.requests })

unfoldable pub reset : String → Act SlidingWindowRateLimiter (Unit {0})
reset key l =
    if contains String_discrete key l.requests
    then (ok tt, record l { requests = insert String_discrete key [] l.requests })
    else (ok tt, l)
