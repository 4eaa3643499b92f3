-- ===== src/Ratelimit/Tests.antt =====
-- Runs of the rate limiters.
use mathlib.Core.List.{lookup}
use gauth_py.Base.{
  ℕ, ◌+◌, ◌*◌, ◌-◌, ◌≤◌, ◌<◌, ◌≡◌, refl, Bool, true, false, List, [], ◌∷◌, String, String_discrete,
  arith, length, map,
}
use gauth_py.Core.Exceptions.{ok}
use gauth_py.Ratelimit.Times.{Ordered}
use gauth_py.Ratelimit.TokenBucket
use gauth_py.Ratelimit.TokenBucket.Bound.{granted as bucket_granted, granted-le}
use gauth_py.Ratelimit.FixedWindow
use gauth_py.Ratelimit.FixedWindow.Bound.{granted, granted_in_fixed_window, Forward}
use gauth_py.Ratelimit.SlidingWindow
use gauth_py.Ratelimit.SlidingWindow.Window.{answers, specified, init-answers, recent}
use gauth_py.Ratelimit.SlidingWindow.Bound.{granted_times, granted_in_window}

abbrev calls : List (String × ℕ)
calls = ("a", 1) ∷ ("b", 2) ∷ ("a", 3) ∷ ("a", 4) ∷ ("a", 15) ∷ []

calls-Ordered : Ordered (λ c. c.1) 0 calls 20
calls-Ordered =
    (omega arith, (omega arith, (omega arith, (omega arith, (omega arith, omega arith)))))

abbrev two_in_ten : TokenBucket.TokenBucketRateLimiter
two_in_ten = record { max_requests = 2; time_window = 10; burst_limit = 4; buckets = [] }

granted-le_example : bucket_granted "a" two_in_ten calls * 10 ≤ 2 * 10 + (20 - 0) * 2
unfolding lookup
granted-le_example = granted-le two_in_ten "a" calls 0 20 (omega arith) refl calls-Ordered

init-answers_example : answers (SlidingWindow.init 2 10) calls ≡ map ok (specified 2 10 [] calls)
init-answers_example = init-answers 2 10 calls 0 20 calls-Ordered

answers_run :
    answers (SlidingWindow.init 2 10) calls ≡ ok true ∷ ok true ∷ ok true ∷ ok false ∷ ok true ∷ []
unfolding answers SlidingWindow.init SlidingWindow.allow String_discrete SlidingWindow.admit
    SlidingWindow.find_requests gauth_py.Base.Dict.insert
answers_run = refl

granted_in_window_example :
    length (recent 10 22 (granted_times "a" (SlidingWindow.init 2 10) calls)) ≤ 2
granted_in_window_example = granted_in_window 2 10 calls 0 20 22 "a" calls-Ordered (omega arith)

calls-Forward : Forward "a" 0 10 0 calls 10
unfolding FixedWindow.get_window_start
calls-Forward =
    (omega arith, (omega arith, (omega arith, (omega arith, (omega arith, omega arith)))))

granted_in_fixed_window_example : granted "a" 0 (FixedWindow.init 2 10) calls ≤ 2
granted_in_fixed_window_example =
    granted_in_fixed_window "a" 0 2 10 calls 0 10 (omega arith) calls-Forward
