-- ===== src/Rate/Tests.antt =====
-- Runs of the limiters with quotas.
use mathlib.Core.List.{lookup}
use gauth_py.Base.{
  ℕ, ◌+◌, ◌≤◌, ◌<◌, ◌≡◌, refl, Bool, true, false, List, [], ◌∷◌, Option, none, some, String,
  String_discrete, arith, length,
}
use gauth_py.Core.Exceptions.{ok}
use gauth_py.Rate.{RateLimitConfig, config_init}
use gauth_py.Rate.SlidingWindow.{SlidingWindowLimiter, find_window}
use gauth_py.Rate.SlidingWindow.Retry.{Bounded}

abbrev two_in_ten : RateLimitConfig
two_in_ten = record { rate = 2; window = 10; burst_size = 10; cleanup_interval = 300 }

burst_raised :
    config_init 20 5 (some 3) 300
    ≡ ok (record { rate = 20; window = 5; burst_size = 20; cleanup_interval = 300 })
unfolding config_init
burst_raised = refl

abbrev calls : List (String × ℕ × ℕ)
calls = ("a", 1, 1) ∷ ("a", 4, 4) ∷ []

abbrev full : SlidingWindowLimiter
full = record { config = two_in_ten; windows = ("a", 1 ∷ 4 ∷ []) ∷ ("b", 2 ∷ []) ∷ [] }

full-Bounded : Bounded full
unfolding Bounded find_window lookup
full-Bounded identifier = elim (String_discrete identifier "a") [
  | yes p ↦ ground arith
  | no p ↦ ground arith
]

full-IsDict : gauth_py.Base.Dict.IsDict String_discrete full.windows
unfolding lookup String_discrete
full-IsDict = (refl, (refl, tt))
