-- ===== src/Rate/SlidingWindow.antt =====
-- gauth/rate/limiter.py: `SlidingWindowLimiter`. Each method holds the lock throughout; `now` is
-- `time.time()` and `current` is `get_current_time()`, a clock of its own.
pub mod Retry
pub mod Cleanup
use mathlib.Core.List.{lookup}
use gauth_py.Base.{
  ℕ, ◌+◌, ◌-◌, Bool, true, false, List, [], ◌∷◌, ◌++◌, Option, none, some, String, String_discrete,
  ltb, leb, length, keep, map, if◌then◌else◌,
}
use gauth_py.Base.Int.{ℤ, pos, sub_ℕ}
use gauth_py.Base.Dict.{insert, contains, remove_all, keys}
use gauth_py.Rate.{RateLimitConfig, RateLimitQuota}

pub record SlidingWindowLimiter : Type 0 where
  pub config : RateLimitConfig
  pub windows : List (String × List ℕ)

unfoldable pub init : RateLimitConfig → SlidingWindowLimiter
init config = record { config = config; windows = [] }

-- The loop that drops timestamps while the first is at most `now - window`.
unfoldable pub drop_old : ℕ → ℕ → List ℕ → List ℕ
drop_old window now [] = []
drop_old window now (r ∷ rs) =
    let rest = drop_old window now rs in if leb (r + window) now then rest else r ∷ rs

-- The window of an identifier, empty where there is none yet.
unfoldable pub find_window : SlidingWindowLimiter → String → List ℕ
unfolding lookup
find_window l identifier = elim (lookup String_discrete identifier l.windows) [
  | none ↦ []
  | some w ↦ w
]

unfoldable pub set_window : SlidingWindowLimiter → String → List ℕ → SlidingWindowLimiter
set_window l identifier w = record l { windows = insert String_discrete identifier w l.windows }

-- The time until the oldest timestamp is out of the window. An empty window is refused only at a
-- rate of zero, which the configuration does not allow; the source then fails on `window[0]`.
unfoldable pub time_to_wait : RateLimitConfig → ℕ → List ℕ → ℕ
time_to_wait config now [] = 0
time_to_wait config now (oldest ∷ w) = oldest + config.window - now

-- The answer and the window after it.
unfoldable pub admit : RateLimitConfig → ℕ → ℕ → List ℕ → RateLimitQuota × List ℕ
unfolding time_to_wait
admit config now current w =
    if ltb (length w) config.rate
    then (
      record {
        allowed = true;
        remaining = sub_ℕ config.rate (length (w ++ now ∷ []));
        reset_time = current + config.window;
        retry_after = none;
      },
      w ++ now ∷ [],
    )
    else (
      record {
        allowed = false;
        remaining = pos 0;
        reset_time = current + time_to_wait config now w;
        retry_after = some (time_to_wait config now w);
      },
      w,
    )

unfoldable pub allow : String → ℕ → ℕ → SlidingWindowLimiter → RateLimitQuota × SlidingWindowLimiter
unfolding admit drop_old find_window set_window
allow identifier now current l =
    let w = drop_old l.config.window now (find_window l identifier) in
    let (quota, w') = admit l.config now current w in (quota, set_window l identifier w')

unfoldable pub get_remaining : String → ℕ → SlidingWindowLimiter → ℤ × SlidingWindowLimiter
unfolding drop_old set_window
get_remaining identifier now l = elim (lookup String_discrete identifier l.windows) [
  | none ↦ (pos l.config.rate, l)
  | some stored ↦
      let w = drop_old l.config.window now stored in
      (sub_ℕ l.config.rate (length w), set_window l identifier w)
]

unfoldable pub reset : String → SlidingWindowLimiter → SlidingWindowLimiter
unfolding contains set_window
reset identifier l =
    if contains String_discrete identifier l.windows then set_window l identifier [] else l

abbrev pub is_empty : String × List ℕ → Bool
is_empty e = elim e.1 [ [] ↦ true | _ ∷ _ ↦ false ]

-- Every window drops its old timestamps, and those that are empty then go.
unfoldable pub cleanup : ℕ → SlidingWindowLimiter → SlidingWindowLimiter
unfolding drop_old remove_all
cleanup now l =
    let windows = map (λ e. (e.0, drop_old l.config.window now e.1)) l.windows in
    record l { windows = remove_all String_discrete (keys (keep is_empty windows)) windows }
