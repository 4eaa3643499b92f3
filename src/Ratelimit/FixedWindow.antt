-- ===== src/Ratelimit/FixedWindow.antt =====
-- gauth/ratelimit/limiter.py: `FixedWindowRateLimiter`. Times are whole seconds: `int` drops the
-- rest of a second from the clock and from the window before they are used. Window starts are
-- compared as seconds since the epoch.
pub mod Bound
use mathlib.Core.List.{lookup}
use native.Mathlib.Decide.{ℕ_discrete}
use gauth_py.Base.{
  ℕ, ◌+◌, ◌*◌, ◌/◌, Bool, true, false, List, [], ◌∷◌, Option, none, some, String, String_discrete,
  ltb, ◌==◌, keep, if◌then◌else◌,
}
use gauth_py.Base.Dict.{insert, contains, remove_all, keys}
use gauth_py.Core.Exceptions.{Act, ok, raise, other_error}

pub record FixedWindowRateLimiter : Type 0 where
  pub max_requests : ℕ
  pub time_window : ℕ
  pub windows : List (String × List (ℕ × ℕ))

unfoldable pub init : ℕ → ℕ → FixedWindowRateLimiter
init max_requests time_window = record {
  max_requests = max_requests;
  time_window = time_window;
  windows = [];
}

unfoldable pub get_window_start : ℕ → ℕ → ℕ
get_window_start time_window now = now / time_window * time_window

unfoldable pub find_windows : FixedWindowRateLimiter → String → List (ℕ × ℕ)
unfolding lookup
find_windows l key = elim (lookup String_discrete key l.windows) [ none ↦ [] | some w ↦ w ]

unfoldable pub count_at : ℕ → List (ℕ × ℕ) → ℕ
unfolding lookup
count_at window_start w = elim (lookup ℕ_discrete window_start w) [ none ↦ 0 | some n ↦ n ]

-- The clean-up of old windows, the entry of the present one, and the test of its count.
unfoldable pub admit : ℕ → ℕ → List (ℕ × ℕ) → Bool × List (ℕ × ℕ)
unfolding remove_all insert count_at
admit max_requests window_start w =
    let expired_windows = keys (keep (λ e. ltb e.0 window_start) w) in
    let current = remove_all ℕ_discrete expired_windows w in
    let n = count_at window_start current in
    if ltb n max_requests
    then (true, insert ℕ_discrete window_start (n + 1) current)
    else (false, insert ℕ_discrete window_start n current)

-- A window of no whole second fails on the division, before anything is stored.
unfoldable pub allow : String → ℕ → Act FixedWindowRateLimiter Bool
allow key now l =
    let (allowed, w) =
      admit l.max_requests (get_window_start l.time_window now) (find_windows l key) in
    if l.time_window == 0
    then (raise (other_error "integer division or modulo by zero"), l)
    else (ok allowed, record l { windows = insert String_discrete key w l.windows })

unfoldable pub reset : String → Act FixedWindowRateLimiter (Unit {0})
unfolding contains
reset key l =
    if contains String_discrete key l.windows
    then (ok tt, record l { windows = insert String_discrete key [] l.windows })
    else (ok tt, l)
