-- ===== src/Rate/SlidingWindow/Retry.antt =====
-- What the quota promises: the requests remaining, and the time to wait.
use mathlib.Core.List.{lookup}
use gauth_py.Base.{
  ℕ, ◌+◌, ◌≤◌, ◌<◌, ◌≡◌, refl, sym, subst, ◌∙◌, true, List, [], ◌∷◌, some, String, String_discrete,
  arith, Option-cases, inl, inr, length, length-append, if_pos, ite,
}
use gauth_py.Base.Int.{pos, ltb_ℤ}
use gauth_py.Base.Dict.{lookup-insert}
use gauth_py.Rate.{RateLimitConfig}
use gauth_py.Rate.SlidingWindow.{
  SlidingWindowLimiter, init, drop_old, find_window, set_window, admit, allow, get_remaining,
}

find_window-set_window :
    (l : SlidingWindowLimiter) (identifier j : String) (w : List ℕ)
    → find_window (set_window l identifier w) j
      ≡ ite (String_discrete j identifier) w (find_window l j)
unfolding find_window set_window
find_window-set_window l identifier j w =
    ground (arith, lookup-insert String_discrete identifier j w l.windows)

length-drop_old-le : (window now : ℕ) (w : List ℕ) → length (drop_old window now w) ≤ length w
unfolding drop_old
length-drop_old-le window now [] = omega arith
length-drop_old-le window now (r ∷ w) = ground (arith, length-drop_old-le window now w)

-- No window holds more timestamps than the rate.
unfoldable pub Bounded : SlidingWindowLimiter → Type 0
Bounded l = (identifier : String) → length (find_window l identifier) ≤ l.config.rate

allow-Bounded :
    (identifier : String) (now current : ℕ) (l : SlidingWindowLimiter)
    → Bounded l
    → Bounded (allow identifier now current l).1
unfolding Bounded allow
allow-Bounded identifier now current l b j =
    let w = drop_old l.config.window now (find_window l identifier) in
    let f = find_window-set_window l identifier j (admit l.config now current w).1 in
    elim (String_discrete j identifier) [
      | yes p ↦ ground (
        arith,
        f,
        length-append w (now ∷ []),
        length-drop_old-le l.config.window now (find_window l identifier),
        b identifier,
      )
      | no p ↦ ground (arith, f, b j)
    ]

-- Calls for any identifiers, each with the two clocks.
pub allow_all : List (String × ℕ × ℕ) → SlidingWindowLimiter → SlidingWindowLimiter
unfolding allow
allow_all [] l = l
allow_all ((identifier, now, current) ∷ cs) l = allow_all cs (allow identifier now current l).1

allow_all-Bounded :
    (cs : List (String × ℕ × ℕ)) (l : SlidingWindowLimiter) → Bounded l → Bounded (allow_all cs l)
unfolding allow_all
allow_all-Bounded [] l b = b
allow_all-Bounded ((identifier, now, current) ∷ cs) l b =
    allow_all-Bounded cs (allow identifier now current l).1
      (allow-Bounded identifier now current l b)

-- After any calls on a new limiter no identifier has more timestamps than the rate.
pub allow_all-init-Bounded :
    (config : RateLimitConfig) (cs : List (String × ℕ × ℕ)) → Bounded (allow_all cs (init config))
unfolding init Bounded find_window
allow_all-init-Bounded config cs = allow_all-Bounded cs (init config) (λ identifier. omega arith)

retry_admit :
    (config : RateLimitConfig) (now current later current' d : ℕ) (w : List ℕ)
    → 0 < config.rate
    → length w ≤ config.rate
    → (admit config now current w).0.retry_after ≡ some d
    → now + d ≤ later
    → (admit config later current'
        (drop_old config.window later (admit config now current w).1)).0.allowed
      ≡ true
unfolding admit drop_old
retry_admit config now current later current' d [] p b h le = ground arith
retry_admit config now current later current' d (oldest ∷ w) p b h le =
    ground (arith, length-drop_old-le config.window later w)

-- A request that is refused is told how long to wait, and the wait suffices: repeated after that
-- time or later, with no request of the identifier in between, it is allowed.
pub retry_suffices :
    (identifier : String) (now current later current' d : ℕ) (l : SlidingWindowLimiter)
    → 0 < l.config.rate
    → Bounded l
    → (allow identifier now current l).0.retry_after ≡ some d
    → now + d ≤ later
    → (allow identifier later current' (allow identifier now current l).1).0.allowed ≡ true
unfolding allow Bounded
retry_suffices identifier now current later current' d l p b h le =
    let w = drop_old l.config.window now (find_window l identifier) in
    let w' = (admit l.config now current w).1 in
    let bound : length w ≤ l.config.rate =
      omega
        (arith, length-drop_old-le l.config.window now (find_window l identifier), b identifier) in
    let found : find_window (set_window l identifier w') identifier ≡ w' =
      find_window-set_window l identifier identifier w'
      ∙ if_pos (String_discrete identifier identifier) refl w' (find_window l identifier) in
    subst (λ v. (admit l.config later current' (drop_old l.config.window later v)).0.allowed ≡ true)
      (sym found) (retry_admit l.config now current later current' d w p bound h le)

-- Just before a request, the requests said to remain are positive exactly if it will be allowed.
pub get_remaining-allow :
    (identifier : String) (now current : ℕ) (l : SlidingWindowLimiter)
    → 0 < l.config.rate
    → (allow identifier now current l).0.allowed ≡ ltb_ℤ (pos 0) (get_remaining identifier now l).0
unfolding allow get_remaining
get_remaining-allow identifier now current l h =
    elim (Option-cases (lookup String_discrete identifier l.windows)) [
      | inl e ↦ ground (arith, e)
      | inr x ↦ ground (arith, x.1)
    ]
