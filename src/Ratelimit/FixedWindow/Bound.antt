-- ===== src/Ratelimit/FixedWindow/Bound.antt =====
-- How many requests a window lets through.
use mathlib.Core.List.{lookup}
use native.Mathlib.Decide.{ℕ_discrete}
use gauth_py.Base.{
  ℕ, ◌+◌, ◌≤◌, ◌<◌, ◌≡◌, refl, ap, ◌∙◌, Bool, false, List, [], ◌∷◌, String, String_discrete, ltb,
  arith, if◌then◌else◌, Bool-cases, inl, inr, keep, elem, ite, if_pos, if_neg, ◌==◌,
}
use gauth_py.Base.Dict.{insert, remove_all, keys, lookup-insert, lookup-remove_all}
use gauth_py.Core.Exceptions.{Result, ok, raise}
use gauth_py.Ratelimit.Times.{Ordered}
use gauth_py.Ratelimit.FixedWindow.{
  FixedWindowRateLimiter, init, get_window_start, find_windows, count_at, admit, allow,
}

elem-expired :
    (s start : ℕ) (w : List (ℕ × ℕ))
    → start ≤ s
    → elem ℕ_discrete s (keys (keep (λ e. ltb e.0 start) w)) ≡ false
elem-expired s start [] h = refl
elem-expired s start (e ∷ w) h = ground (arith, elem-expired s start w h)

-- The count of a window that is not over: only an allowed request in it adds one.
admit-count :
    (max_requests start s : ℕ) (w : List (ℕ × ℕ))
    → start ≤ s
    → count_at s (admit max_requests start w).1 ≡ (
        if (start == s)
        then (if ltb (count_at s w) max_requests then count_at s w + 1 else count_at s w)
        else count_at s w)
unfolding admit count_at
admit-count max_requests start s w h =
    let current = remove_all ℕ_discrete (keys (keep (λ e. ltb e.0 start) w)) w in
    ground (
      arith,
      elem-expired s start w h,
      lookup-remove_all ℕ_discrete (keys (keep (λ e. ltb e.0 start) w)) s w,
      lookup-insert ℕ_discrete start s (count_at start current + 1) current,
      lookup-insert ℕ_discrete start s (count_at start current) current,
    )

admit-allowed :
    (max_requests start : ℕ) (w : List (ℕ × ℕ))
    → (admit max_requests start w).0 ≡ ltb (count_at start w) max_requests
unfolding admit count_at
admit-allowed max_requests start w = ground (
  arith,
  elem-expired start start w (omega arith),
  lookup-remove_all ℕ_discrete (keys (keep (λ e. ltb e.0 start) w)) start w,
)

find_windows-insert :
    (l : FixedWindowRateLimiter) (key j : String) (w : List (ℕ × ℕ))
    → find_windows (record l { windows = insert String_discrete j w l.windows }) key
      ≡ ite (String_discrete key j) w (find_windows l key)
unfolding find_windows
find_windows-insert l key j w = ground (arith, lookup-insert String_discrete j key w l.windows)

module _ (key : String) (s : ℕ) where
  -- One if the answer lets a request through under the key in the window that starts at `s`.
  unfoldable pub counts : FixedWindowRateLimiter → String → ℕ → Result Bool → ℕ
  counts l j now (ok b) =
      if b
      then if get_window_start l.time_window now == s
        then elim (String_discrete key j) [ yes _ ↦ 1 | no _ ↦ 0 ]
        else 0
      else 0
  counts l j now (raise e) = 0

  -- The requests let through under the key in the window that starts at `s`.
  pub granted : FixedWindowRateLimiter → List (String × ℕ) → ℕ
  unfolding counts
  granted l [] = 0
  granted l ((j, now) ∷ cs) = let (r, l') = allow j now l in counts l j now r + granted l' cs

  -- The clock is never set back over the start of a window.
  abbrev pub Forward : ℕ → ℕ → List (String × ℕ) → ℕ → Type 0
  Forward time_window start cs end = Ordered (λ c. get_window_start time_window c.1) start cs end

  abbrev after : FixedWindowRateLimiter → String → ℕ → FixedWindowRateLimiter
  after l j now = record l {
    windows =
        insert String_discrete j
          (admit l.max_requests (get_window_start l.time_window now) (find_windows l j)).1
          l.windows;
  }

  allow_lem :
      (l : FixedWindowRateLimiter) (j : String) (now : ℕ)
      → 0 < l.time_window
      → allow j now l ≡ (
        ok (admit l.max_requests (get_window_start l.time_window now) (find_windows l j)).0,
        after l j now,
      )
  unfolding allow
  allow_lem l j now w = ground arith

  granted-over :
      (l : FixedWindowRateLimiter) (cs : List (String × ℕ)) (t end : ℕ)
      → 0 < l.time_window
      → s < t
      → Forward l.time_window t cs end
      → granted l cs ≡ 0
  unfolding granted
  granted-over l [] t end w h o = refl
  granted-over l ((j, now) ∷ cs) t end w h o =
      let start = get_window_start l.time_window now in
      let ih = granted-over (after l j now) cs start end w (omega (arith, h, o.0)) o.1 in
      rw (allow_lem l j now w) (ground (arith, ih, h, o.0))

  granted-count :
      (l : FixedWindowRateLimiter) (cs : List (String × ℕ)) (t end : ℕ)
      → 0 < l.time_window
      → count_at s (find_windows l key) ≤ l.max_requests
      → Forward l.time_window t cs end
      → granted l cs + count_at s (find_windows l key) ≤ l.max_requests
  unfolding granted
  granted-count l [] t end w b o = omega (arith, b)
  granted-count l ((j, now) ∷ cs) t end w b o =
      let start = get_window_start l.time_window now in
      let v = admit l.max_requests start (find_windows l j) in
      let f = find_windows-insert l key j v.1 in
      elim (String_discrete key j) [
        | no p ↦
            let e : find_windows (after l j now) key ≡ find_windows l key =
              f ∙ if_neg (String_discrete key j) p v.1 (find_windows l key) in
            let ih =
              granted-count (after l j now) cs start end w (ground (arith, ap (count_at s) e))
                o.1 in
            rw (allow_lem l j now w) (ground (arith, p, ih, ap (count_at s) e))
        | yes p ↦
            let e =
              ap (count_at s) (f ∙ if_pos (String_discrete key j) p v.1 (find_windows l key)) in
            let k = ap (count_at s) (ap (find_windows l) p) in
            elim (Bool-cases (ltb s start)) [
              | inl q ↦
                  let none_left = granted-over (after l j now) cs start end w (ground arith) o.1 in
                  rw (allow_lem l j now w) (ground (arith, none_left))
              | inr q ↦
                  let c = admit-count l.max_requests start s (find_windows l j) (ground arith) in
                  let a = admit-allowed l.max_requests start (find_windows l j) in
                  let ih =
                    granted-count (after l j now) cs start end w (ground (arith, e, k, c)) o.1 in
                  rw (allow_lem l j now w) (ground (arith, e, k, c, a, ih))
            ]
      ]

  -- While the clock is not set back over the start of a window, no window lets through more than
  -- `max_requests` requests of a key, however the calls for the keys interleave.
  pub granted_in_fixed_window :
      (max_requests time_window : ℕ) (cs : List (String × ℕ)) (start end : ℕ)
      → 0 < time_window
      → Forward time_window start cs end
      → granted (init max_requests time_window) cs ≤ max_requests
  unfolding init find_windows count_at lookup
  granted_in_fixed_window max_requests time_window cs start end w o =
      omega (arith, granted-count (init max_requests time_window) cs start end w (omega arith) o)
