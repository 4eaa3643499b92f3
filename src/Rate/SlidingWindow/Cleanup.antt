-- ===== src/Rate/SlidingWindow/Cleanup.antt =====
-- That the clean-up changes no answer.
use mathlib.Core.List.{lookup}
use gauth_py.Base.{
  ℕ, ◌≤◌, ◌≡◌, refl, ap, ◌∙◌, not, List, [], ◌∷◌, none, some, String, String_discrete, arith, map,
}
use gauth_py.Base.Dict.{IsDict, remove_all-keep, lookup-keep}
use gauth_py.Rate.SlidingWindow.{
  SlidingWindowLimiter, drop_old, find_window, allow, admit, cleanup, is_empty,
}

drop_old_twice :
    (window t now : ℕ) (w : List ℕ)
    → t ≤ now
    → drop_old window now (drop_old window t w) ≡ drop_old window now w
unfolding drop_old
drop_old_twice window t now [] h = refl
drop_old_twice window t now (r ∷ w) h = ground (arith, drop_old_twice window t now w h)

abbrev dropped : ℕ → ℕ → List (String × List ℕ) → List (String × List ℕ)
dropped window now = map (λ e. (e.0, drop_old window now e.1))

lookup-dropped :
    (window now : ℕ) (k : String) (m : List (String × List ℕ))
    → lookup String_discrete k (dropped window now m)
      ≡ elim (lookup String_discrete k m) [ none ↦ none | some w ↦ some (drop_old window now w) ]
unfolding lookup
lookup-dropped window now k [] = refl
lookup-dropped window now k (e ∷ m) = ground (arith, lookup-dropped window now k m)

dropped-IsDict :
    (window now : ℕ) (m : List (String × List ℕ))
    → IsDict String_discrete m
    → IsDict String_discrete (dropped window now m)
dropped-IsDict window now [] h = tt
dropped-IsDict window now (e ∷ m) h =
    (ground (arith, lookup-dropped window now e.0 m, h.0), dropped-IsDict window now m h.1)

find_window-cleanup :
    (l : SlidingWindowLimiter) (now : ℕ) (identifier : String)
    → IsDict String_discrete l.windows
    → find_window (cleanup now l) identifier
      ≡ drop_old l.config.window now (find_window l identifier)
unfolding find_window cleanup drop_old
find_window-cleanup l now identifier h =
    let m = dropped l.config.window now l.windows in
    let d : IsDict String_discrete m = dropped-IsDict l.config.window now l.windows h in
    let k = remove_all-keep String_discrete is_empty m d in
    ground (
      arith,
      ap (lookup String_discrete identifier) k,
      lookup-keep String_discrete (λ e. not (is_empty e)) identifier m d,
      lookup-dropped l.config.window now identifier l.windows,
    )

-- The background clean-up is invisible: whenever it runs, a request at that time or later is
-- answered with the quota that it would have had without it.
pub allow-cleanup :
    (l : SlidingWindowLimiter) (now later current : ℕ) (identifier : String)
    → IsDict String_discrete l.windows
    → now ≤ later
    → (allow identifier later current (cleanup now l)).0 ≡ (allow identifier later current l).0
unfolding allow cleanup
allow-cleanup l now later current identifier h le =
    ap (λ w. (admit l.config later current w).0)
      (ap (drop_old l.config.window later) (find_window-cleanup l now identifier h)
        ∙ drop_old_twice l.config.window now later (find_window l identifier) le)
