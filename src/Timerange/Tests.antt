-- ===== src/Timerange/Tests.antt =====
-- Runs of the operations on time ranges, and the theorems at concrete inputs.
use gauth_py.Base.{ℕ, ◌≤◌, ◌≡◌, refl, List, [], ◌∷◌, none, some, arith}
use gauth_py.Base.Int.{pos}
use gauth_py.Core.Exceptions.{ok}
use gauth_py.Timerange.{TimeRange, intersect, shift, move, merge_time_ranges, datetime_max}
use gauth_py.Timerange.Sorting.{IsSpan}
use gauth_py.Timerange.Intersection.{IsIntersection, intersect-IsIntersection}
use gauth_py.Timerange.Merging.{IsMerge, merge_time_ranges-IsMerge}

abbrev bounded : ℕ → ℕ → TimeRange
bounded s e = record { start = some s; end = some e }

abbrev from : ℕ → TimeRange
from s = record { start = some s; end = none }

abbrev up_to : ℕ → TimeRange
up_to e = record { start = none; end = some e }

touching : intersect (bounded 1 3) (bounded 3 5) ≡ ok none
unfolding intersect
touching = refl

merged_in_order :
    merge_time_ranges (bounded 10 12 ∷ bounded 1 5 ∷ bounded 3 8 ∷ [])
    ≡ ok (bounded 1 8 ∷ bounded 10 12 ∷ [])
unfolding merge_time_ranges
merged_in_order = refl

-- A range without an end overlaps every other, so merging covers times that no range contains.
gap_covered : merge_time_ranges (bounded 1 2 ∷ from 10 ∷ []) ≡ ok (from 1 ∷ [])
unfolding merge_time_ranges
gap_covered = refl

-- A range without a start gets the start of the other, so merging loses times.
start_lost : merge_time_ranges (up_to 5 ∷ bounded 3 8 ∷ []) ≡ ok (bounded 3 8 ∷ [])
unfolding merge_time_ranges
start_lost = refl

intersect-IsIntersection_example :
    IsIntersection (bounded 1 5) (from 3) (intersect (bounded 1 5) (from 3))
intersect-IsIntersection_example = intersect-IsIntersection (bounded 1 5) (from 3)

abbrev some_ranges : List TimeRange
some_ranges = bounded 10 12 ∷ bounded 1 5 ∷ bounded 3 8 ∷ []

bounded-IsSpan_10 : IsSpan (bounded 10 12)
bounded-IsSpan_10 = record { lo = 10; hi = 12; starts = refl; ends = refl; ordered = omega arith }

bounded-IsSpan_1 : IsSpan (bounded 1 5)
bounded-IsSpan_1 = record { lo = 1; hi = 5; starts = refl; ends = refl; ordered = omega arith }

bounded-IsSpan_3 : IsSpan (bounded 3 8)
bounded-IsSpan_3 = record { lo = 3; hi = 8; starts = refl; ends = refl; ordered = omega arith }

merge_time_ranges-IsMerge_example : IsMerge some_ranges (merge_time_ranges some_ranges)
merge_time_ranges-IsMerge_example =
    merge_time_ranges-IsMerge some_ranges
      (bounded-IsSpan_10, (bounded-IsSpan_1, (bounded-IsSpan_3, tt)))

shifted : shift (pos 100) (bounded 7 9) ≡ ok (bounded 107 109)
unfolding shift
shifted = refl

shifted_time : move (pos 100) 8 ≡ ok 108
unfolding move
shifted_time = refl

in_range_7 : 7 ≤ datetime_max
unfolding datetime_max
in_range_7 = omega arith

in_range_9 : 9 ≤ datetime_max
unfolding datetime_max
in_range_9 = omega arith
