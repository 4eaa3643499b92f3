-- ===== src/Timerange.antt =====
-- gauth/util/time_range.py: `TimeRange` and `merge_time_ranges`. Times are microseconds since
-- `datetime.min`, and arithmetic that leaves the range of `datetime` raises an OverflowError.
pub mod Sorting
pub mod Intersection
pub mod Merging
pub mod Shifting
mod Tests
use gauth_py.Base.{
  ℕ, suc, ◌+◌, ◌-◌, min, max, Bool, true, false, not, ◌&&◌, ◌||◌, List, [], ◌∷◌, Option, none, some,
  String, ltb, leb, if◌then◌else◌,
}
use gauth_py.Base.Int.{ℤ, pos, negsuc, ◌-ℤ◌}
use gauth_py.Core.Exceptions.{Result, ok, raise, value_error, other_error}

pub record TimeRange : Type 0 where
  pub start : Option ℕ
  pub end : Option ℕ

-- `datetime.max`.
unfoldable pub datetime_max : ℕ
datetime_max = 315_537_897_599_999_999

-- `not (start and end and start >= end)`.
unfoldable pub in_order : Option ℕ → Option ℕ → Bool
in_order none e = true
in_order (some s) none = true
in_order (some s) (some e) = ltb s e

-- The constructor.
unfoldable pub time_range : Option ℕ → Option ℕ → Result TimeRange
unfolding in_order
time_range start end =
    if in_order start end
    then ok (record { start = start; end = end })
    else raise (value_error "Start time must be before end time")

-- `self.start and t < self.start`.
abbrev pub before_start : TimeRange → ℕ → Bool
before_start r t = elim r.start [ none ↦ false | some s ↦ ltb t s ]

-- `self.end and t > self.end`.
abbrev pub after_end : TimeRange → ℕ → Bool
after_end r t = elim r.end [ none ↦ false | some e ↦ ltb e t ]

unfoldable pub contains : TimeRange → ℕ → Bool
contains r t = if before_start r t then false else if after_end r t then false else true

unfoldable pub is_allowed : TimeRange → ℕ → Bool × String
is_allowed r t =
    if before_start r t
    then (false, "Action not allowed before specified start time")
    else if after_end r t
    then (false, "Action not allowed after specified end time")
    else (true, "")

unfoldable pub duration : TimeRange → Option ℤ
unfolding ◌-ℤ◌
duration r = elim r.start [
  | none ↦ none
  | some s ↦ elim r.end [ none ↦ none | some e ↦ some (pos e -ℤ pos s) ]
]

unfoldable pub is_active : TimeRange → ℕ → Bool
unfolding contains
is_active r now = contains r now

-- `timedelta(0)` once the time is over.
unfoldable pub until : Option ℕ → ℕ → Option ℕ
until none now = none
until (some t) now = if leb t now then some 0 else some (t - now)

unfoldable pub time_until_start : TimeRange → ℕ → Option ℕ
unfolding until
time_until_start r now = until r.start now

unfoldable pub time_until_end : TimeRange → ℕ → Option ℕ
unfolding until
time_until_end r now = until r.end now

unfoldable pub meets : Option ℕ → Option ℕ → Option ℕ → Option ℕ → Bool
meets (some a) (some b) (some c) (some d) = if leb b c || leb d a then false else true
meets (some a) (some b) (some c) none = true
meets (some a) (some b) none d = true
meets (some a) none c d = true
meets none b c d = true

unfoldable pub overlaps : TimeRange → TimeRange → Bool
unfolding meets
overlaps r other = meets r.start r.end other.start other.end

-- The later of two starts and the earlier of two ends; a missing one does not count.
unfoldable pub later : Option ℕ → Option ℕ → Option ℕ
later none b = b
later (some a) none = some a
later (some a) (some b) = some (max a b)

unfoldable pub earlier : Option ℕ → Option ℕ → Option ℕ
earlier none b = b
earlier (some a) none = some a
earlier (some a) (some b) = some (min a b)

unfoldable pub intersect : TimeRange → TimeRange → Result (Option TimeRange)
unfolding overlaps later earlier in_order time_range
intersect r other =
    if not (overlaps r other)
    then ok none
    else if not (in_order (later r.start other.start) (earlier r.end other.end))
    then ok none
    else elim (time_range (later r.start other.start) (earlier r.end other.end)) [
      | ok i ↦ ok (some i)
      | raise e ↦ raise e
    ]

-- `t + delta`.
unfoldable pub move : ℤ → ℕ → Result ℕ
unfolding datetime_max
move (pos n) t =
    if leb (t + n) datetime_max then ok (t + n) else raise (other_error "date value out of range")
move (negsuc n) t =
    if ltb n t then ok (t - suc n) else raise (other_error "date value out of range")

unfoldable pub move_bound : ℤ → Option ℕ → Result (Option ℕ)
unfolding move
move_bound d none = ok none
move_bound d (some t) = elim (move d t) [ ok u ↦ ok (some u) | raise e ↦ raise e ]

unfoldable pub negate : ℤ → ℤ
unfolding ◌-ℤ◌
negate d = pos 0 -ℤ d

-- The range between a start and an end that may have raised.
unfoldable pub between : Result (Option ℕ) → Result (Option ℕ) → Result TimeRange
unfolding time_range
between (raise e) end = raise e
between (ok start) (raise e) = raise e
between (ok start) (ok end) = time_range start end

unfoldable pub extend : ℤ → TimeRange → Result TimeRange
unfolding between move_bound negate
extend delta r = between (move_bound (negate delta) r.start) (move_bound delta r.end)

unfoldable pub shift : ℤ → TimeRange → Result TimeRange
unfolding between move_bound
shift delta r = between (move_bound delta r.start) (move_bound delta r.end)

unfoldable pub create_duration_range : ℕ → ℤ → Result TimeRange
unfolding between move_bound
create_duration_range start duration = between (ok (some start)) (move_bound duration (some start))

unfoldable pub create_relative_range : ℤ → ℤ → ℕ → Result TimeRange
unfolding between move_bound
create_relative_range delta_start delta_end base_time =
    between (move_bound delta_start (some base_time)) (move_bound delta_end (some base_time))

-- The key of the sort.
unfoldable pub start_key : TimeRange → ℕ
unfolding datetime_max
start_key r = elim r.start [ none ↦ datetime_max | some s ↦ s ]

-- `sorted` is stable.
unfoldable pub insert_by_start : TimeRange → List TimeRange → List TimeRange
unfolding start_key
insert_by_start r [] = r ∷ []
insert_by_start r (q ∷ qs) =
    let rest = insert_by_start r qs in
    if leb (start_key r) (start_key q) then r ∷ q ∷ qs else q ∷ rest

unfoldable pub sort_by_start : List TimeRange → List TimeRange
unfolding insert_by_start
sort_by_start [] = []
sort_by_start (r ∷ rs) = insert_by_start r (sort_by_start rs)

unfoldable pub first_start : Option ℕ → Option ℕ → Option ℕ
first_start none b = b
first_start (some a) none = some a
first_start (some a) (some b) = some (min a b)

unfoldable pub last_end : Option ℕ → Option ℕ → Option ℕ
last_end none b = none
last_end (some a) none = none
last_end (some a) (some b) = some (max a b)

-- `last` is `merged[-1]`.
unfoldable pub merge_from : TimeRange → List TimeRange → Result (List TimeRange)
unfolding overlaps first_start last_end time_range
merge_from last [] = ok (last ∷ [])
merge_from last (current ∷ rest) =
    let apart : Result (List TimeRange) = elim (merge_from current rest) [
      | ok rs ↦ ok (last ∷ rs)
      | raise e ↦ raise e
    ] in
    let joined : Result (List TimeRange) =
      elim (time_range (first_start last.start current.start) (last_end last.end current.end)) [
        | ok r ↦ merge_from r rest
        | raise e ↦ raise e
      ] in
    if overlaps last current then joined else apart

abbrev pub merge_sorted : List TimeRange → Result (List TimeRange)
merge_sorted [] = ok []
merge_sorted (r ∷ rs) = merge_from r rs

unfoldable pub merge_time_ranges : List TimeRange → Result (List TimeRange)
unfolding sort_by_start merge_from
merge_time_ranges ranges = merge_sorted (sort_by_start ranges)
