-- ===== src/Timerange/Merging.antt =====
-- gauth/util/time_range.py: what `merge_time_ranges` makes of ranges that have both bounds.
use gauth_py.Base.{
  ℕ, ◌≤◌, ◌≡◌, refl, ◌∙◌, subst, true, false, ◌||◌, min, max, List, [], ◌∷◌, some, inl, inr,
  Bool-cases, arith, All,
}
use gauth_py.Core.Exceptions.{Result, ok, raise}
use gauth_py.Timerange.{
  TimeRange, contains, time_range, in_order, overlaps, meets, first_start, last_end, start_key,
  sort_by_start, merge_from, merge_sorted, merge_time_ranges,
}
use gauth_py.Timerange.Sorting.{
  IsSpan, covers, Below, IsAscending, sort-IsAscending, covers-sort, sort-All,
}

span : ℕ → ℕ → TimeRange
span lo hi = record { start = some lo; end = some hi }

-- `n` is no later than the first start.
abbrev StartsAfter : ℕ → List TimeRange → Type 0
StartsAfter n [] = Unit
StartsAfter n (r ∷ rs) = n ≤ start_key r

-- Each range ends no later than the next starts.
abbrev pub IsApart : List TimeRange → Type 0
IsApart [] = Unit
IsApart (r ∷ []) = IsSpan r
IsApart (r ∷ q ∷ rs) = ((s : IsSpan r) × (s.hi ≤ start_key q)) × IsApart (q ∷ rs)

module _ (last current : TimeRange) (a : IsSpan last) (b : IsSpan current) where
  key-IsSpan : start_key last ≡ a.lo
  unfolding start_key
  key-IsSpan = ground (arith, a.starts)

  apart_after : overlaps last current ≡ false → a.lo ≤ b.lo → a.hi ≤ b.lo
  unfolding overlaps meets
  apart_after h l = ground (arith, a.starts, a.ends, b.starts, b.ends, a.ordered, b.ordered)

  abbrev joint : TimeRange
  joint = record { start = some (min a.lo b.lo); end = some (max a.hi b.hi) }

  joint-IsSpan : IsSpan joint
  joint-IsSpan = record {
    lo = min a.lo b.lo;
    hi = max a.hi b.hi;
    starts = refl;
    ends = refl;
    ordered = omega (arith, a.ordered, b.ordered);
  }

  join-eq :
      time_range (first_start last.start current.start) (last_end last.end current.end) ≡ ok joint
  unfolding time_range in_order first_start last_end
  join-eq = ground (arith, a.starts, a.ends, b.starts, b.ends, a.ordered, b.ordered)

  contains-joint :
      (t : ℕ)
      → overlaps last current ≡ true
      → contains joint t ≡ (contains last t || contains current t)
  unfolding overlaps meets contains
  contains-joint t h = ground (arith, a.starts, a.ends, b.starts, b.ends, a.ordered, b.ordered)

start_key-joint :
    (last current : TimeRange) (a : IsSpan last) (b : IsSpan current)
    → start_key last ≤ start_key current
    → start_key (joint last current a b) ≡ start_key last
unfolding start_key
start_key-joint last current a b l = ground (arith, a.starts, b.starts)

-- What merging from `last` on gives, where `last` starts no later than the rest.
abbrev Merges : TimeRange → List TimeRange → Result (List TimeRange) → Type 0
Merges last rest (raise e) = ⊥
Merges last rest (ok rs) =
    IsApart rs
    × (StartsAfter (start_key last) rs
        × ((t : ℕ) → covers rs t ≡ (contains last t || covers rest t)))

Merges-apart :
    (last current : TimeRange) (rest : List TimeRange) (a : IsSpan last) (b : IsSpan current)
    → start_key last ≤ start_key current
    → overlaps last current ≡ false
    → (o : Result (List TimeRange)) → Merges current rest o
    → Merges last (current ∷ rest) (elim o [ ok rs ↦ ok (last ∷ rs) | raise e ↦ raise e ])
Merges-apart last current rest a b l h (raise e) m = m
Merges-apart last current rest a b l h (ok []) m = (a, (omega arith, λ t. ground (arith, m.1.1 t)))
Merges-apart last current rest a b l h (ok (r ∷ rs)) m =
    let ends : a.hi ≤ b.lo =
      apart_after last current a b h
        (omega (arith, l, key-IsSpan last current a b, key-IsSpan current last b a)) in
    (
      ((a, omega (arith, ends, m.1.0, key-IsSpan current last b a)), m.0),
      (omega arith, λ t. ground (arith, m.1.1 t)),
    )

Merges-joint :
    (last current : TimeRange) (rest : List TimeRange) (a : IsSpan last) (b : IsSpan current)
    → start_key last ≤ start_key current
    → overlaps last current ≡ true
    → (o : Result (List TimeRange)) → Merges (joint last current a b) rest o
    → Merges last (current ∷ rest) o
Merges-joint last current rest a b l h (raise e) m = m
Merges-joint last current rest a b l h (ok rs) m = (
  m.0,
  (
    subst (λ n. StartsAfter n rs) (start_key-joint last current a b l) m.1.0,
    λ t. ground (arith, m.1.1 t, contains-joint last current a b t h),
  ),
)

merge_from-Merges :
    (last : TimeRange) (rest : List TimeRange)
    → IsSpan last
    → All IsSpan rest
    → Below (start_key last) rest
    → IsAscending rest
    → Merges last rest (merge_from last rest)
unfolding merge_from
merge_from-Merges last [] a h l s = (a, (omega arith, λ t. refl))
merge_from-Merges last (current ∷ rest) a h l s = elim (Bool-cases (overlaps last current)) [
  | inr apart ↦ rw apart (
      Merges-apart last current rest a h.0 l.0 apart (merge_from current rest)
        (merge_from-Merges current rest h.0 h.1 s.0 s.1))
  | inl meet ↦
      rw (meet, join-eq last current a h.0)
        (Merges-joint last current rest a h.0 l.0 meet (merge_from (joint last current a h.0) rest)
          (merge_from-Merges (joint last current a h.0) rest (joint-IsSpan last current a h.0) h.1
            (rw (start_key-joint last current a h.0 l.0) l.1) s.1))
]

-- A list that the call gave, whose ranges stand apart and cover what `ranges` cover.
abbrev pub IsMerge : List TimeRange → Result (List TimeRange) → Type 0
IsMerge ranges (raise e) = ⊥
IsMerge ranges (ok merged) = IsApart merged × ((t : ℕ) → covers merged t ≡ covers ranges t)

Merges-IsMerge :
    (r : TimeRange) (rs : List TimeRange) (o : Result (List TimeRange))
    → Merges r rs o
    → IsMerge (r ∷ rs) o
Merges-IsMerge r rs (raise e) m = m
Merges-IsMerge r rs (ok merged) m = (m.0, m.1.1)

merge_sorted-IsMerge :
    (rs : List TimeRange) → IsAscending rs → All IsSpan rs → IsMerge rs (merge_sorted rs)
merge_sorted-IsMerge [] s h = (tt, λ t. refl)
merge_sorted-IsMerge (r ∷ rs) s h =
    Merges-IsMerge r rs (merge_from r rs) (merge_from-Merges r rs h.0 h.1 s.0 s.1)

same-IsMerge :
    (rs qs : List TimeRange) (o : Result (List TimeRange))
    → ((t : ℕ) → covers rs t ≡ covers qs t)
    → IsMerge rs o
    → IsMerge qs o
same-IsMerge rs qs (raise e) f m = m
same-IsMerge rs qs (ok merged) f m = (m.0, λ t. m.1 t ∙ f t)

-- Ranges with both bounds merge without an exception into ranges each of which ends no later than
-- the next starts, and which contain exactly the instants that the given ranges contain.
pub merge_time_ranges-IsMerge :
    (ranges : List TimeRange) → All IsSpan ranges → IsMerge ranges (merge_time_ranges ranges)
unfolding merge_time_ranges
merge_time_ranges-IsMerge ranges h =
    same-IsMerge (sort_by_start ranges) ranges (merge_sorted (sort_by_start ranges))
      (covers-sort ranges)
      (merge_sorted-IsMerge (sort_by_start ranges) (sort-IsAscending ranges)
        (sort-All IsSpan ranges h))
