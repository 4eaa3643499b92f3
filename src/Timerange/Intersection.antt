-- ===== src/Timerange/Intersection.antt =====
-- gauth/util/time_range.py: `intersect` against `contains`.
use gauth_py.Base.{
  ℕ, ◌≡◌, refl, sym, ◌∙◌, Bool, true, false, ◌&&◌, Option, none, some, inl, inr, Bool-cases, ltb,
  leb, arith,
}
use gauth_py.Core.Exceptions.{Result, ok, raise}
use gauth_py.Timerange.{
  TimeRange, contains, in_order, time_range, overlaps, meets, later, earlier, intersect,
}

-- A range that the constructor accepts.
abbrev pub IsRange : TimeRange → Type 0
IsRange r = in_order r.start r.end ≡ true

starts_by : Option ℕ → ℕ → Bool
starts_by none t = true
starts_by (some s) t = leb s t

ends_by : Option ℕ → ℕ → Bool
ends_by none t = true
ends_by (some e) t = leb t e

contains-eq : (r : TimeRange) (t : ℕ) → contains r t ≡ (starts_by r.start t && ends_by r.end t)
unfolding contains starts_by ends_by
contains-eq r t = ground arith

starts_by-later :
    (a b : Option ℕ) (t : ℕ) → starts_by (later a b) t ≡ (starts_by a t && starts_by b t)
unfolding starts_by later
starts_by-later none b t = refl
starts_by-later (some a) none t = ground arith
starts_by-later (some a) (some b) t = ground arith

ends_by-earlier : (a b : Option ℕ) (t : ℕ) → ends_by (earlier a b) t ≡ (ends_by a t && ends_by b t)
unfolding ends_by earlier
ends_by-earlier none b t = refl
ends_by-earlier (some a) none t = ground arith
ends_by-earlier (some a) (some b) t = ground arith

-- What is not in order has no two instants.
out_of_order :
    (a b : Option ℕ) (t u : ℕ)
    → in_order a b ≡ false
    → ((starts_by a t && ends_by b t) && ((starts_by a u && ends_by b u) && ltb t u)) ≡ false
unfolding in_order starts_by ends_by
out_of_order none b t u h = cc h
out_of_order (some a) none t u h = cc h
out_of_order (some a) (some b) t u h = ground arith

meets-in_order :
    (a b c d : Option ℕ) → meets a b c d ≡ false → in_order (later a c) (earlier b d) ≡ false
unfolding meets later earlier in_order
meets-in_order (some a) (some b) (some c) (some d) h = ground arith
meets-in_order (some a) (some b) (some c) none h = cc h
meets-in_order (some a) (some b) none d h = cc h
meets-in_order (some a) none c d h = cc h
meets-in_order none b c d h = cc h

-- The instant is in both ranges.
abbrev pub common : TimeRange → TimeRange → ℕ → Bool
common r other t = contains r t && contains other t

common-eq :
    (r other : TimeRange) (t : ℕ)
    → common r other t
      ≡ (starts_by (later r.start other.start) t && ends_by (earlier r.end other.end) t)
common-eq r other t = ground (
  arith,
  contains-eq r t,
  contains-eq other t,
  starts_by-later r.start other.start t,
  ends_by-earlier r.end other.end t,
)

-- A range has exactly the common instants; no range, and there are no two common instants.
abbrev pub IsIntersection : TimeRange → TimeRange → Result (Option TimeRange) → Type 0
IsIntersection r other (ok (some c)) = IsRange c × ((t : ℕ) → contains c t ≡ common r other t)
IsIntersection r other (ok none) =
    (t u : ℕ) → (common r other t && (common r other u && ltb t u)) ≡ false
IsIntersection r other (raise e) = ⊥

no_range :
    (r other : TimeRange)
    → in_order (later r.start other.start) (earlier r.end other.end) ≡ false
    → IsIntersection r other (ok none)
no_range r other h t u =
    let none_later = out_of_order (later r.start other.start) (earlier r.end other.end) t u h in
    rw (common-eq r other t, common-eq r other u) none_later

-- `intersect` never raises. What it gives contains exactly the instants that both ranges contain,
-- and where it gives nothing the two have at most one instant in common.
pub intersect-IsIntersection : (r other : TimeRange) → IsIntersection r other (intersect r other)
unfolding intersect time_range overlaps
intersect-IsIntersection r other =
    elim (Bool-cases (in_order (later r.start other.start) (earlier r.end other.end))) [
      | inr bad ↦ elim (Bool-cases (overlaps r other)) [
        | inr apart ↦ rw (intersect, apart) (no_range r other bad)
        | inl meet ↦ rw (intersect, meet, bad) (no_range r other bad)
      ]
      | inl good ↦ elim (Bool-cases (overlaps r other)) [
        | inr apart ↦ absurd (cc (good, meets-in_order r.start r.end other.start other.end apart))
        | inl meet ↦
            rw (intersect, meet, good, time_range)
              (
                good,
                λ t.
                    contains-eq
                      (record { start = later r.start other.start; end = earlier r.end other.end })
                      t
                    ∙ sym (common-eq r other t),
              )
      ]
    ]
