-- ===== src/Timerange/Sorting.antt =====
-- gauth/util/time_range.py: ranges with both bounds, and what the sort by start keeps of them.
use gauth_py.Base.{
  ℕ, ◌≤◌, ◌<◌, ◌≡◌, refl, Bool, ◌||◌, List, [], ◌∷◌, some, inl, inr, Bool-cases, leb, arith, All,
  any,
}
use gauth_py.Timerange.{TimeRange, contains, start_key, insert_by_start, sort_by_start}

-- Both bounds are there, the start first.
pub record IsSpan (r : TimeRange) : Type 0 where
  pub lo : ℕ
  pub hi : ℕ
  pub starts : r.start ≡ some lo
  pub ends : r.end ≡ some hi
  pub ordered : lo < hi

-- The instant is in one of the ranges.
abbrev pub covers : List TimeRange → ℕ → Bool
covers rs t = any (λ r. contains r t) rs

abbrev pub Below : ℕ → List TimeRange → Type 0
Below n = All (λ r. n ≤ start_key r)

abbrev pub IsAscending : List TimeRange → Type 0
IsAscending [] = Unit
IsAscending (r ∷ rs) = Below (start_key r) rs × IsAscending rs

Below-mono : (n k : ℕ) (rs : List TimeRange) → n ≤ k → Below k rs → Below n rs
Below-mono n k [] h b = tt
Below-mono n k (r ∷ rs) h b = (omega (arith, b.0), Below-mono n k rs h b.1)

Below-insert :
    (n : ℕ) (r : TimeRange) (rs : List TimeRange)
    → n ≤ start_key r
    → Below n rs
    → Below n (insert_by_start r rs)
unfolding insert_by_start
Below-insert n r [] h b = (h, tt)
Below-insert n r (q ∷ qs) h b = elim (Bool-cases (leb (start_key r) (start_key q))) [
  | inl t ↦ rw t (h, b)
  | inr f ↦ rw f (b.0, Below-insert n r qs h b.1)
]

insert-IsAscending :
    (r : TimeRange) (rs : List TimeRange) → IsAscending rs → IsAscending (insert_by_start r rs)
unfolding insert_by_start
insert-IsAscending r [] a = (tt, tt)
insert-IsAscending r (q ∷ qs) a = elim (Bool-cases (leb (start_key r) (start_key q))) [
  | inl t ↦ rw t ((ground arith, Below-mono (start_key r) (start_key q) qs (ground arith) a.0), a)
  | inr f ↦ rw f (Below-insert (start_key q) r qs (ground arith) a.0, insert-IsAscending r qs a.1)
]

pub sort-IsAscending : (rs : List TimeRange) → IsAscending (sort_by_start rs)
unfolding sort_by_start
sort-IsAscending [] = tt
sort-IsAscending (r ∷ rs) = insert-IsAscending r (sort_by_start rs) (sort-IsAscending rs)

covers-insert :
    (r : TimeRange) (rs : List TimeRange) (t : ℕ)
    → covers (insert_by_start r rs) t ≡ (contains r t || covers rs t)
unfolding insert_by_start
covers-insert r [] t = refl
covers-insert r (q ∷ qs) t = ground (arith, covers-insert r qs t)

pub covers-sort : (rs : List TimeRange) (t : ℕ) → covers (sort_by_start rs) t ≡ covers rs t
unfolding sort_by_start
covers-sort [] t = refl
covers-sort (r ∷ rs) t = ground (arith, covers-insert r (sort_by_start rs) t, covers-sort rs t)

insert-All :
    (P : TimeRange → Type 0) (r : TimeRange) (rs : List TimeRange)
    → P r
    → All P rs
    → All P (insert_by_start r rs)
unfolding insert_by_start
insert-All P r [] p h = (p, tt)
insert-All P r (q ∷ qs) p h = elim (Bool-cases (leb (start_key r) (start_key q))) [
  | inl t ↦ rw t (p, h)
  | inr f ↦ rw f (h.0, insert-All P r qs p h.1)
]

pub sort-All : (P : TimeRange → Type 0) (rs : List TimeRange) → All P rs → All P (sort_by_start rs)
unfolding sort_by_start
sort-All P [] h = tt
sort-All P (r ∷ rs) h = insert-All P r (sort_by_start rs) h.0 (sort-All P rs h.1)
