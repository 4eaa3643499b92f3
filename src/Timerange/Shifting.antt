-- ===== src/Timerange/Shifting.antt =====
-- gauth/util/time_range.py: `shift` and back.
use gauth_py.Base.{ℕ, ◌≤◌, ◌≡◌, Bool, true, false, Option, none, some, ltb, arith}
use gauth_py.Base.Int.{ℤ, pos, negsuc, ◌-ℤ◌}
use gauth_py.Core.Exceptions.{Result, ok, raise}
use gauth_py.Timerange.{
  TimeRange, datetime_max, time_range, in_order, move, move_bound, negate, between, shift, contains,
}

-- A time that `datetime` has.
abbrev pub IsTime : Option ℕ → Type 0
IsTime none = Unit
IsTime (some t) = t ≤ datetime_max

move-negate : (d : ℤ) (t u : ℕ) → t ≤ datetime_max → move d t ≡ ok u → move (negate d) u ≡ ok t
unfolding move negate ◌-ℤ◌
move-negate (pos n) t u h e = ground arith
move-negate (negsuc n) t u h e = ground arith

move_bound-negate :
    (d : ℤ) (a b : Option ℕ) → IsTime a → move_bound d a ≡ ok b → move_bound (negate d) b ≡ ok a
unfolding move_bound
move_bound-negate d none b h e = ground arith
move_bound-negate d (some t) none h e = ground arith
move_bound-negate d (some t) (some u) h e = ground (arith, move-negate d t u h)

-- What `between` gave has the two bounds, in order.
between-ok :
    (x y : Result (Option ℕ)) (s : TimeRange)
    → between x y ≡ ok s
    → (x ≡ ok s.start) × ((y ≡ ok s.end) × (in_order s.start s.end ≡ true))
unfolding between time_range
between-ok (raise e) y s h = cc h
between-ok (ok a) (raise e) s h = cc h
between-ok (ok a) (ok b) s h = ground arith

between-bounds :
    (a b : Option ℕ)
    → in_order a b ≡ true
    → between (ok a) (ok b) ≡ ok (record { start = a; end = b })
unfolding between time_range
between-bounds a b h = ground arith

-- A range that was shifted is had back by the opposite shift.
pub shift-negate :
    (delta : ℤ) (r s : TimeRange)
    → in_order r.start r.end ≡ true
    → IsTime r.start
    → IsTime r.end
    → shift delta r ≡ ok s
    → shift (negate delta) s ≡ ok r
unfolding shift
shift-negate delta r s o a b h =
    let (x, (y, z)) = between-ok (move_bound delta r.start) (move_bound delta r.end) s h in
    rw (shift, move_bound-negate delta r.start s.start a x, move_bound-negate delta r.end s.end b y)
      (between-bounds r.start r.end o)

move_order : (d : ℤ) (t u s v : ℕ) → move d t ≡ ok u → move d s ≡ ok v → (ltb u v ≡ ltb t s)
unfolding move
move_order (pos n) t u s v h k = ground arith
move_order (negsuc n) t u s v h k = ground arith

before_start-shift :
    (d : ℤ) (a b : Option ℕ) (t u : ℕ)
    → move_bound d a ≡ ok b
    → move d t ≡ ok u
    → (elim b as (λ _. Bool) [ none ↦ false | some s ↦ ltb u s ])
      ≡ (elim a as (λ _. Bool) [ none ↦ false | some s ↦ ltb t s ])
unfolding move_bound
before_start-shift d none b t u h k = ground arith
before_start-shift d (some s) none t u h k = ground arith
before_start-shift d (some s) (some v) t u h k = ground (arith, move_order d t u s v k)

after_end-shift :
    (d : ℤ) (a b : Option ℕ) (t u : ℕ)
    → move_bound d a ≡ ok b
    → move d t ≡ ok u
    → (elim b as (λ _. Bool) [ none ↦ false | some s ↦ ltb s u ])
      ≡ (elim a as (λ _. Bool) [ none ↦ false | some s ↦ ltb s t ])
unfolding move_bound
after_end-shift d none b t u h k = ground arith
after_end-shift d (some s) none t u h k = ground arith
after_end-shift d (some s) (some v) t u h k =
    let moved : move d s ≡ ok v = ground arith in ground (arith, move_order d s v t u moved k)

-- A shifted range contains a shifted time exactly if the range contains the time.
pub contains-shift :
    (delta : ℤ) (r s : TimeRange) (t u : ℕ)
    → shift delta r ≡ ok s
    → move delta t ≡ ok u
    → contains s u ≡ contains r t
unfolding shift contains
contains-shift delta r s t u h k =
    let (x, (y, z)) = between-ok (move_bound delta r.start) (move_bound delta r.end) s h in
    ground (
      arith,
      before_start-shift delta r.start s.start t u x k,
      after_end-shift delta r.end s.end t u y k,
    )
