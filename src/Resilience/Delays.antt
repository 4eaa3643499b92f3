-- ===== src/Resilience/Delays.antt =====
-- gauth/resilience/patterns.py: `Retry._calculate_delay` and the backoff functions. Durations are
-- microseconds, multipliers and jitter factors are counted in hundredths, and a delay is an exact
-- fraction where the source has a float.
use gauth_py.Base.{ℕ, zero, suc, ◌+◌, ◌-◌, ◌*◌, ◌≤◌, ◌≡◌, subst, min, arith, if◌then◌else◌}
use native.Mathlib.Nat.{mul-le-mul_right, mul-le-mul_left, mul_left_comm}
use gauth_py.Resilience.Retry.{RetryConfig}

abbrev power : ℕ → ℕ → ℕ
power b zero = 1
power b (suc k) = b * power b k

pub record Delay : Type 0 where
  pub numerator : ℕ
  pub denominator : ℕ

-- `initial_delay * multiplier ** k`, at most `max_delay`.
unfoldable pub capped : ℕ → ℕ → ℕ → ℕ → Delay
capped k initial_delay multiplier max_delay = record {
  numerator = min (initial_delay * power multiplier k) (max_delay * power 100 k);
  denominator = power 100 k;
}

unfoldable pub exponential_backoff : ℕ → ℕ → ℕ → ℕ → Delay
unfolding capped
exponential_backoff attempt initial_delay multiplier max_delay =
    capped (attempt - 1) initial_delay multiplier max_delay

unfoldable pub linear_backoff : ℕ → ℕ → ℕ → ℕ → ℕ
linear_backoff attempt initial_delay increment max_delay =
    min (initial_delay + (attempt - 1) * increment) max_delay

unfoldable pub fixed_backoff : ℕ → ℕ → ℕ
fixed_backoff attempt delay = delay

-- `random.uniform(0.5, 1.5)` gives `jitter_factor`, from 50 to 150.
unfoldable pub calculate_delay : {T : Type 0} → RetryConfig T → ℕ → ℕ → Delay
unfolding capped
calculate_delay c attempt jitter_factor =
    let base = capped (attempt - 1) c.initial_delay c.multiplier c.max_delay in
    record {
      numerator = base.numerator * (if c.jitter then jitter_factor else 100);
      denominator = base.denominator * 100;
    }

-- The one fraction is at most the other.
infix 50 ◌⊑◌
abbrev pub ◌⊑◌ : Delay → Delay → Type 0
d ⊑ e = d.numerator * e.denominator ≤ e.numerator * d.denominator

min-grows : (x y m : ℕ) → 100 ≤ m → min x y * 100 ≤ min (m * x) (100 * y)
min-grows x y m h = omega (arith, mul-le-mul_right x h)

regroup :
    (i m p M q : ℕ)
    → 100 ≤ m
    → min (i * p) (M * q) * (100 * q) ≤ min (i * (m * p)) (M * (100 * q)) * q
regroup i m p M q h =
    rw (mul_left_comm i m p, mul_left_comm M 100 q, mul_left_comm (min (i * p) (M * q)) 100 q)
      (subst (λ x. x ≤ min (m * (i * p)) (100 * (M * q)) * q) (omega arith)
        (mul-le-mul_right q (min-grows (i * p) (M * q) m h)))

-- From one attempt to the next the delay does not shrink, as long as the multiplier is at least 1.
pub exponential_backoff-grows :
    (attempt initial_delay multiplier max_delay : ℕ)
    → 1 ≤ attempt
    → 100 ≤ multiplier
    → exponential_backoff attempt initial_delay multiplier max_delay
      ⊑ exponential_backoff (suc attempt) initial_delay multiplier max_delay
unfolding exponential_backoff capped
exponential_backoff-grows zero i m M l h = absurd (omega arith)
exponential_backoff-grows (suc k) i m M l h =
    let here : suc k - 1 ≡ k = omega arith in
    let there : suc (suc k) - 1 ≡ suc k = omega arith in
    rw (exponential_backoff, capped, here, there) (regroup i m (power m k) M (power 100 k) h)

bound : (x M q f : ℕ) → f ≤ 150 → min x (M * q) * f * 2 ≤ 3 * M * (q * 100)
bound x M q f h =
    let scaled : M * q * f ≤ M * q * 150 = mul-le-mul_left (M * q) h in
    let capped_at : min x (M * q) * f ≤ M * q * f = mul-le-mul_right f (omega arith) in omega arith

-- With the jitter factor in its range, a delay is at most one and a half times the maximum.
pub calculate_delay-le :
    {T : Type 0} (c : RetryConfig T) (attempt jitter_factor : ℕ)
    → jitter_factor ≤ 150
    → calculate_delay c attempt jitter_factor
      ⊑ record { numerator = 3 * c.max_delay; denominator = 2 }
unfolding calculate_delay capped
calculate_delay-le c attempt j h =
    bound (c.initial_delay * power c.multiplier (attempt - 1)) c.max_delay (power 100 (attempt - 1))
      (if c.jitter then j else 100) (ground arith)
