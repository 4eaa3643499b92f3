-- ===== src/Resilience/Retry/Attempts.antt =====
-- gauth/resilience/patterns.py: which attempts `Retry.execute` makes, and how it ends.
use gauth_py.Base.{
  ℕ, zero, suc, ◌+◌, ◌≤◌, ◌<◌, ◌≡◌, ◌⊎◌, refl, sym, ap, ◌∙◌, subst, Bool, true, false, not, Option,
  none, some, inl, inr, ◌==◌, Bool-cases, arith,
}
use gauth_py.Circuit.{Outcome, returns, raises}
use gauth_py.Resilience.Retry.{
  RetryConfig, Ended, value, failed, Report, is_retryable, attempt_from, execute,
}

pub Outcome-cases :
    {A E : Type 0} (o : Outcome A E) → ((a : A) × (o ≡ returns a)) ⊎ ((e : E) × (o ≡ raises e))
Outcome-cases (returns a) = inl (a, refl)
Outcome-cases (raises e) = inr (e, refl)

abbrev pub answer_of : {A E : Type 0} → Outcome A E → Ended A E
answer_of (returns a) = value a
answer_of (raises e) = failed e

module _ {S A E T : Type 0} (isinstance : E → T → Bool) (func : S → Outcome A E × S)
    (sleep : ℕ → S → S) (c : RetryConfig T) where
  -- No further attempt follows this outcome.
  abbrev pub decisive : Outcome A E → Bool
  decisive (returns a) = true
  decisive (raises e) = not (is_retryable isinstance func sleep c e)

  -- The world before the attempt that is `k` attempts after the attempt `attempt` in `s`.
  abbrev pub world_at : ℕ → ℕ → S → S
  world_at zero attempt s = s
  world_at (suc k) attempt s = world_at k (attempt + 1) (sleep attempt (func s).1)

  -- The first `k` attempts fail with exceptions that are retried.
  abbrev pub Undecided : ℕ → ℕ → S → Type 0
  Undecided zero attempt s = Unit
  Undecided (suc k) attempt s =
      (decisive (func s).0 ≡ false) × Undecided k (attempt + 1) (sleep attempt (func s).1)

  -- `k` attempts failed and the one after them ended the call: it was decisive or the last.
  abbrev pub EndsAfter : ℕ → ℕ → ℕ → S → Report S A E → Type 0
  EndsAfter k left attempt s report =
      (k < left)
      × (Undecided k attempt s
          × (((decisive (func (world_at k attempt s)).0 ≡ true) ⊎ (suc k ≡ left))
              × (report ≡ record {
                answer = answer_of (func (world_at k attempt s)).0;
                attempt_count = attempt + k;
                world = (func (world_at k attempt s)).1;
              })))

  next-EndsAfter :
      (k left attempt : ℕ) (s : S) (e : E) (report : Report S A E)
      → (func s).0 ≡ raises e
      → is_retryable isinstance func sleep c e ≡ true
      → EndsAfter k left (attempt + 1) (sleep attempt (func s).1) report
      → EndsAfter (suc k) (suc left) attempt s report
  next-EndsAfter k left attempt s e report o t (l, (u, (d, r))) = (
    omega arith,
    (
      (rw (o, t) refl, u),
      (
        elim d [ inl x ↦ inl x | inr x ↦ inr (ap suc x) ],
        r
            ∙ ap
                (λ n. record {
                  answer = answer_of (func (world_at k (attempt + 1) (sleep attempt (func s).1))).0;
                  attempt_count = n;
                  world = (func (world_at k (attempt + 1) (sleep attempt (func s).1))).1;
                })
                (omega arith),
      ),
    ),
  )

  pub attempt_again :
      (left attempt : ℕ) (last : Option E) (s : S) (e : E)
      → (func s).0 ≡ raises e
      → is_retryable isinstance func sleep c e ≡ true
      → (attempt == c.max_attempts) ≡ false
      → attempt_from isinstance func sleep c (suc left) attempt last s
        ≡ attempt_from isinstance func sleep c left
            (attempt + 1)
            (some e)
            (sleep attempt (func s).1)
  unfolding attempt_from
  attempt_again left attempt last s e o retry before_end =
      rw (attempt_from, o, retry, before_end) refl

  pub attempt_last :
      (left attempt : ℕ) (last : Option E) (s : S) (e : E)
      → (func s).0 ≡ raises e
      → is_retryable isinstance func sleep c e ≡ true
      → (attempt == c.max_attempts) ≡ true
      → attempt_from isinstance func sleep c (suc left) attempt last s
        ≡ record { answer = failed e; attempt_count = attempt; world = (func s).1 }
  unfolding attempt_from
  attempt_last left attempt last s e o retry at_end = rw (attempt_from, o, retry, at_end) refl

  abbrev counted : Ended A E → S → ℕ → Report S A E
  counted answer s n = record { answer = answer; attempt_count = n; world = (func s).1 }

  last-EndsAfter :
      (attempt : ℕ) (last : Option E) (s : S)
      → attempt ≡ c.max_attempts
      → EndsAfter zero 1 attempt s (attempt_from isinstance func sleep c 1 attempt last s)
  unfolding attempt_from
  last-EndsAfter attempt last s h = (
    omega arith,
    (
      tt,
      (
        inr refl,
        elim (Outcome-cases (func s).0) [
          | inl (a, o) ↦ rw (attempt_from, o) (ap (counted (value a) s) (omega arith))
          | inr (e, o) ↦ elim (Bool-cases (is_retryable isinstance func sleep c e)) [
            | inr no_retry ↦
                rw (attempt_from, o, no_retry) (ap (counted (failed e) s) (omega arith))
            | inl retry ↦
                let at_end : (attempt == c.max_attempts) ≡ true = ground arith in
                rw (attempt_from, o, retry, at_end) (ap (counted (failed e) s) (omega arith))
          ]
        ],
      ),
    ),
  )

  attempt_from-EndsAfter :
      (left attempt : ℕ) (last : Option E) (s : S)
      → left + attempt ≡ c.max_attempts
      → (k : ℕ) × EndsAfter k
          (suc left)
          attempt
          s
          (attempt_from isinstance func sleep c (suc left) attempt last s)
  unfolding attempt_from
  attempt_from-EndsAfter zero attempt last s h = (zero, last-EndsAfter attempt last s (omega arith))
  attempt_from-EndsAfter (suc left) attempt last s h = elim (Outcome-cases (func s).0) [
    | inl (a, o) ↦ (
      zero,
      (
        omega arith,
        (tt, (inl (rw o refl), rw (attempt_from, o) (ap (counted (value a) s) (omega arith)))),
      ),
    )
    | inr (e, o) ↦ elim (Bool-cases (is_retryable isinstance func sleep c e)) [
      | inr no_retry ↦ (
        zero,
        (
          omega arith,
          (
            tt,
            (
              inl (rw (o, no_retry) refl),
              rw (attempt_from, o, no_retry) (ap (counted (failed e) s) (omega arith)),
            ),
          ),
        ),
      )
      | inl retry ↦
          let before_end : (attempt == c.max_attempts) ≡ false = ground arith in
          let (k, ends) =
            attempt_from-EndsAfter left (attempt + 1) (some e) (sleep attempt (func s).1)
              (omega arith) in
          let goes_on = attempt_again (suc left) attempt last s e o retry before_end in
          (
            suc k,
            subst (EndsAfter (suc k) (suc (suc left)) attempt s) (sym goes_on) (
                next-EndsAfter k (suc left) attempt s e
                  (attempt_from isinstance func sleep c (suc left) (attempt + 1) (some e)
                    (sleep attempt (func s).1))
                  o retry ends),
          )
    ]
  ]

  from_one :
      (s : S) (n : ℕ)
      → n ≡ c.max_attempts
      → 1 ≤ n
      → (k : ℕ) × EndsAfter k n 1 s (attempt_from isinstance func sleep c n 1 none s)
  from_one s zero e h = absurd (omega arith)
  from_one s (suc left) e h = attempt_from-EndsAfter left 1 none s (omega arith)

  -- With at least one attempt allowed, `execute` ends after at most that many calls of the
  -- function: all but the last raised exceptions that are retried, the last one returned, raised
  -- what is not retried or was the last allowed, and its outcome is the answer.
  pub execute-EndsAfter :
      (s : S)
      → 1 ≤ c.max_attempts
      → (k : ℕ) × EndsAfter k c.max_attempts 1 s (execute isinstance func sleep c s)
  unfolding execute
  execute-EndsAfter s h = from_one s c.max_attempts refl h
