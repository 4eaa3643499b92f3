-- ===== src/Resilience/Retry.antt =====
-- gauth/resilience/patterns.py: `Retry`. The world `S` is what the protected function and the
-- sleeps read and write; a call answers and leaves a world. `execute` awaits where `execute_sync`
-- calls, and does the same.
pub mod Attempts
use gauth_py.Base.{
  ℕ, zero, suc, ◌+◌, ◌-◌, Bool, true, false, not, List, [], ◌∷◌, Option, none, some, any, ◌==◌,
  if◌then◌else◌,
}
use gauth_py.Circuit.{Outcome, returns, raises}

-- `T` are the exception classes.
pub record RetryConfig (T : Type 0) : Type 0 where
  pub max_attempts : ℕ
  pub initial_delay : ℕ
  pub max_delay : ℕ
  pub multiplier : ℕ
  pub jitter : Bool
  pub retryable_exceptions : List T

-- `__post_init__`, where `base` is the class Exception.
unfoldable pub post_init : {T : Type 0} → T → RetryConfig T → RetryConfig T
post_init base c = elim c.retryable_exceptions [
  | [] ↦ record c { retryable_exceptions = base ∷ [] }
  | t ∷ ts ↦ c
]

-- How `execute` ends: with a value, an exception, or `None` after no attempt.
pub data Ended (A E : Type 0) : Type 0 where
  value : A → Ended A E
  failed : E → Ended A E
  nothing : Ended A E

-- The answer, the attempt count and the world.
pub record Report (S A E : Type 0) : Type 0 where
  pub answer : Ended A E
  pub attempt_count : ℕ
  pub world : S

module _ {S A E T : Type 0} (isinstance : E → T → Bool) (func : S → Outcome A E × S)
    (sleep : ℕ → S → S) (c : RetryConfig T) where
  unfoldable pub is_retryable : E → Bool
  is_retryable e = any (isinstance e) c.retryable_exceptions

  -- `attempt` is the number of the attempt, `left` counts the attempts to come with it.
  unfoldable pub attempt_from : ℕ → ℕ → Option E → S → Report S A E
  unfolding is_retryable
  attempt_from zero attempt none s = record { answer = nothing; attempt_count = 0; world = s }
  attempt_from zero attempt (some e) s = record {
    answer = failed e;
    attempt_count = attempt - 1;
    world = s;
  }
  attempt_from (suc left) attempt last s =
      let (outcome, after) = func s in
      elim outcome [
        | returns a ↦ record { answer = value a; attempt_count = attempt; world = after }
        | raises e ↦
            let again = attempt_from left (attempt + 1) (some e) (sleep attempt after) in
            if not (is_retryable e)
            then record { answer = failed e; attempt_count = attempt; world = after }
            else if attempt == c.max_attempts
            then record { answer = failed e; attempt_count = attempt; world = after }
            else again
      ]

  unfoldable pub execute : S → Report S A E
  unfolding attempt_from
  execute s = attempt_from c.max_attempts 1 none s
