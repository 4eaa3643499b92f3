-- ===== src/Resilience/Protected.antt =====
-- gauth/resilience/circuit.py: `CircuitBreakerRetry`, a retry around a circuit breaker. The world
-- has a clock, which the function and the sleeps move.
use gauth_py.Base.{
  ℕ, zero, suc, ◌+◌, ◌-◌, ◌≤◌, ◌≡◌, refl, ap, ◌∙◌, Bool, true, false, Option, none, some, String,
  if◌then◌else◌, arith,
}
use gauth_py.Circuit.{
  CircuitBreaker, opened, Outcome, returns, raises, can_execute, should_attempt_reset, on_success,
  on_failure,
}
use gauth_py.Resilience.Retry.Attempts.{attempt_again, attempt_last}
use gauth_py.Resilience.Retry.{RetryConfig, failed, Report, is_retryable, attempt_from, execute}

-- An exception of the function, or the CircuitBreakerOpenError of the named breaker.
pub data Failure (E : Type 0) : Type 0 where
  own : E → Failure E
  breaker_open : String → Failure E

module _ {S A E : Type 0} (clock : S → ℕ) (func : S → Outcome A E × S) where
  -- What the breaker records and passes on.
  unfoldable pub settled :
      CircuitBreaker → Outcome A E × S → Outcome A (Failure E) × (CircuitBreaker × S)
  unfolding on_success on_failure
  settled b (returns a, s) = (returns a, (on_success b (clock s), s))
  settled b (raises e, s) = (raises (own e), (on_failure b (clock s), s))

  -- `circuit_protected_func`: a call of the function through the breaker.
  unfoldable pub protected : CircuitBreaker × S → Outcome A (Failure E) × (CircuitBreaker × S)
  unfolding can_execute settled
  protected (b, s) =
      let (c, allowed) = can_execute b (clock s) in
      if allowed then settled c (func s) else (raises (breaker_open b.name), (c, s))

  -- `time.sleep` leaves the breaker alone.
  abbrev pub sleeping : (ℕ → S → S) → ℕ → CircuitBreaker × S → CircuitBreaker × S
  sleeping sleep attempt (b, s) = (b, sleep attempt s)

  unfoldable pub execute_protected :
      {T : Type 0}
      → (Failure E → T → Bool)
      → (ℕ → S → S)
      → RetryConfig T
      → CircuitBreaker × S
      → Report (CircuitBreaker × S) A (Failure E)
  unfolding execute protected
  execute_protected isinstance sleep c s = execute isinstance protected (sleeping sleep) c s

  module _ {T : Type 0} (isinstance : Failure E → T → Bool) (sleep : ℕ → S → S)
      (c : RetryConfig T) where
    -- The world after `n` sleeps that follow the attempts from `attempt` on.
    abbrev pub slept : ℕ → ℕ → S → S
    slept zero attempt s = s
    slept (suc n) attempt s = slept n (attempt + 1) (sleep attempt s)

    -- During the first `n` attempts the breaker's timeout has not passed.
    abbrev pub TooEarly : CircuitBreaker → ℕ → ℕ → S → Type 0
    TooEarly b zero attempt s = Unit
    TooEarly b (suc n) attempt s =
        (should_attempt_reset b (clock s) ≡ false) × TooEarly b n (attempt + 1) (sleep attempt s)

    abbrev pub counting : CircuitBreaker → ℕ → CircuitBreaker
    counting b n = record b { total_requests = b.total_requests + n }

    refused :
        (b : CircuitBreaker) (s : S)
        → b.state ≡ opened
        → should_attempt_reset b (clock s) ≡ false
        → protected (b, s) ≡ (raises (breaker_open b.name), (counting b 1, s))
    unfolding protected can_execute should_attempt_reset
    refused b s o e = ground (arith, o, e)

    refused_answer :
        (b : CircuitBreaker) (s : S)
        → b.state ≡ opened
        → should_attempt_reset b (clock s) ≡ false
        → (protected (b, s)).0 ≡ raises (breaker_open b.name)
    refused_answer b s o e = ap (λ x. x.0) (refused b s o e)

    refused_world :
        (b : CircuitBreaker) (s : S)
        → b.state ≡ opened
        → should_attempt_reset b (clock s) ≡ false
        → (protected (b, s)).1 ≡ (counting b 1, s)
    refused_world b s o e = ap (λ x. x.1) (refused b s o e)

    TooEarly-counting :
        (b : CircuitBreaker) (n attempt : ℕ) (s : S)
        → TooEarly b n attempt s
        → TooEarly (counting b 1) n attempt s
    unfolding should_attempt_reset
    TooEarly-counting b zero attempt s h = tt
    TooEarly-counting b (suc n) attempt s h =
        (h.0, TooEarly-counting b n (attempt + 1) (sleep attempt s) h.1)

    abbrev tally : CircuitBreaker → ℕ → ℕ → S → Report (CircuitBreaker × S) A (Failure E)
    tally b count total s = record {
      answer = failed (breaker_open b.name);
      attempt_count = count;
      world = (record b { total_requests = total }, s);
    }

    -- The report of a call that was refused at each attempt.
    abbrev pub refusals : CircuitBreaker → ℕ → ℕ → S → Report (CircuitBreaker × S) A (Failure E)
    refusals b count requests s = record {
      answer = failed (breaker_open b.name);
      attempt_count = count;
      world = (counting b requests, s);
    }

    module _
        (retried : (name : String)
          → is_retryable isinstance protected (sleeping sleep) c (breaker_open name) ≡ true) where
      refused_from :
          (left attempt : ℕ) (last : Option (Failure E)) (b : CircuitBreaker) (s : S)
          → left + attempt ≡ c.max_attempts
          → b.state ≡ opened
          → TooEarly b (suc left) attempt s
          → attempt_from isinstance protected (sleeping sleep) c (suc left) attempt last (b, s)
            ≡ refusals b (attempt + left) (suc left) (slept left attempt s)
      refused_from zero attempt last b s h o e =
          attempt_last isinstance protected (sleeping sleep) c zero attempt last (b, s)
            (breaker_open b.name) (refused_answer b s o e.0) (retried b.name) (ground arith)
          ∙ ap
              (λ w. record {
                answer = failed (breaker_open b.name);
                attempt_count = attempt;
                world = w;
              })
              (refused_world b s o e.0)
          ∙ ap (λ n. refusals b n 1 s) (omega arith)
      refused_from (suc left) attempt last b s h o e =
          attempt_again isinstance protected (sleeping sleep) c (suc left) attempt last (b, s)
            (breaker_open b.name) (refused_answer b s o e.0) (retried b.name) (ground arith)
          ∙ ap
              (λ w.
                attempt_from isinstance protected (sleeping sleep) c (suc left) (attempt + 1)
                  (some (breaker_open b.name)) (sleeping sleep attempt w))
              (refused_world b s o e.0)
          ∙ refused_from left (attempt + 1) (some (breaker_open b.name)) (counting b 1)
              (sleep attempt s) (omega arith) o
              (TooEarly-counting b (suc left) (attempt + 1) (sleep attempt s) e.1)
          ∙ ap
              (λ n.
                tally b n (b.total_requests + 1 + suc left)
                  (slept left (attempt + 1) (sleep attempt s)))
              (omega arith)
          ∙ ap (λ n. tally b (attempt + suc left) n (slept left (attempt + 1) (sleep attempt s)))
              (omega arith)

      first_refused :
          (n : ℕ) (b : CircuitBreaker) (s : S)
          → n ≡ c.max_attempts
          → 1 ≤ n
          → b.state ≡ opened
          → TooEarly b n 1 s
          → attempt_from isinstance protected (sleeping sleep) c n 1 none (b, s)
            ≡ refusals b n n (slept (n - 1) 1 s)
      first_refused zero b s h l o e = absurd (omega arith)
      first_refused (suc left) b s h l o e =
          let same : left ≡ suc left - 1 = omega arith in
          refused_from left 1 none b s (omega arith) o e
          ∙ ap (λ n. tally b n (b.total_requests + suc left) (slept left 1 s)) (omega arith)
          ∙ ap (λ n. refusals b (suc left) (suc left) (slept n 1 s)) same

      -- Where the breaker's exception is retried and the breaker stays open through all attempts, the
      -- function is never called: the breaker counts as many requests as attempts are allowed, the
      -- sleeps between them are made all the same, and the call ends with the breaker's exception.
      pub execute_protected-opened :
          (b : CircuitBreaker) (s : S)
          → 1 ≤ c.max_attempts
          → b.state ≡ opened
          → TooEarly b c.max_attempts 1 s
          → execute_protected isinstance sleep c (b, s)
            ≡ refusals b c.max_attempts c.max_attempts (slept (c.max_attempts - 1) 1 s)
      unfolding execute_protected execute
      execute_protected-opened b s l o e = first_refused c.max_attempts b s refl l o e
