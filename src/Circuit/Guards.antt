-- ===== src/Circuit/Guards.antt =====
-- When a breaker refuses a call, and when failures open it.
use gauth_py.Base.{ℕ, ◌+◌, ◌<◌, ◌≡◌, ◌↔◌, refl, List, [], ◌∷◌, some, arith}
use gauth_py.Circuit.{
  closed, opened, CircuitBreaker, Outcome, returns, raises, circuit_open, execute_sync,
}

-- An open breaker refuses a call, whatever the function, exactly until the reset timeout has
-- passed since the last failure; a refusal changes nothing but the count of requests.
pub opened_refuses_iff :
    {A E : Type 0} (b : CircuitBreaker) (start finish t : ℕ) (func : Unit {0} → Outcome A E)
    → b.state ≡ opened
    → b.last_failure_time ≡ some t
    → (execute_sync b start finish func
        ≡ (record b { total_requests = b.total_requests + 1 }, circuit_open b.name))
      ↔ (start < t + b.reset_timeout)
unfolding execute_sync
opened_refuses_iff b start finish t func s l = (λ h. ground arith, λ h. ground arith)

-- One call as the caller makes it: when it starts, when the function ends, and how.
pub record Call (A E : Type 0) : Type 0 where
  pub start : ℕ
  pub finish : ℕ
  pub outcome : Outcome A E

unfoldable pub execute_call : {A E : Type 0} → CircuitBreaker → Call A E → CircuitBreaker
unfolding execute_sync
execute_call b c = (execute_sync b c.start c.finish (λ _. c.outcome)).0

unfoldable pub execute_calls : {A E : Type 0} → CircuitBreaker → List (Call A E) → CircuitBreaker
execute_calls b [] = b
execute_calls b (c ∷ cs) = execute_calls (execute_call b c) cs

abbrev pub failures : {A E : Type 0} → List (Call A E) → ℕ
failures [] = 0
failures (c ∷ cs) = elim c.outcome [ returns _ ↦ failures cs | raises _ ↦ failures cs + 1 ]

execute_call-closed :
    {A E : Type 0} (b : CircuitBreaker) (c : Call A E)
    → b.state ≡ closed
    → b.failure_count + failures (c ∷ []) < b.failure_threshold
    → ((execute_call b c).state ≡ closed)
      × ((execute_call b c).failure_count ≡ b.failure_count + failures (c ∷ []))
      × ((execute_call b c).options ≡ b.options)
unfolding execute_call
execute_call-closed b c s h = ground arith

-- Calls on a closed breaker whose failures stay below the threshold leave it closed, and every
-- one of the failures is still counted: a success in between clears nothing.
pub closed_counts_failures :
    {A E : Type 0} (b : CircuitBreaker) (cs : List (Call A E))
    → b.state ≡ closed
    → b.failure_count + failures cs < b.failure_threshold
    → ((execute_calls b cs).state ≡ closed)
      × ((execute_calls b cs).failure_count ≡ b.failure_count + failures cs)
      × ((execute_calls b cs).options ≡ b.options)
unfolding execute_calls
closed_counts_failures b [] s h = (s, omega arith, refl)
closed_counts_failures b (c ∷ cs) s h =
    ground (arith, execute_call-closed b c, closed_counts_failures (execute_call b c) cs)

-- The failure that brings the count to the threshold opens the breaker, at the time it ends.
pub trips_at_threshold :
    {A E : Type 0} (b : CircuitBreaker) (cs : List (Call A E)) (start finish : ℕ) (e : E)
    → b.state ≡ closed
    → b.failure_count + failures cs + 1 ≡ b.failure_threshold
    → let c =
        execute_call {A = A} {E = E}
          (execute_calls b cs)
          (record { start = start; finish = finish; outcome = raises e }) in
      (c.state ≡ opened) × (c.last_failure_time ≡ some finish)
unfolding execute_call
trips_at_threshold b cs start finish e s h = ground (arith, closed_counts_failures b cs)
