-- ===== src/Circuit/Invariant.antt =====
-- What holds of a breaker between any two locked sections, however threads interleave.
use gauth_py.Base.{
  ℕ, ◌-◌, ◌≤◌, ◌<◌, ◌≡◌, ◌≢◌, List, [], ◌∷◌, ◌++◌, none, arith, length, length-append, length-drop,
}
use gauth_py.Circuit.{
  closed, opened, half_open, CircuitBreaker, CircuitBreakerOptions, StateTransition, Event, asks,
  succeeds, fails, resets, init, trim, reset, can_execute, on_success, on_failure, step, run,
}

-- The thresholds that the dataclass documents as counts of at least one.
pub record IsSane (o : CircuitBreakerOptions) : Type 0 where
  pub failures : 0 < o.failure_threshold
  pub successes : 0 < o.success_threshold

pub record Inv (b : CircuitBreaker) : Type 0 where
  pub sane : IsSane b.options
  pub closed_below : b.state ≡ closed → b.failure_count < b.failure_threshold
  pub half_open_below : b.state ≡ half_open → b.success_count < b.success_threshold
  pub probes_bounded : b.half_open_requests ≤ b.half_open_limit
  pub probes_only_half_open : b.state ≢ half_open → b.half_open_requests ≡ 0
  pub opened_by_failure : b.state ≡ opened → b.last_failure_time ≢ none
  pub history_bounded : length b.transitions ≤ 100

length-trim :
    (ts : List StateTransition) (t : StateTransition)
    → length ts ≤ 100
    → length (trim (ts ++ t ∷ [])) ≤ 100
unfolding trim
length-trim ts t h =
    ground
      (arith, length-append ts (t ∷ []), length-drop (length (ts ++ t ∷ []) - 50) (ts ++ t ∷ []))

pub init-Inv : (o : CircuitBreakerOptions) (now : ℕ) → IsSane o → Inv (init o now)
unfolding init
init-Inv o now h = ground arith

reset-Inv : (b : CircuitBreaker) (now : ℕ) → Inv b → Inv (reset b now)
unfolding reset
reset-Inv b now v = grind (arith, length-trim)

can_execute-Inv : (b : CircuitBreaker) (now : ℕ) → Inv b → Inv (can_execute b now).0
unfolding can_execute
can_execute-Inv b now v = grind (arith, length-trim)

on_success-Inv : (b : CircuitBreaker) (now : ℕ) → Inv b → Inv (on_success b now)
unfolding on_success
on_success-Inv b now v = grind (arith, length-trim)

on_failure-Inv : (b : CircuitBreaker) (now : ℕ) → Inv b → Inv (on_failure b now)
unfolding on_failure
on_failure-Inv b now v = grind (arith, length-trim)

pub step-Inv : (b : CircuitBreaker) (e : ℕ × Event) → Inv b → Inv (step b e)
unfolding step
step-Inv b (now, asks) v = can_execute-Inv b now v
step-Inv b (now, succeeds) v = on_success-Inv b now v
step-Inv b (now, fails) v = on_failure-Inv b now v
step-Inv b (now, resets) v = reset-Inv b now v

run-Inv : (b : CircuitBreaker) (es : List (ℕ × Event)) → Inv b → Inv (run b es)
unfolding run
run-Inv b [] v = v
run-Inv b (e ∷ es) v = run-Inv (step b e) es (step-Inv b e v)

-- Whatever locked sections run, in whatever order and at whatever times, on a new breaker with
-- positive thresholds: closed, the failures stay below the failure threshold; half-open, the
-- successes stay below the success threshold; the probes counted never exceed the limit and are
-- zero outside half-open; an open breaker has the time of a failure; at most 100 transitions are
-- kept.
pub run-init-Inv :
    (o : CircuitBreakerOptions) (now : ℕ) (es : List (ℕ × Event))
    → IsSane o
    → Inv (run (init o now) es)
run-init-Inv o now es h = run-Inv (init o now) es (init-Inv o now h)
