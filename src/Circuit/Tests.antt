-- ===== src/Circuit/Tests.antt =====
-- Runs of the circuit breaker.
use gauth_py.Base.{ℕ, ◌+◌, ◌<◌, ◌≡◌, ◌↔◌, refl, List, [], ◌∷◌, none, some, String, arith}
use gauth_py.Circuit.{
  CircuitBreakerOptions, CircuitBreaker, closed, opened, half_open, init, run, Outcome, returns,
  raises, circuit_open, execute_sync, Event, asks, succeeds, fails,
}
use gauth_py.Circuit.Invariant.{Inv, run-init-Inv}
use gauth_py.Circuit.Guards.{Call, execute_calls, opened_refuses_iff}
use gauth_py.Circuit.HalfOpen.{admitted, opened_admits, never_recovers, recovers}
use gauth_py.Circuit.History.{Explains, run-init-Explains}

abbrev options : CircuitBreakerOptions
options = record {
  name = "db";
  failure_threshold = 2;
  reset_timeout = 60;
  half_open_limit = 2;
  success_threshold = 2;
}

abbrev fresh : CircuitBreaker
fresh = record {
  options = options;
  state = closed;
  failure_count = 0;
  success_count = 0;
  total_requests = 0;
  last_failure_time = none;
  last_success_time = none;
  state_change_time = 0;
  half_open_requests = 0;
  transitions = [];
}

new_breaker : init options 0 ≡ fresh
unfolding init
new_breaker = refl

abbrev events : List (ℕ × Event)
events =
    (1, asks)
    ∷ (2, fails)
    ∷ (3, asks)
    ∷ (4, fails)
    ∷ (70, asks)
    ∷ (71, succeeds)
    ∷ (72, succeeds)
    ∷ []

closes_again : (run fresh events).state ≡ closed
unfolding run
closes_again = refl

run-init-Inv_example : Inv (run (init options 0) events)
run-init-Inv_example =
    run-init-Inv options 0 events (record { failures = omega arith; successes = omega arith })

run-init-Explains_example : Explains (run (init options 0) events)
run-init-Explains_example = run-init-Explains options 0 events

abbrev broken : CircuitBreaker
broken = record fresh { state = opened; failure_count = 2; last_failure_time = some 100 }

abbrev answer : Unit {0} → Outcome ℕ String
answer _ = returns 7

opened_refuses_iff_example :
    (execute_sync broken 120 121 answer
      ≡ (record broken { total_requests = broken.total_requests + 1 }, circuit_open broken.name))
    ↔ (120 < 100 + broken.reset_timeout)
opened_refuses_iff_example = opened_refuses_iff broken 120 121 100 answer refl refl

abbrev call : ℕ → Outcome ℕ String → Call ℕ String
call start outcome = record { start = start; finish = start + 1; outcome = outcome }

abbrev one_failure : List (Call ℕ String)
one_failure = call 1 (raises "refused") ∷ call 3 (returns 5) ∷ []

opened_admits_example : admitted broken (160 ∷ 161 ∷ 162 ∷ 163 ∷ []) ≡ 3
opened_admits_example = opened_admits broken 100 160 (161 ∷ 162 ∷ 163 ∷ []) refl refl (omega arith)

abbrev strict : CircuitBreaker
strict = record broken { options = record options { success_threshold = 4 } }

abbrev three_returns : List (Call ℕ String)
three_returns = call 170 (returns 1) ∷ call 180 (returns 2) ∷ call 190 (returns 3) ∷ []

never_recovers_example :
    (execute_calls strict (call 160 (returns 0) ∷ three_returns)).state ≡ half_open
never_recovers_example =
    never_recovers strict (call 160 (returns 0)) three_returns 100 refl refl (omega arith)
      (omega arith) ((0, refl), ((1, refl), ((2, refl), ((3, refl), tt))))

abbrev one_return : List (Call ℕ String)
one_return = call 170 (returns 1) ∷ []

recovers_example :
    ((execute_calls broken (call 160 (returns 0) ∷ one_return)).state ≡ closed)
    × ((execute_calls broken (call 160 (returns 0) ∷ one_return)).failure_count ≡ 0)
recovers_example =
    recovers broken (call 160 (returns 0)) one_return 100 refl refl (omega arith) (omega arith)
      ((0, refl), ((1, refl), tt)) (omega arith)
