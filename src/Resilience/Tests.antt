-- ===== src/Resilience/Tests.antt =====
-- Runs of the resilience patterns, and the theorems at concrete inputs.
use gauth_py.Resilience.Retry.{is_retryable}
use gauth_py.Circuit.{should_attempt_reset}
use gauth_py.Base.{
  ℕ, ◌+◌, ◌-◌, ◌≡◌, refl, Bool, true, false, [], ◌∷◌, none, some, ltb, ◌==◌, if◌then◌else◌, arith,
}
use gauth_py.Circuit.{CircuitBreaker, opened, Outcome, returns, raises}
use gauth_py.Resilience.Retry.{RetryConfig, value, failed, nothing, execute}
use gauth_py.Resilience.Retry.Attempts.{EndsAfter, execute-EndsAfter}
use gauth_py.Resilience.Protected.{
  Failure, execute_protected, refusals, slept, TooEarly, execute_protected-opened,
}
use gauth_py.Base.Int.{pos}
use gauth_py.Resilience.Bulkhead.{Bulkhead, running, System}

-- One class of exceptions, of which every exception but 9 is an instance.
abbrev is_instance : ℕ → ℕ → Bool
is_instance e t = if e == 9 then false else true

-- The first two calls raise.
abbrev flaky : ℕ → Outcome ℕ ℕ × ℕ
flaky s = (if ltb s 2 then raises s else returns s, s + 1)

abbrev no_sleep : ℕ → ℕ → ℕ
no_sleep attempt s = s

abbrev policy : ℕ → RetryConfig ℕ
policy n = record {
  max_attempts = n;
  initial_delay = 1_000_000;
  max_delay = 30_000_000;
  multiplier = 200;
  jitter = true;
  retryable_exceptions = 0 ∷ [];
}

third_time :
    execute is_instance flaky no_sleep (policy 3) 0
    ≡ record { answer = value 2; attempt_count = 3; world = 3 }
unfolding execute
third_time = refl

gives_up :
    execute is_instance flaky no_sleep (policy 2) 0
    ≡ record { answer = failed 1; attempt_count = 2; world = 2 }
unfolding execute
gives_up = refl

-- With no attempt allowed the function is not called, and the answer is None.
no_attempt :
    execute is_instance flaky no_sleep (policy 0) 0
    ≡ record { answer = nothing; attempt_count = 0; world = 0 }
unfolding execute
no_attempt = refl

execute-EndsAfter_example :
    (k : ℕ) × EndsAfter is_instance flaky no_sleep
      (policy 3)
      k
      3
      1
      0
      (execute is_instance flaky no_sleep (policy 3) 0)
execute-EndsAfter_example = execute-EndsAfter is_instance flaky no_sleep (policy 3) 0 (omega arith)

abbrev tripped : CircuitBreaker
tripped = record {
  options = record {
    name = "db";
    failure_threshold = 5;
    reset_timeout = 60;
    half_open_limit = 1;
    success_threshold = 1;
  };
  state = opened;
  failure_count = 5;
  success_count = 0;
  total_requests = 5;
  last_failure_time = some 100;
  last_success_time = none;
  state_change_time = 100;
  half_open_requests = 0;
  transitions = [];
}

abbrev is_exception : Failure ℕ → ℕ → Bool
is_exception e t = true

abbrev read_clock : ℕ → ℕ
read_clock s = s

abbrev sleep_ten : ℕ → ℕ → ℕ
sleep_ten attempt s = s + 10

tripped_early : TooEarly read_clock flaky is_exception sleep_ten (policy 3) tripped 3 1 110
unfolding should_attempt_reset
tripped_early = (refl, (refl, (refl, tt)))

execute_protected-opened_example :
    execute_protected read_clock flaky is_exception sleep_ten (policy 3) (tripped, 110)
    ≡ refusals read_clock flaky is_exception sleep_ten
        (policy 3)
        tripped
        3
        3
        (slept read_clock flaky is_exception sleep_ten (policy 3) (3 - 1) 1 110)
unfolding is_retryable
execute_protected-opened_example =
    execute_protected-opened read_clock flaky is_exception sleep_ten (policy 3) (λ name. refl)
      tripped 110 (omega arith) refl tripped_early

-- The bulkhead when one task runs the function.
abbrev entered_once : Bulkhead
entered_once = record {
  max_concurrent = 2;
  semaphore = 1;
  sync_semaphore = 2;
  active_count = pos 1;
  total_requests = 1;
  rejected_requests = 0;
}

abbrev one_task : System
one_task = record { bulkhead = entered_once; tasks = running ∷ []; threads = [] }
