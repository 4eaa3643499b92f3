-- ===== src/Circuit.antt =====
-- gauth/circuit/circuit.py: `CircuitBreaker`. Times are microseconds; `now` is what the clock
-- reads inside one locked section. The callback `on_state_change` is given each transition after
-- the breaker has recorded it and its exceptions are caught, so it leaves no trace here.
pub mod Invariant
pub mod Guards
pub mod HalfOpen
pub mod History
mod Tests
use gauth_py.Base.{
  ℕ, suc, ◌+◌, ◌-◌, Bool, true, false, List, [], ◌∷◌, ◌++◌, Option, none, some, String, ltb, leb,
  if◌then◌else◌, length, drop,
}

pub data CircuitState : Type 0 where
  closed opened half_open : CircuitState

-- The text of the reason, with the count that it prints.
pub data Reason : Type 0 where
  manual_reset timeout_elapsed : Reason
  threshold_exceeded : ℕ → Reason
  recovered : ℕ → Reason

pub record StateTransition : Type 0 where
  pub from_state : CircuitState
  pub to_state : CircuitState
  pub timestamp : ℕ
  pub reason : Reason
  pub failure_count : ℕ
  pub success_count : ℕ

pub record CircuitBreakerOptions : Type 0 where
  pub name : String
  pub failure_threshold : ℕ
  pub reset_timeout : ℕ
  pub half_open_limit : ℕ
  pub success_threshold : ℕ

pub record CircuitBreaker : Type 0 where
  pub options : CircuitBreakerOptions
  pub open options use *
  pub state : CircuitState
  pub failure_count : ℕ
  pub success_count : ℕ
  pub total_requests : ℕ
  pub last_failure_time : Option ℕ
  pub last_success_time : Option ℕ
  pub state_change_time : ℕ
  pub half_open_requests : ℕ
  pub transitions : List StateTransition

unfoldable pub init : CircuitBreakerOptions → ℕ → CircuitBreaker
init options now = record {
  options = options;
  state = closed;
  failure_count = 0;
  success_count = 0;
  total_requests = 0;
  last_failure_time = none;
  last_success_time = none;
  state_change_time = now;
  half_open_requests = 0;
  transitions = [];
}

-- `self._transitions[-50:]`, once more than 100 are kept.
unfoldable pub trim : List StateTransition → List StateTransition
trim ts = if ltb 100 (length ts) then drop (length ts - 50) ts else ts

unfoldable pub record_transition :
    CircuitBreaker → CircuitState → CircuitState → Reason → ℕ → CircuitBreaker
record_transition b from to why now = record b { transitions = trim (b.transitions ++ entry ∷ []) }
  where
    entry : StateTransition
    entry = record {
      from_state = from;
      to_state = to;
      timestamp = now;
      reason = why;
      failure_count = b.failure_count;
      success_count = b.success_count;
    }

unfoldable pub transition_to_open : CircuitBreaker → ℕ → CircuitBreaker
unfolding record_transition
transition_to_open b now =
    record_transition (record b { state = opened; state_change_time = now; half_open_requests = 0 })
      b.state opened (threshold_exceeded b.failure_count) now

unfoldable pub transition_to_half_open : CircuitBreaker → ℕ → CircuitBreaker
unfolding record_transition
transition_to_half_open b now =
    record_transition
      (record b {
        state = half_open;
        state_change_time = now;
        half_open_requests = 0;
        success_count = 0;
      })
      b.state half_open timeout_elapsed now

unfoldable pub transition_to_closed : CircuitBreaker → ℕ → CircuitBreaker
unfolding record_transition
transition_to_closed b now =
    record_transition
      (record b {
        state = closed;
        state_change_time = now;
        failure_count = 0;
        half_open_requests = 0;
      })
      b.state closed (recovered b.success_count) now

unfoldable pub reset : CircuitBreaker → ℕ → CircuitBreaker
unfolding record_transition
reset b now =
    record_transition
      (record b {
        state = closed;
        failure_count = 0;
        success_count = 0;
        half_open_requests = 0;
        state_change_time = now;
      })
      b.state closed manual_reset now

-- The subtraction of two clock readings may be negative, so the timeout is added instead.
unfoldable pub should_attempt_reset : CircuitBreaker → ℕ → Bool
should_attempt_reset b now = elim b.state [
  | opened ↦ elim b.last_failure_time [ none ↦ true | some t ↦ leb (t + b.reset_timeout) now ]
  | _ ↦ false
]

unfoldable pub can_execute : CircuitBreaker → ℕ → CircuitBreaker × Bool
unfolding should_attempt_reset transition_to_half_open
can_execute b now =
    let c = record b { total_requests = b.total_requests + 1 } in
    elim b.state [
      | closed ↦ (c, true)
      | opened ↦
          if should_attempt_reset c now then (transition_to_half_open c now, true) else (c, false)
      | half_open ↦
          if ltb c.half_open_requests c.half_open_limit
          then (record c { half_open_requests = c.half_open_requests + 1 }, true)
          else (c, false)
    ]

unfoldable pub on_success : CircuitBreaker → ℕ → CircuitBreaker
unfolding transition_to_closed
on_success b now =
    let c = record b { success_count = b.success_count + 1; last_success_time = some now } in
    elim b.state [
      | half_open ↦
          if leb c.success_threshold c.success_count then transition_to_closed c now else c
      | _ ↦ c
    ]

unfoldable pub on_failure : CircuitBreaker → ℕ → CircuitBreaker
unfolding transition_to_open
on_failure b now =
    let c = record b { failure_count = b.failure_count + 1; last_failure_time = some now } in
    elim b.state [
      | closed ↦ if leb c.failure_threshold c.failure_count then transition_to_open c now else c
      | half_open ↦ transition_to_open c now
      | opened ↦ c
    ]

-- What the protected function does: it returns, or it raises.
pub data Outcome (A E : Type 0) : Type 0 where
  returns : A → Outcome A E
  raises : E → Outcome A E

-- What the caller sees.
pub data CallResult (A E : Type 0) : Type 0 where
  result : A → CallResult A E
  error : E → CallResult A E
  circuit_open : String → CallResult A E

-- The `try` around the function; `finish` is the clock after it.
unfoldable pub settle :
    {A E : Type 0} → CircuitBreaker → ℕ → Outcome A E → CircuitBreaker × CallResult A E
unfolding on_success on_failure
settle b finish (returns a) = (on_success b finish, result a)
settle b finish (raises e) = (on_failure b finish, error e)

-- `func` is called only if the breaker lets the request through.
unfoldable pub execute_sync :
    {A E : Type 0}
    → CircuitBreaker
    → ℕ
    → ℕ
    → (Unit {0} → Outcome A E)
    → CircuitBreaker × CallResult A E
unfolding can_execute settle
execute_sync b start finish func =
    let (c, allowed) = can_execute b start in
    if allowed then settle c finish (func tt) else (c, circuit_open b.name)

-- The locked sections, which threads run in any order.
pub data Event : Type 0 where
  asks succeeds fails resets : Event

unfoldable pub step : CircuitBreaker → ℕ × Event → CircuitBreaker
unfolding can_execute on_success on_failure reset
step b (now, asks) = (can_execute b now).0
step b (now, succeeds) = on_success b now
step b (now, fails) = on_failure b now
step b (now, resets) = reset b now

unfoldable pub run : CircuitBreaker → List (ℕ × Event) → CircuitBreaker
unfolding step
run b [] = b
run b (e ∷ es) = run (step b e) es
