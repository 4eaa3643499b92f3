-- ===== src/Circuit/HalfOpen.antt =====
-- How many probes a half-open breaker lets through, and whether it can recover.
use gauth_py.Base.{
  ℕ, ◌+◌, ◌-◌, ◌≤◌, ◌<◌, ◌≡◌, List, [], ◌∷◌, some, arith, min, length, All, if◌then◌else◌,
}
use gauth_py.Circuit.{closed, opened, half_open, CircuitBreaker, returns, can_execute}
use gauth_py.Circuit.Guards.{Call, execute_call, execute_calls}

-- The requests let through among checks at the given times, with no result in between.
pub admitted : CircuitBreaker → List ℕ → ℕ
unfolding can_execute
admitted b [] = 0
admitted b (now ∷ nows) =
    let (c, allowed) = can_execute b now in
    let rest = admitted c nows in if allowed then rest + 1 else rest

half_open-admitted :
    (b : CircuitBreaker) (nows : List ℕ)
    → b.state ≡ half_open
    → admitted b nows ≡ min (length nows) (b.half_open_limit - b.half_open_requests)
unfolding admitted
half_open-admitted b [] s = omega arith
half_open-admitted b (now ∷ nows) s = ground (arith, half_open-admitted (can_execute b now).0 nows)

-- Once its timeout has passed, an open breaker that hears no result lets through one request more
-- than its half-open limit: the one that makes it half-open is not counted.
pub opened_admits :
    (b : CircuitBreaker) (t now : ℕ) (nows : List ℕ)
    → b.state ≡ opened
    → b.last_failure_time ≡ some t
    → t + b.reset_timeout ≤ now
    → admitted b (now ∷ nows) ≡ 1 + min (length nows) b.half_open_limit
unfolding admitted
opened_admits b t now nows s l h = ground (arith, half_open-admitted (can_execute b now).0 nows)

-- Every call of the list returns.
abbrev pub AllReturn : {A E : Type 0} → List (Call A E) → Type 0
AllReturn {A} {E} cs = All (λ (c : Call A E). (a : A) × (c.outcome ≡ returns a)) cs

record Stuck (b : CircuitBreaker) : Type 0 where
  state_half_open : b.state ≡ half_open
  successes_few : b.success_count ≤ b.half_open_requests + 1
  probes_few : b.half_open_requests ≤ b.half_open_limit
  threshold_far : b.half_open_limit + 1 < b.success_threshold

execute_call-Stuck :
    {A E : Type 0} (b : CircuitBreaker) (c : Call A E) (a : A)
    → c.outcome ≡ returns a
    → Stuck b
    → Stuck (execute_call b c)
unfolding execute_call
execute_call-Stuck b c a e v = ground arith

execute_calls-Stuck :
    {A E : Type 0} (b : CircuitBreaker) (cs : List (Call A E))
    → AllReturn cs
    → Stuck b
    → Stuck (execute_calls b cs)
unfolding execute_calls
execute_calls-Stuck b [] r v = v
execute_calls-Stuck b (c ∷ cs) r v =
    execute_calls-Stuck (execute_call b c) cs r.1 (execute_call-Stuck b c r.0.0 r.0.1 v)

opened-Stuck :
    {A E : Type 0} (b : CircuitBreaker) (c : Call A E) (a : A) (t : ℕ)
    → b.state ≡ opened
    → b.last_failure_time ≡ some t
    → t + b.reset_timeout ≤ c.start
    → c.outcome ≡ returns a
    → b.half_open_limit + 1 < b.success_threshold
    → Stuck (execute_call b c)
unfolding execute_call
opened-Stuck b c a t s l h e k = ground arith

-- A breaker whose success threshold exceeds its half-open limit by two or more never recovers:
-- after its timeout, however many calls follow one another and all return, it stays half-open.
pub never_recovers :
    {A E : Type 0} (b : CircuitBreaker) (c : Call A E) (cs : List (Call A E)) (t : ℕ)
    → b.state ≡ opened
    → b.last_failure_time ≡ some t
    → t + b.reset_timeout ≤ c.start
    → b.half_open_limit + 1 < b.success_threshold
    → AllReturn (c ∷ cs)
    → (execute_calls b (c ∷ cs)).state ≡ half_open
unfolding execute_calls
never_recovers b c cs t s l h k r =
    (execute_calls-Stuck (execute_call b c) cs r.1
      (opened-Stuck b c r.0.0 t s l h r.0.1 k)).state_half_open

-- The successes and probes of a half-open breaker that has had `n` calls, all of which returned.
record Probing (n : ℕ) (b : CircuitBreaker) : Type 0 where
  is_half_open : b.state ≡ half_open
  successes : b.success_count ≡ n + 1
  probes : b.half_open_requests ≡ n
  enough : b.success_threshold ≤ b.half_open_limit + 1

closes_after :
    {A E : Type 0} (b : CircuitBreaker) (cs : List (Call A E)) (n : ℕ)
    → Probing n b
    → AllReturn cs
    → n + 1 + length cs ≡ b.success_threshold
    → 0 < length cs
    → ((execute_calls b cs).state ≡ closed) × ((execute_calls b cs).failure_count ≡ 0)
unfolding execute_calls execute_call
closes_after b [] n v r e p = absurd (omega arith)
closes_after b (c ∷ []) n v r e p = ground arith
closes_after b (c ∷ c' ∷ cs) n v r e p =
    closes_after (execute_call b c) (c' ∷ cs) (n + 1) (ground arith) r.1 (ground arith)
      (omega arith)

-- With a success threshold of at most the half-open limit plus one, an open breaker whose timeout
-- has passed closes after as many calls as the threshold asks for, all of which return, and
-- forgets its failures.
pub recovers :
    {A E : Type 0} (b : CircuitBreaker) (c : Call A E) (cs : List (Call A E)) (t : ℕ)
    → b.state ≡ opened
    → b.last_failure_time ≡ some t
    → t + b.reset_timeout ≤ c.start
    → b.success_threshold ≤ b.half_open_limit + 1
    → AllReturn (c ∷ cs)
    → length (c ∷ cs) ≡ b.success_threshold
    → ((execute_calls b (c ∷ cs)).state ≡ closed) × ((execute_calls b (c ∷ cs)).failure_count ≡ 0)
unfolding execute_calls execute_call
recovers b c [] t s l h k r e = ground arith
recovers b c (c' ∷ cs) t s l h k r e =
    closes_after (execute_call b c) (c' ∷ cs) 0 (ground arith) r.1 (ground arith) (omega arith)
