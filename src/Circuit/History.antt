-- ===== src/Circuit/History.antt =====
-- The log of transitions against the diagram of the breaker's states.
use gauth_py.Base.{
  ℕ, some, zero, suc, ◌+◌, ◌-◌, ◌≡◌, ◌≢◌, refl, sym, ◌∙◌, List, [], ◌∷◌, ◌++◌, arith, length, drop,
  ltb, Bool-cases, inl, inr,
}
use gauth_py.Circuit.{
  CircuitState, closed, opened, half_open, Reason, manual_reset, timeout_elapsed,
  threshold_exceeded, recovered, CircuitBreaker, CircuitBreakerOptions, StateTransition, Event,
  asks, succeeds, fails, resets, init, trim, transition_to_open, transition_to_half_open,
  transition_to_closed, can_execute, on_success, on_failure, step, run,
}

-- The arrows of the diagram, each with the reason that it is recorded under.
abbrev pub Arrow : CircuitState → CircuitState → Reason → Type 0
Arrow from to manual_reset = to ≡ closed
Arrow from to timeout_elapsed = (from ≡ opened) × (to ≡ half_open)
Arrow from to (threshold_exceeded n) = (from ≢ opened) × (to ≡ opened)
Arrow from to (recovered n) = (from ≡ half_open) × (to ≡ closed)

-- The list is a walk along arrows from one state to another.
abbrev pub Walk : CircuitState → List StateTransition → CircuitState → Type 0
Walk s [] e = s ≡ e
Walk s (t ∷ ts) e =
    (t.from_state ≡ s) × Arrow t.from_state t.to_state t.reason × Walk t.to_state ts e

-- The log is a walk that ends in the state of the breaker.
abbrev pub Explains : CircuitBreaker → Type 0
Explains b = (s : CircuitState) × Walk s b.transitions b.state

Walk-snoc :
    (s e : CircuitState) (ts : List StateTransition) (t : StateTransition)
    → Walk s ts e
    → t.from_state ≡ e
    → Arrow t.from_state t.to_state t.reason
    → Walk s (ts ++ t ∷ []) t.to_state
Walk-snoc s e [] t w f a = (f ∙ sym w, a, refl)
Walk-snoc s e (x ∷ ts) t w f a = (w.0, w.1, Walk-snoc x.to_state e ts t w.2 f a)

Walk-drop :
    (n : ℕ) (s e : CircuitState) (ts : List StateTransition)
    → Walk s ts e
    → (r : CircuitState) × Walk r (drop n ts) e
Walk-drop zero s e ts w = (s, w)
Walk-drop (suc n) s e [] w = (s, w)
Walk-drop (suc n) s e (t ∷ ts) w = Walk-drop n t.to_state e ts w.2

Walk-trim :
    (s e : CircuitState) (ts : List StateTransition)
    → Walk s ts e
    → (r : CircuitState) × Walk r (trim ts) e
unfolding trim
Walk-trim s e ts w = elim (Bool-cases (ltb 100 (length ts))) [
  | inl t ↦ rw (t, trim) (Walk-drop (length ts - 50) s e ts w)
  | inr f ↦ rw (f, trim) (s, w)
]

Walk-log :
    (s e : CircuitState) (ts : List StateTransition) (t : StateTransition)
    → Walk s ts e
    → t.from_state ≡ e
    → Arrow t.from_state t.to_state t.reason
    → (r : CircuitState) × Walk r (trim (ts ++ t ∷ [])) t.to_state
Walk-log s e ts t w f a = Walk-trim s t.to_state (ts ++ t ∷ []) (Walk-snoc s e ts t w f a)

-- Each operation leaves the log and the state alone, or makes one transition.
can_execute_cases {ℓ} :
    (P : CircuitBreaker → Type ℓ) (b : CircuitBreaker) (now : ℕ)
    → ((n h : ℕ) → P (record b { total_requests = n; half_open_requests = h }))
    → ((n : ℕ)
        → b.state ≡ opened
        → P (transition_to_half_open (record b { total_requests = n }) now))
    → P (can_execute b now).0
unfolding can_execute
can_execute_cases P b now same moves = ground (
  arith,
  same (b.total_requests + 1) b.half_open_requests,
  same (b.total_requests + 1) (b.half_open_requests + 1),
  moves (b.total_requests + 1),
)

on_success_cases {ℓ} :
    (P : CircuitBreaker → Type ℓ) (b : CircuitBreaker) (now : ℕ)
    → let c = record b { success_count = b.success_count + 1; last_success_time = some now } in
      P c → (b.state ≡ half_open → P (transition_to_closed c now)) → P (on_success b now)
unfolding on_success
on_success_cases P b now same moves = ground arith

on_failure_cases {ℓ} :
    (P : CircuitBreaker → Type ℓ) (b : CircuitBreaker) (now : ℕ)
    → let c = record b { failure_count = b.failure_count + 1; last_failure_time = some now } in
      P c → (b.state ≢ opened → P (transition_to_open c now)) → P (on_failure b now)
unfolding on_failure
on_failure_cases P b now same moves = ground arith

step-Explains : (b : CircuitBreaker) (e : ℕ × Event) → Explains b → Explains (step b e)
unfolding step transition_to_open transition_to_half_open transition_to_closed
step-Explains b (now, asks) (s, w) =
    can_execute_cases Explains b now (λ _ _. (s, w))
      λ n o. Walk-log s b.state b.transitions _ w refl (o, refl)
step-Explains b (now, succeeds) (s, w) =
    on_success_cases Explains b now (s, w) λ h. Walk-log s b.state b.transitions _ w refl (h, refl)
step-Explains b (now, fails) (s, w) =
    on_failure_cases Explains b now (s, w) λ n. Walk-log s b.state b.transitions _ w refl (n, refl)
step-Explains b (now, resets) (s, w) = Walk-log s b.state b.transitions _ w refl refl

run-Explains : (b : CircuitBreaker) (es : List (ℕ × Event)) → Explains b → Explains (run b es)
unfolding run
run-Explains b [] x = x
run-Explains b (e ∷ es) x = run-Explains (step b e) es (step-Explains b e x)

-- After any locked sections in any order, the transitions that a breaker still keeps form a walk
-- along the arrows of the diagram, each under its own reason, that ends in its present state.
pub run-init-Explains :
    (o : CircuitBreakerOptions) (now : ℕ) (es : List (ℕ × Event)) → Explains (run (init o now) es)
unfolding init
run-init-Explains o now es = run-Explains (init o now) es (closed, refl)
