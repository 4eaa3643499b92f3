-- ===== src/Core/Gauth/Transactions.antt =====
-- Processing a transaction under a token.
use mathlib.Core.List.{Mem}
use gauth_py.Base.{
  ℕ, ◌≡◌, ◌↔◌, refl, true, false, not, List, [], ◌∷◌, Option, none, some, String, String_discrete,
  ite, arith, if◌then◌else◌,
}
use gauth_py.Base.Members.{all-elem_iff}
use gauth_py.Base.Int.{ℤ, sub_ℕ}
use gauth_py.Core.Types.{
  Transaction, TransactionResult, AccessToken, AuditEvent, Detail, text, flag, duration, is_valid,
}
use gauth_py.Core.Exceptions.{ok}
use gauth_py.Core.Interfaces.{TokenStore, AuditLogger, RateLimiter}
use gauth_py.Core.Gauth.Specification.{IsTokenStore, IsAuditLogger}
use gauth_py.Core.Gauth.{
  Gauth, has_required_scopes, process_transaction, success_event, failure_event, success_result,
  failure_result,
}

-- Why a transaction is refused under the token that is stored for it, if it is.
abbrev pub refusal : Option AccessToken → Transaction → ℕ → Option String
refusal none tx now = some "Token validation failed: Token not found"
refusal (some a) tx now =
    if not (is_valid a now)
    then some "Token validation failed: Token is invalid or expired"
    else if ite (String_discrete a.client_id tx.client_id) false true
    then some "Client ID mismatch"
    else if not (has_required_scopes a.scope tx.scope_required)
    then some "Insufficient scope"
    else none

-- What a transaction is answered, by the reason against it, if any.
abbrev pub answer : Option String → Transaction → ℕ → ℕ → TransactionResult
answer none tx start now = record {
  transaction_id = tx.transaction_id;
  success = true;
  result_data = some (record {
    action = tx.action;
    resource = tx.resource;
    parameters = tx.parameters;
    timestamp = now;
  });
  error_message = none;
  executed_at = now;
  execution_time = sub_ℕ now start;
}
answer (some m) tx start now = record {
  transaction_id = tx.transaction_id;
  success = false;
  result_data = none;
  error_message = some m;
  executed_at = now;
  execution_time = sub_ℕ now start;
}

-- What the event tells beside the names of the transaction.
abbrev pub outcome : Option String → ℤ → List (String × Detail)
outcome none t = ("success", flag true) ∷ ("execution_time_ms", duration t) ∷ []
outcome (some m) t =
    ("success", flag false) ∷ ("error", text m) ∷ ("execution_time_ms", duration t) ∷ []

-- The event that is logged; a success and a failure draw ids of their own.
abbrev pub entry : Option String → Transaction → ℕ → ℕ → String → String → AuditEvent
entry o tx start now id id' = record {
  event_id = elim o [ none ↦ id | some m ↦ id' ];
  event_type = "transaction";
  client_id = tx.client_id;
  timestamp = now;
  details =
      ("transaction_id", text tx.transaction_id)
      ∷ ("action", text tx.action)
      ∷ ("resource", text tx.resource)
      ∷ outcome o (sub_ℕ now start);
  principal = none;
  resource = none;
}

has_required_scopes_iff :
    (have need : List String)
    → (has_required_scopes have need ≡ true) ↔ ((s : String) → Mem s need → Mem s have)
unfolding has_required_scopes
has_required_scopes_iff have need = all-elem_iff String_discrete need have

refusal_iff :
    (o : Option AccessToken) (tx : Transaction) (now : ℕ)
    → (refusal o tx now ≡ none) ↔ (
        (a : AccessToken) × (o ≡ some a)
        × (is_valid a now ≡ true)
        × (a.client_id ≡ tx.client_id)
        × ((s : String) → Mem s tx.scope_required → Mem s a.scope))
refusal_iff none tx now = (λ h. cc, λ h. cc (h.1))
refusal_iff (some a) tx now = (
  λ h. (
    a,
    refl,
    ground arith,
    ground arith,
    (has_required_scopes_iff a.scope tx.scope_required).0 (ground arith),
  ),
  λ x.
      let e : a ≡ x.0 = cc (x.1) in
      let q : has_required_scopes x.0.scope tx.scope_required ≡ true =
        (has_required_scopes_iff x.0.scope tx.scope_required).1 x.4 in
      rw e (ground (arith, x.2, x.3, q)),
)

module _ (ts : TokenStore) (al : AuditLogger) (rl : RateLimiter) (T : IsTokenStore ts)
    (A : IsAuditLogger al) where
  -- Over a store and a logger that meet their contracts processing never raises. Nothing against
  -- the stored token makes a success with the transaction's data, and otherwise the first reason,
  -- in the order of the checks, makes a failure that tells it; one event is logged, which names
  -- the transaction and tells the same outcome, reason and time. Neither the tokens nor the rate
  -- limits change.
  pub process_transaction_lem :
      (g : Gauth ts al rl) (tx : Transaction) (token : String) (start now : ℕ) (id id' : String)
      → let o = refusal (T.view g.tokens token) tx now in
        process_transaction ts al rl tx token start now id id' g ≡ (
          ok (answer o tx start now),
          record g { events = A.logged (entry o tx start now id id') g.events },
        )
  unfolding process_transaction success_event failure_event success_result failure_result
  process_transaction_lem g tx token start now id id' =
      grind (arith, T.get_lem token g.tokens, A.log_lem)

  success_iff :
      (g : Gauth ts al rl) (tx : Transaction) (token : String) (start now : ℕ) (id id' : String)
      (r : TransactionResult)
      → (process_transaction ts al rl tx token start now id id' g).0 ≡ ok r
      → (r.success ≡ true) ↔ (refusal (T.view g.tokens token) tx now ≡ none)
  success_iff g tx token start now id id' r h = (
    λ s. ground (arith, process_transaction_lem g tx token start now id id'),
    λ n. ground (arith, process_transaction_lem g tx token start now id id'),
  )

  -- Over a store and a logger that meet their contracts, the result is a success exactly if the
  -- store holds the token, the token is neither expired nor blank, it was issued to the
  -- transaction's client, and each scope that the transaction requires is among the token's.
  pub process_transaction_success_iff :
      (g : Gauth ts al rl) (tx : Transaction) (token : String) (start now : ℕ) (id id' : String)
      (r : TransactionResult)
      → (process_transaction ts al rl tx token start now id id' g).0 ≡ ok r
      → (r.success ≡ true) ↔ (
          (a : AccessToken) × (T.view g.tokens token ≡ some a)
          × (is_valid a now ≡ true)
          × (a.client_id ≡ tx.client_id)
          × ((s : String) → Mem s tx.scope_required → Mem s a.scope))
  process_transaction_success_iff g tx token start now id id' r h =
      let s = success_iff g tx token start now id id' r h in
      let p = refusal_iff (T.view g.tokens token) tx now in (λ e. p.0 (s.0 e), λ x. s.1 (p.1 x))
