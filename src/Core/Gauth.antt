-- ===== src/Core/Gauth.antt =====
-- gauth/core/gauth.py: the `GAuth` object, over any token store, audit logger and rate limiter.
-- `now` is the clock inside a call and the ids are what `uuid.uuid4` returns. Logging to the
-- Python logger is left out.
pub mod Specification
pub mod Tokens
pub mod Transactions
mod Tests
use gauth_py.Base.{
  ℕ, zero, suc, ◌+◌, Bool, true, false, not, List, [], ◌∷◌, Option, none, some, String, ◌<>◌,
  String_discrete, truthy, ite, all, elem, if◌then◌else◌,
}
use gauth_py.Base.Int.{sub_ℕ}
use gauth_py.Core.Types.{
  Config, AuthorizationRequest, AuthorizationGrant, TokenRequest, TokenResponse, AccessToken,
  Transaction, TransactionResult, ResultData, AuditEvent, Detail, text, texts, flag, instant,
  duration, is_valid,
}
use gauth_py.Core.Exceptions.{
  Exception, authorization_error, token_error, validation_error, rate_limit_error,
  transaction_error, value_error, message, Result, ok, raise, Act, pure, throw, raise_if, catch,
  ◌>>=◌, ◌>>◌,
}
use gauth_py.Core.Interfaces.{TokenStore, AuditLogger, RateLimiter}

-- `Config.validate`.
unfoldable pub validate_config : Config → Result Bool
unfolding truthy
validate_config c =
    if not (truthy c.auth_server_url)
    then raise (value_error "auth_server_url is required")
    else if not (truthy c.client_id)
    then raise (value_error "client_id is required")
    else if not (truthy c.client_secret)
    then raise (value_error "client_secret is required")
    else ok true

-- `token[:n]`.
unfoldable pub text_prefix : ℕ → String → String
text_prefix zero s = ""
text_prefix (suc n) String.[] = ""
text_prefix (suc n) (String.◌∷◌ c s) = String.◌∷◌ c (text_prefix n s)

unfoldable pub has_required_scopes : List String → List String → Bool
has_required_scopes token_scopes required_scopes =
    all (λ scope. elem String_discrete scope token_scopes) required_scopes

-- `req.client_id or req.grant_id`.
unfoldable pub token_client : TokenRequest → String
token_client req = elim req.client_id [
  | none ↦ req.grant_id
  | some client ↦ if truthy client then client else req.grant_id
]

unfoldable pub new_access_token : TokenRequest → ℕ → ℕ → String → AccessToken
unfolding token_client
new_access_token req now expires_at token = record {
  token = token;
  client_id = token_client req;
  scope = req.scope;
  expires_at = expires_at;
  issued_at = now;
  restrictions = req.restrictions;
}

unfoldable pub execute_transaction : Transaction → ℕ → ResultData
execute_transaction tx now = record {
  action = tx.action;
  resource = tx.resource;
  parameters = tx.parameters;
  timestamp = now;
}

unfoldable pub audit_event : String → String → String → ℕ → List (String × Detail) → AuditEvent
audit_event event_id event_type client_id now details = record {
  event_id = event_id;
  event_type = event_type;
  client_id = client_id;
  timestamp = now;
  details = details;
  principal = none;
  resource = none;
}

transaction_event : Transaction → String → ℕ → List (String × Detail) → AuditEvent
unfolding audit_event
transaction_event tx event_id now details = audit_event event_id "transaction" tx.client_id now (
    ("transaction_id", text tx.transaction_id)
    ∷ ("action", text tx.action)
    ∷ ("resource", text tx.resource)
    ∷ details)

unfoldable pub success_event : Transaction → String → ℕ → ℕ → AuditEvent
unfolding transaction_event
success_event tx event_id start now =
    transaction_event tx event_id now
      (("success", flag true) ∷ ("execution_time_ms", duration (sub_ℕ now start)) ∷ [])

unfoldable pub failure_event : Transaction → String → ℕ → ℕ → String → AuditEvent
unfolding transaction_event
failure_event tx event_id start now m = transaction_event tx event_id now (
    ("success", flag false)
    ∷ ("error", text m)
    ∷ ("execution_time_ms", duration (sub_ℕ now start))
    ∷ [])

unfoldable pub success_result : Transaction → ℕ → ℕ → TransactionResult
unfolding execute_transaction
success_result tx start now = record {
  transaction_id = tx.transaction_id;
  success = true;
  result_data = some (execute_transaction tx now);
  error_message = none;
  executed_at = now;
  execution_time = sub_ℕ now start;
}

unfoldable pub failure_result : Transaction → ℕ → ℕ → String → TransactionResult
failure_result tx start now m = record {
  transaction_id = tx.transaction_id;
  success = false;
  result_data = none;
  error_message = some m;
  executed_at = now;
  execution_time = sub_ℕ now start;
}

module _ (ts : TokenStore) (al : AuditLogger) (rl : RateLimiter) where
  pub record Gauth : Type 0 where
    pub config : Config
    pub tokens : ts.Tokens
    pub events : al.Log
    pub limits : rl.Limits

  -- The methods of the parts, run on their own state.
  abbrev pub store_token : String → AccessToken → Act Gauth (Unit {0})
  store_token t a g = let (r, tokens) = ts.store t a g.tokens in (r, record g { tokens = tokens })

  abbrev pub get_token : String → Act Gauth (Option AccessToken)
  get_token t g = let (r, tokens) = ts.get t g.tokens in (r, record g { tokens = tokens })

  abbrev pub delete_token : String → Act Gauth Bool
  delete_token t g = let (r, tokens) = ts.delete t g.tokens in (r, record g { tokens = tokens })

  abbrev pub log : AuditEvent → Act Gauth (Unit {0})
  log e g = let (r, events) = al.log e g.events in (r, record g { events = events })

  abbrev pub allow : String → ℕ → Act Gauth Bool
  allow k now g = let (r, limits) = rl.allow k now g.limits in (r, record g { limits = limits })

  unfoldable pub validate_auth_request : AuthorizationRequest → Act Gauth (Unit {0})
  unfolding truthy
  validate_auth_request req = do
    raise_if (not (truthy req.client_id)) (validation_error "client_id is required")
    raise_if (elim req.scopes [ [] ↦ true | _ ∷ _ ↦ false ])
        (validation_error "scopes are required")

  granting : AuthorizationRequest → ℕ → String → String → Act Gauth AuthorizationGrant
  unfolding validate_auth_request audit_event
  granting req now grant_id event_id g =
      (do
        validate_auth_request req
        log (
            audit_event event_id "auth_request" req.client_id now (
              ("grant_id", text grant_id)
              ∷ ("scopes", texts req.scopes)
              ∷ ("action", text "initiate")
              ∷ ("result", text "granted")
              ∷ []))
        pure grant)
        g
    where
      grant : AuthorizationGrant
      grant = record {
        grant_id = grant_id;
        client_id = req.client_id;
        scope = req.scopes;
        restrictions = [];
        valid_until = now + g.config.access_token_expiry;
      }

  unfoldable pub initiate_authorization :
      AuthorizationRequest → ℕ → String → String → Act Gauth AuthorizationGrant
  unfolding granting message
  initiate_authorization req now grant_id event_id =
      catch (granting req now grant_id event_id)
        λ e. throw (authorization_error ("Authorization failed: " <> message e))

  issuing : TokenRequest → ℕ → String → String → Act Gauth TokenResponse
  unfolding new_access_token audit_event
  issuing req now token event_id g =
      (do
        allowed ← allow req.grant_id now
        raise_if (not allowed) (rate_limit_error "Rate limit exceeded")
        store_token token access_token
        log (
            audit_event event_id "token_issued" access_token.client_id now (
              ("grant_id", text req.grant_id)
              ∷ ("scope", texts req.scope)
              ∷ ("expires_at", instant expires_at)
              ∷ []))
        pure (record {
          token = token;
          valid_until = expires_at;
          scope = req.scope;
          restrictions = req.restrictions;
          token_type = "Bearer";
        }))
        g
    where
      expires_at : ℕ
      expires_at = now + g.config.access_token_expiry

      access_token : AccessToken
      access_token = new_access_token req now expires_at token

  -- `except RateLimitError: raise`, and any other exception becomes a `TokenError`.
  abbrev reissue : {A : Type 0} → Exception → Act Gauth A
  unfolding message
  reissue (rate_limit_error m) = throw (rate_limit_error m)
  reissue e = throw (token_error ("Token request failed: " <> message e))

  unfoldable pub request_token : TokenRequest → ℕ → String → String → Act Gauth TokenResponse
  unfolding issuing message
  request_token req now token event_id = catch (issuing req now token event_id) reissue

  checking : String → ℕ → Act Gauth AccessToken
  unfolding is_valid
  checking token now = do
    found ← get_token token
    elim found [
      | none ↦ throw (token_error "Token not found")
      | some a ↦ do
        raise_if (not (is_valid a now)) (token_error "Token is invalid or expired")
        pure a
    ]

  unfoldable pub validate_token : String → ℕ → Act Gauth AccessToken
  unfolding checking message
  validate_token token now =
      catch (checking token now) λ e. throw (token_error ("Token validation failed: " <> message e))

  processing : Transaction → String → ℕ → ℕ → String → Act Gauth TransactionResult
  unfolding validate_token has_required_scopes
  processing tx token start now event_id = do
    access_token ← validate_token token now
    raise_if (ite (String_discrete access_token.client_id tx.client_id) false true)
        (transaction_error "Client ID mismatch")
    raise_if (not (has_required_scopes access_token.scope tx.scope_required))
        (transaction_error "Insufficient scope")
    log (success_event tx event_id start now)
    pure (success_result tx start now)

  failing : Transaction → ℕ → ℕ → String → Exception → Act Gauth TransactionResult
  unfolding message
  failing tx start now event_id e = do
    log (failure_event tx event_id start now (message e))
    pure (failure_result tx start now (message e))

  -- An event id for each of the two places that log.
  unfoldable pub process_transaction :
      Transaction → String → ℕ → ℕ → String → String → Act Gauth TransactionResult
  unfolding processing failing
  process_transaction tx token start now event_id failure_id =
      catch (processing tx token start now event_id) (failing tx start now failure_id)

  revoking : String → ℕ → String → Act Gauth Bool
  unfolding audit_event text_prefix
  revoking token now event_id = do
    found ← get_token token
    success ← delete_token token
    elim found [
      | none ↦ pure success
      | some a ↦
          if success
          then (do
            log (
                audit_event event_id "token_revoked" a.client_id now (
                  ("token_id", text (text_prefix 8 token <> "..."))
                  ∷ ("revoked_at", instant now)
                  ∷ []))
            pure success)
          else pure success
    ]

  unfoldable pub revoke_token : String → ℕ → String → Act Gauth Bool
  unfolding revoking
  revoke_token token now event_id = catch (revoking token now event_id) λ e. pure false
