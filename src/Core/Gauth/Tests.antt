-- ===== src/Core/Gauth/Tests.antt =====
-- Runs of `GAuth` over the in-memory store, logger and token bucket that `GAuth.__init__` chooses.
use mathlib.Core.List.{Mem}
use gauth_py.Base.{
  ℕ, ◌≡◌, ◌≢◌, ◌↔◌, refl, true, [], ◌∷◌, none, some, String, String_discrete, truthy, arith,
}
use gauth_py.Core.Types.{Config, TokenRequest, AccessToken, Transaction, is_valid}
use gauth_py.Core.Exceptions.{ok, raise, token_error}
use gauth_py.Core.Interfaces.{RateLimiter}
use gauth_py.Core.Gauth.{
  Gauth, request_token, validate_token, revoke_token, process_transaction, success_result,
}
use gauth_py.Core.Gauth.Specification.{is_some}
use gauth_py.Core.Gauth.Tokens.{
  validate_token_iff, request-validate, client_of, revoke-validate, revoke_others,
}
use gauth_py.Core.Gauth.Transactions.{
  refusal, answer, entry, process_transaction_lem, process_transaction_success_iff,
}
use gauth_py.Token.Memory.{memory_token_store, memory-IsTokenStore}
use gauth_py.Audit.{MemoryAuditLogger}
use gauth_py.Audit.Memory.{memory_audit_logger, memory-IsAuditLogger}
use gauth_py.Ratelimit.TokenBucket.{TokenBucketRateLimiter, allow, take_token, find_bucket}

abbrev bucket_limiter : RateLimiter
bucket_limiter = record { Limits = TokenBucketRateLimiter; allow = allow }

abbrev access_token : AccessToken
access_token = record {
  token = "t";
  client_id = "shop";
  scope = "read" ∷ "pay" ∷ [];
  expires_at = 100;
  issued_at = 0;
  restrictions = [];
}

abbrev config : Config
config = record {
  auth_server_url = "https://auth";
  client_id = "shop";
  client_secret = "secret";
  scopes = "read" ∷ [];
  access_token_expiry = 100;
}

abbrev gauth_with : ℕ → Gauth memory_token_store memory_audit_logger bucket_limiter
gauth_with max_requests = record {
  config = config;
  tokens = ("t", access_token) ∷ [];
  events = record { max_entries = 1000; events = [] };
  limits = record { max_requests = max_requests; time_window = 60; burst_limit = 0; buckets = [] };
}

abbrev gauth : Gauth memory_token_store memory_audit_logger bucket_limiter
gauth = gauth_with 2

validate_token_iff_example :
    ((validate_token memory_token_store memory_audit_logger bucket_limiter "t" 50 gauth).0
        ≡ ok access_token
      ↔ ((memory-IsTokenStore.view gauth.tokens "t" ≡ some access_token)
          × (is_valid access_token 50 ≡ true)))
    × ((validate_token memory_token_store memory_audit_logger bucket_limiter "t" 50 gauth).1
        ≡ gauth)
validate_token_iff_example =
    validate_token_iff memory_token_store memory_audit_logger bucket_limiter memory-IsTokenStore
      gauth "t" access_token 50

abbrev request : TokenRequest
request = record { grant_id = "g1"; scope = "read" ∷ []; restrictions = []; client_id = none }

abbrev limits_after : ℕ → TokenBucketRateLimiter
limits_after max_requests = (allow "g1" 5 (gauth_with max_requests).limits).1

request-validate_example :
    let r =
      request_token memory_token_store memory_audit_logger bucket_limiter request 5 "u" "e" gauth in
    (r.0
      ≡ ok (record {
        token = "u";
        valid_until = 105;
        scope = request.scope;
        restrictions = request.restrictions;
        token_type = "Bearer";
      }))
    × ((validate_token memory_token_store memory_audit_logger bucket_limiter "u" 105 r.1).0
        ≡ ok (record {
          token = "u";
          client_id = client_of request;
          scope = request.scope;
          expires_at = 105;
          issued_at = 5;
          restrictions = request.restrictions;
        }))
    × ((validate_token memory_token_store memory_audit_logger bucket_limiter "u" 106 r.1).0
        ≡ raise (token_error "Token validation failed: Token is invalid or expired"))
unfolding allow truthy String_discrete take_token find_bucket
request-validate_example =
    request-validate memory_token_store memory_audit_logger bucket_limiter memory-IsTokenStore
      memory-IsAuditLogger gauth request 5 105 106 "u" "e" (limits_after 2) refl refl refl
      (omega arith) (omega arith)

revoke-validate_example :
    let r = revoke_token memory_token_store memory_audit_logger bucket_limiter "t" 50 "e" gauth in
    (r.0 ≡ ok (is_some (memory-IsTokenStore.view gauth.tokens "t")))
    × ((validate_token memory_token_store memory_audit_logger bucket_limiter "t" 60 r.1).0
        ≡ raise (token_error "Token validation failed: Token not found"))
revoke-validate_example =
    revoke-validate memory_token_store memory_audit_logger bucket_limiter memory-IsTokenStore
      memory-IsAuditLogger gauth "t" "e" 50 60

t-ne-tt : ◌≢◌ {A = String} "t" "tt"
t-ne-tt = cc

revoke_others_example :
    (validate_token memory_token_store memory_audit_logger bucket_limiter "t" 60
      (revoke_token memory_token_store memory_audit_logger bucket_limiter "tt" 50 "e" gauth).1).0
    ≡ (validate_token memory_token_store memory_audit_logger bucket_limiter "t" 60 gauth).0
revoke_others_example =
    revoke_others memory_token_store memory_audit_logger bucket_limiter memory-IsTokenStore
      memory-IsAuditLogger gauth "tt" "t" "e" 50 60 t-ne-tt

abbrev payment : Transaction
payment = record {
  transaction_id = "tx";
  client_id = "shop";
  action = "pay";
  resource = "order";
  parameters = [];
  scope_required = "pay" ∷ [];
  restrictions = [];
}

process_transaction_lem_example :
    let o = refusal (memory-IsTokenStore.view gauth.tokens "t") payment 51 in
    process_transaction memory_token_store memory_audit_logger bucket_limiter payment "t" 50 51 "e"
      "f" gauth
    ≡ (
      ok (answer o payment 50 51),
      record gauth {
        events = memory-IsAuditLogger.logged (entry o payment 50 51 "e" "f") gauth.events;
      },
    )
process_transaction_lem_example =
    process_transaction_lem memory_token_store memory_audit_logger bucket_limiter
      memory-IsTokenStore memory-IsAuditLogger gauth payment "t" 50 51 "e" "f"

process_transaction_success_iff_example : (true ≡ true) ↔ (
    (a : AccessToken) × (memory-IsTokenStore.view gauth.tokens "t" ≡ some a)
    × (is_valid a 51 ≡ true)
    × (a.client_id ≡ payment.client_id)
    × ((s : String) → Mem s payment.scope_required → Mem s a.scope))
unfolding process_transaction gauth_py.Token.get String_discrete truthy gauth_py.Audit.log
    success_result
process_transaction_success_iff_example =
    process_transaction_success_iff memory_token_store memory_audit_logger bucket_limiter
      memory-IsTokenStore memory-IsAuditLogger gauth payment "t" 50 51 "e" "f"
      (success_result payment 50 51) refl
