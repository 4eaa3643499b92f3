-- ===== src/Core/Types.antt =====
-- gauth/core/types.py and gauth/core/config.py. Times are microseconds since the epoch and
-- durations are microseconds. Dictionaries of unconstrained values hold texts here.
use gauth_py.Base.{ℕ, Bool, not, ◌&&◌, List, Option, String, ltb, truthy}
use gauth_py.Base.Int.{ℤ}

pub record Restriction : Type 0 where
  pub type : String
  pub value : String
  pub description : Option String

pub record AuthorizationRequest : Type 0 where
  pub client_id : String
  pub scopes : List String
  pub redirect_uri : Option String
  pub state : Option String

pub record TokenRequest : Type 0 where
  pub grant_id : String
  pub scope : List String
  pub restrictions : List Restriction
  pub client_id : Option String

-- The fields that no code under gauth/core writes (delegation, revocation, attestation and the
-- version log) keep their defaults and are left out.
pub record AuthorizationGrant : Type 0 where
  pub grant_id : String
  pub client_id : String
  pub scope : List String
  pub restrictions : List Restriction
  pub valid_until : ℕ

pub record TokenResponse : Type 0 where
  pub token : String
  pub valid_until : ℕ
  pub scope : List String
  pub restrictions : List Restriction
  pub token_type : String

pub record AccessToken : Type 0 where
  pub token : String
  pub client_id : String
  pub scope : List String
  pub expires_at : ℕ
  pub issued_at : ℕ
  pub restrictions : List Restriction

unfoldable pub is_expired : AccessToken → ℕ → Bool
is_expired a now = ltb a.expires_at now

unfoldable pub is_valid : AccessToken → ℕ → Bool
unfolding is_expired
is_valid a now = not (is_expired a now) && (truthy a.token && truthy a.client_id)

pub record Transaction : Type 0 where
  pub transaction_id : String
  pub client_id : String
  pub action : String
  pub resource : String
  pub parameters : List (String × String)
  pub scope_required : List String
  pub restrictions : List Restriction

-- The dictionary that `_execute_transaction` returns.
pub record ResultData : Type 0 where
  pub action : String
  pub resource : String
  pub parameters : List (String × String)
  pub timestamp : ℕ

-- The execution time is in microseconds, and negative if the clock was set back.
pub record TransactionResult : Type 0 where
  pub transaction_id : String
  pub success : Bool
  pub result_data : Option ResultData
  pub error_message : Option String
  pub executed_at : ℕ
  pub execution_time : ℤ

-- A value of an event's `details`.
pub data Detail : Type 0 where
  text : String → Detail
  texts : List String → Detail
  flag : Bool → Detail
  instant : ℕ → Detail
  duration : ℤ → Detail

pub record AuditEvent : Type 0 where
  pub event_id : String
  pub event_type : String
  pub client_id : String
  pub timestamp : ℕ
  pub details : List (String × Detail)
  pub principal : Option String
  pub resource : Option String

pub record Config : Type 0 where
  pub auth_server_url : String
  pub client_id : String
  pub client_secret : String
  pub scopes : List String
  pub access_token_expiry : ℕ
