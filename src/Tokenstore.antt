-- ===== src/Tokenstore.antt =====
-- gauth/tokenstore/store.py and memory.py: `TokenData` and the `MemoryTokenStore` that drops a
-- token when it is read after its time. Each method holds the lock throughout; what `revoke` and
-- `extend_token` get is the object in the store, so changing it and storing it is one step here.
-- Durations are not negative.
pub mod Validity
mod Tests
use mathlib.Core.List.{lookup}
use gauth_py.Base.{
  ℕ, ◌+◌, Bool, true, false, not, ◌&&◌, ◌||◌, List, [], ◌∷◌, Option, none, some, String,
  String_discrete, ltb, leb, any, all, elem, keep, length, if◌then◌else◌,
}
use gauth_py.Base.Dict.{insert, remove, contains, remove_all, keys}

pub data TokenStatus : Type 0 where
  valid expired revoked invalid : TokenStatus

-- The source's field `valid` is `is_active` here.
pub record TokenData : Type 0 where
  pub is_active : Bool
  pub valid_until : ℕ
  pub client_id : String
  pub owner_id : String
  pub scope : List String
  pub token_type : String
  pub issued_at : ℕ
  pub audience : List String
  pub issuer : String
  pub subject : String
  pub not_before : Option ℕ
  pub jti : String
  pub status : TokenStatus

abbrev pub is_valid_status : TokenStatus → Bool
is_valid_status valid = true
is_valid_status expired = false
is_valid_status revoked = false
is_valid_status invalid = false

abbrev too_early : Option ℕ → ℕ → Bool
too_early none now = false
too_early (some t) now = ltb now t

unfoldable pub is_valid : TokenData → ℕ → Bool
is_valid d now =
    if not d.is_active || not (is_valid_status d.status)
    then false
    else if leb d.valid_until now
    then false
    else not (too_early d.not_before now)

unfoldable pub is_expired : TokenData → ℕ → Bool
is_expired d now = leb d.valid_until now

unfoldable pub extend_validity : ℕ → TokenData → TokenData
extend_validity duration d = record d { valid_until = d.valid_until + duration }

unfoldable pub revoke_data : TokenData → TokenData
revoke_data d = record d { is_active = false; status = revoked }

unfoldable pub has_scope : TokenData → String → Bool
has_scope d required_scope = elem String_discrete required_scope d.scope

unfoldable pub has_any_scope : TokenData → List String → Bool
unfolding has_scope
has_any_scope d required_scopes = any (has_scope d) required_scopes

unfoldable pub has_all_scopes : TokenData → List String → Bool
unfolding has_scope
has_all_scopes d required_scopes = all (has_scope d) required_scopes

abbrev pub Tokens : Type 0
Tokens = List (String × TokenData)

unfoldable pub store : String → TokenData → Tokens → Tokens
store token d s = insert String_discrete token d s

-- A token that has expired is removed by the read.
unfoldable pub get : String → ℕ → Tokens → Option TokenData × Tokens
unfolding lookup is_expired
get token now s = elim (lookup String_discrete token s) [
  | none ↦ (none, s)
  | some d ↦ if is_expired d now then (none, remove String_discrete token s) else (some d, s)
]

unfoldable pub delete : String → Tokens → Bool × Tokens
unfolding contains
delete token s =
    if contains String_discrete token s then (true, remove String_discrete token s) else (false, s)

unfoldable pub to_clean : ℕ → String × TokenData → Bool
to_clean now e = not e.1.is_active || (not (is_valid_status e.1.status) || leb e.1.valid_until now)

unfoldable pub cleanup : ℕ → Tokens → ℕ × Tokens
unfolding to_clean
cleanup now s =
    let expired_tokens = keys (keep (to_clean now) s) in
    (length expired_tokens, remove_all String_discrete expired_tokens s)

unfoldable pub exists : String → Tokens → Bool
exists token s = contains String_discrete token s

-- `is_valid` of the store.
unfoldable pub token_is_valid : String → ℕ → Tokens → Bool × Tokens
unfolding get is_valid
token_is_valid token now s =
    let (found, s') = get token now s in
    elim found [ none ↦ (false, s') | some d ↦ (is_valid d now, s') ]

unfoldable pub revoke : String → ℕ → Tokens → Bool × Tokens
unfolding get store revoke_data
revoke token now s =
    let (found, s') = get token now s in
    elim found [ none ↦ (false, s') | some d ↦ (true, store token (revoke_data d) s') ]

unfoldable pub extend_token : String → ℕ → ℕ → Tokens → Bool × Tokens
unfolding get store extend_validity
extend_token token duration now s =
    let (found, s') = get token now s in
    elim found [ none ↦ (false, s') | some d ↦ (true, store token (extend_validity duration d) s') ]

unfoldable pub get_tokens_by_client : String → Tokens → Tokens
get_tokens_by_client client_id s =
    keep (λ e. elim (String_discrete e.1.client_id client_id) [ yes _ ↦ true | no _ ↦ false ]) s

unfoldable pub get_tokens_by_owner : String → Tokens → Tokens
get_tokens_by_owner owner_id s =
    keep (λ e. elim (String_discrete e.1.owner_id owner_id) [ yes _ ↦ true | no _ ↦ false ]) s

unfoldable pub count_valid_tokens : ℕ → Tokens → ℕ
unfolding is_valid
count_valid_tokens now s = length (keep (λ e. is_valid e.1 now) s)

unfoldable pub clear : Tokens → ℕ × Tokens
clear s = (length s, [])
