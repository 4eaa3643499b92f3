-- ===== src/Core/Gauth/Tokens.antt =====
-- Issuing, validating and revoking tokens.
use gauth_py.Base.{
  ℕ, ◌+◌, ◌≤◌, ◌<◌, ◌≡◌, ◌≢◌, ◌↔◌, refl, ap, true, false, none, some, String, String_discrete,
  truthy, if_pos, if_neg, if◌then◌else◌, arith,
}
use gauth_py.Core.Types.{TokenRequest, AccessToken, is_valid}
use gauth_py.Core.Exceptions.{token_error, rate_limit_error, ok, raise}
use gauth_py.Core.Interfaces.{TokenStore, AuditLogger, RateLimiter}
use gauth_py.Core.Gauth.Specification.{IsTokenStore, IsAuditLogger, is_some}
use gauth_py.Core.Gauth.{
  Gauth, token_client, new_access_token, request_token, validate_token, revoke_token,
}

-- The client that a request names, or else its grant.
abbrev pub client_of : TokenRequest → String
client_of req = elim req.client_id [
  | none ↦ req.grant_id
  | some client ↦ if truthy client then client else req.grant_id
]

module _ (ts : TokenStore) (al : AuditLogger) (rl : RateLimiter) (T : IsTokenStore ts) where
  -- Over a store that meets its contract, a token validates, to the data it was stored with,
  -- exactly if the store holds it and it is neither expired nor blank; validation never changes
  -- anything.
  pub validate_token_iff :
      (g : Gauth ts al rl) (token : String) (a : AccessToken) (now : ℕ)
      → ((validate_token ts al rl token now g).0 ≡ ok a
          ↔ ((T.view g.tokens token ≡ some a) × (is_valid a now ≡ true)))
        × ((validate_token ts al rl token now g).1 ≡ g)
  unfolding validate_token
  validate_token_iff g token a now =
      ((λ h. ground (arith, get), λ h. ground (arith, get)), ground (arith, get))
    where
      get : ts.get token g.tokens ≡ (ok (T.view g.tokens token), g.tokens)
      get = T.get_lem token g.tokens

  pub validate_token_absent :
      (g : Gauth ts al rl) (token : String) (now : ℕ)
      → T.view g.tokens token ≡ none
      → validate_token ts al rl token now g
        ≡ (raise (token_error "Token validation failed: Token not found"), g)
  unfolding validate_token
  validate_token_absent g token now h = ground (arith, T.get_lem token g.tokens)

  validate_token_invalid :
      (g : Gauth ts al rl) (token : String) (a : AccessToken) (now : ℕ)
      → T.view g.tokens token ≡ some a
      → is_valid a now ≡ false
      → (validate_token ts al rl token now g).0
        ≡ raise (token_error "Token validation failed: Token is invalid or expired")
  unfolding validate_token
  validate_token_invalid g token a now h i = ground (arith, T.get_lem token g.tokens)

  validate_token_congr :
      (g h : Gauth ts al rl) (token : String) (now : ℕ)
      → T.view g.tokens token ≡ T.view h.tokens token
      → (validate_token ts al rl token now g).0 ≡ (validate_token ts al rl token now h).0
  unfolding validate_token
  validate_token_congr g h token now e =
      ground (arith, T.get_lem token g.tokens, T.get_lem token h.tokens)

  -- A request that the limiter refuses raises `RateLimitError` as it is, and issues nothing: the
  -- tokens and the audit log stay as they were.
  pub request_token_limited :
      (g : Gauth ts al rl) (req : TokenRequest) (now : ℕ) (token event_id : String) (l : rl.Limits)
      → rl.allow req.grant_id now g.limits ≡ (ok false, l)
      → request_token ts al rl req now token event_id g
        ≡ (raise (rate_limit_error "Rate limit exceeded"), record g { limits = l })
  unfolding request_token
  request_token_limited g req now token event_id l h = ground arith

  module _ (A : IsAuditLogger al) where
    -- What a request does that the limiter lets through.
    issued :
        (g : Gauth ts al rl) (req : TokenRequest) (now : ℕ) (token event_id : String)
        (l : rl.Limits)
        → rl.allow req.grant_id now g.limits ≡ (ok true, l)
        → let r = request_token ts al rl req now token event_id g in
          let a = new_access_token req now (now + g.config.access_token_expiry) token in
          (r.0
            ≡ ok (record {
              token = token;
              valid_until = now + g.config.access_token_expiry;
              scope = req.scope;
              restrictions = req.restrictions;
              token_type = "Bearer";
            }))
          × (r.1.tokens ≡ T.stored token a g.tokens)
    unfolding request_token
    issued g req now token event_id l h =
        let a = new_access_token req now (now + g.config.access_token_expiry) token in
        grind (arith, T.store_lem, A.log_lem)

    -- Over a store and a logger that meet their contracts, a request that the limiter lets through
    -- is answered with the token, its scope and restrictions and the time that it is valid until.
    -- Provided that the token and the client are not blank, the token validates until then, that
    -- time included, to the client, scope and restrictions of the request; the client is the grant
    -- where the request names none. After that time it does not validate.
    pub request-validate :
        (g : Gauth ts al rl) (req : TokenRequest) (now early late : ℕ) (token event_id : String)
        (l : rl.Limits)
        → rl.allow req.grant_id now g.limits ≡ (ok true, l)
        → truthy token ≡ true
        → truthy (client_of req) ≡ true
        → early ≤ now + g.config.access_token_expiry
        → now + g.config.access_token_expiry < late
        → let r = request_token ts al rl req now token event_id g in
          let valid_until = now + g.config.access_token_expiry in
          (r.0
            ≡ ok (record {
              token = token;
              valid_until = valid_until;
              scope = req.scope;
              restrictions = req.restrictions;
              token_type = "Bearer";
            }))
          × ((validate_token ts al rl token early r.1).0
              ≡ ok (record {
                token = token;
                client_id = client_of req;
                scope = req.scope;
                expires_at = valid_until;
                issued_at = now;
                restrictions = req.restrictions;
              }))
          × ((validate_token ts al rl token late r.1).0
              ≡ raise (token_error "Token validation failed: Token is invalid or expired"))
    unfolding is_valid new_access_token token_client
    request-validate g req now early late token event_id l h t c e x =
        let a = new_access_token req now (now + g.config.access_token_expiry) token in
        let g' = (request_token ts al rl req now token event_id g).1 in
        let i = issued g req now token event_id l h in
        let held : T.view g'.tokens token ≡ some a =
          rw (i.1, T.view-stored, if_pos (String_discrete token token) refl) refl in
        (
          i.0,
          (validate_token_iff g' token a early).0.1 (held, ground arith),
          validate_token_invalid g' token a late held (ground arith),
        )

    revoked :
        (g : Gauth ts al rl) (token event_id : String) (now : ℕ)
        → let r = revoke_token ts al rl token now event_id g in
          (r.0 ≡ ok (is_some (T.view g.tokens token))) × (r.1.tokens ≡ T.deleted token g.tokens)
    unfolding revoke_token
    revoked g token event_id now = grind (arith, T.get_lem, T.delete_lem, A.log_lem)

    -- Over a store and a logger that meet their contracts, revocation answers whether the token
    -- was stored, and from then on the token is not found.
    pub revoke-validate :
        (g : Gauth ts al rl) (token event_id : String) (now later : ℕ)
        → let r = revoke_token ts al rl token now event_id g in
          (r.0 ≡ ok (is_some (T.view g.tokens token)))
          × ((validate_token ts al rl token later r.1).0
              ≡ raise (token_error "Token validation failed: Token not found"))
    revoke-validate g token event_id now later = (
      (revoked g token event_id now).0,
      ap (λ p. p.0)
          (validate_token_absent (revoke_token ts al rl token now event_id g).1 token later (
            rw (
              (revoked g token event_id now).1,
              T.view-deleted,
              if_pos (String_discrete token token) refl,
            ))),
    )

    -- Over a store and a logger that meet their contracts, revocation of one token changes the
    -- validity of no other, at any time.
    pub revoke_others :
        (g : Gauth ts al rl) (token j event_id : String) (now later : ℕ)
        → j ≢ token
        → (validate_token ts al rl j later (revoke_token ts al rl token now event_id g).1).0
          ≡ (validate_token ts al rl j later g).0
    revoke_others g token j event_id now later h =
        validate_token_congr _ g j later (
          rw ((revoked g token event_id now).1, T.view-deleted, if_neg (String_discrete j token) h))
