-- ===== src/Tokenstore/Validity.antt =====
-- That revocation is final, and that the clean-up changes no token's validity.
use mathlib.Core.List.{lookup}
use gauth_py.Base.{
  ℕ, ◌≤◌, ◌≡◌, ◌≢◌, refl, ap, Bool, true, false, not, List, [], ◌∷◌, Option, none, some, String,
  String_discrete, arith, Option-cases, inl, inr, keep, All,
}
use gauth_py.Base.Dict.{
  keys, IsDict, lookup-insert, lookup-remove, lookup-remove_all, remove_all-keep, lookup-keep,
}
use gauth_py.Tokenstore.{
  TokenData, Tokens, is_valid, extend_validity, revoke_data, store, get, delete, to_clean, cleanup,
  token_is_valid, revoke, extend_token, clear,
}

pub data Request : Type 0 where
  stores : String → TokenData → Request
  gets revokes : String → ℕ → Request
  deletes : String → Request
  extends : String → ℕ → ℕ → Request
  cleans : ℕ → Request
  clears : Request

unfoldable pub serve : Request → Tokens → Tokens
unfolding store get delete cleanup revoke extend_token clear
serve (stores t d) s = store t d s
serve (gets t now) s = (get t now s).1
serve (revokes t now) s = (revoke t now s).1
serve (deletes t) s = (delete t s).1
serve (extends t duration now) s = (extend_token t duration now s).1
serve (cleans now) s = (cleanup now s).1
serve clears s = (clear s).1

unfoldable pub serve_all : List Request → Tokens → Tokens
serve_all [] s = s
serve_all (r ∷ rs) s = serve_all rs (serve r s)

-- A request that does not store the token again.
abbrev pub Spares : String → Request → Type 0
Spares token (stores t d) = token ≢ t
Spares token _ = Unit

-- The token is absent or no longer active.
abbrev inactive : Option TokenData → Bool
inactive none = true
inactive (some d) = not d.is_active

serve-inactive :
    (token : String) (r : Request) (s : Tokens)
    → Spares token r
    → inactive (lookup String_discrete token s) ≡ true
    → inactive (lookup String_discrete token (serve r s)) ≡ true
unfolding serve revoke_data extend_validity
serve-inactive token (stores t d) s n h = ground (arith, lookup-insert String_discrete t token d s)
serve-inactive token (gets t now) s n h = ground (arith, lookup-remove String_discrete t token s)
serve-inactive token (revokes t now) s n h = elim (Option-cases (lookup String_discrete t s)) [
  | inl e ↦ ground (arith, e)
  | inr x ↦ ground (
    arith,
    x.1,
    lookup-insert String_discrete t token (revoke_data x.0) s,
    lookup-remove String_discrete t token s,
  )
]
serve-inactive token (deletes t) s n h = ground (arith, lookup-remove String_discrete t token s)
serve-inactive token (extends t duration now) s n h =
    elim (Option-cases (lookup String_discrete t s)) [
      | inl e ↦ ground (arith, e)
      | inr x ↦ ground (
        arith,
        x.1,
        lookup-insert String_discrete t token (extend_validity duration x.0) s,
        lookup-remove String_discrete t token s,
      )
    ]
serve-inactive token (cleans now) s n h =
    ground (arith, lookup-remove_all String_discrete (keys (keep (to_clean now) s)) token s)
serve-inactive token clears s n h = refl

serve_all-inactive :
    (token : String) (rs : List Request) (s : Tokens)
    → All (Spares token) rs
    → inactive (lookup String_discrete token s) ≡ true
    → inactive (lookup String_discrete token (serve_all rs s)) ≡ true
unfolding serve_all
serve_all-inactive token [] s n h = h
serve_all-inactive token (r ∷ rs) s n h =
    serve_all-inactive token rs (serve r s) n.1 (serve-inactive token r s n.0 h)

revoke-inactive :
    (token : String) (now : ℕ) (s : Tokens)
    → inactive (lookup String_discrete token (revoke token now s).1) ≡ true
unfolding revoke revoke_data
revoke-inactive token now s = elim (Option-cases (lookup String_discrete token s)) [
  | inl e ↦ ground (arith, e)
  | inr x ↦ ground (
    arith,
    x.1,
    lookup-insert String_discrete token token (revoke_data x.0) s,
    lookup-remove String_discrete token token s,
  )
]

inactive-not_valid :
    (token : String) (now : ℕ) (s : Tokens)
    → inactive (lookup String_discrete token s) ≡ true
    → (token_is_valid token now s).0 ≡ false
unfolding token_is_valid
inactive-not_valid token now s h = elim (Option-cases (lookup String_discrete token s)) [
  | inl e ↦ ground (arith, e)
  | inr x ↦ ground (arith, x.1)
]

-- A revoked token is not valid at any time, whatever is read, revoked, deleted, extended or cleaned
-- in between, unless the token itself is stored again.
pub revoke-final :
    (token : String) (now later : ℕ) (rs : List Request) (s : Tokens)
    → All (Spares token) rs
    → (token_is_valid token later (serve_all rs (revoke token now s).1)).0 ≡ false
revoke-final token now later rs s n =
    inactive-not_valid token later (serve_all rs (revoke token now s).1)
      (serve_all-inactive token rs (revoke token now s).1 n (revoke-inactive token now s))

-- The clean-up is invisible to validation: at its time or later a token is valid after it exactly
-- if it would have been without it.
pub cleanup-token_is_valid :
    (token : String) (now later : ℕ) (s : Tokens)
    → IsDict String_discrete s
    → now ≤ later
    → (token_is_valid token later (cleanup now s).1).0 ≡ (token_is_valid token later s).0
unfolding token_is_valid cleanup to_clean is_valid
cleanup-token_is_valid token now later s h le =
    let k = remove_all-keep String_discrete (to_clean now) s h in
    let e = ap (lookup String_discrete token) k in
    let f = lookup-keep String_discrete (λ e. not (to_clean now e)) token s h in
    elim (Option-cases (lookup String_discrete token s)) [
      | inl n ↦ ground (arith, e, f, n)
      | inr x ↦ ground (arith, e, f, x.1)
    ]
