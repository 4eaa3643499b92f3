-- ===== src/Tokenstore/Tests.antt =====
-- Runs of the token store that drops expired tokens when they are read.
use mathlib.Core.List.{lookup}
use gauth_py.Base.{ℕ, ◌≡◌, refl, true, false, List, [], ◌∷◌, none, String_discrete}
use gauth_py.Base.Dict.{IsDict}
use gauth_py.Tokenstore.{TokenData, Tokens, valid, revoke, token_is_valid}
use gauth_py.Tokenstore.Validity.{Request, gets, extends, cleans, serve_all, revoke-final}

abbrev data_until : ℕ → TokenData
data_until t = record {
  is_active = true;
  valid_until = t;
  client_id = "shop";
  owner_id = "ann";
  scope = "read" ∷ [];
  token_type = "bearer";
  issued_at = 0;
  audience = [];
  issuer = "";
  subject = "ann";
  not_before = none;
  jti = "j";
  status = valid;
}

abbrev tokens : Tokens
tokens = ("a", data_until 10) ∷ ("b", data_until 20) ∷ []

tokens-IsDict : IsDict String_discrete tokens
unfolding lookup String_discrete
tokens-IsDict = (refl, (refl, tt))

valid_before : (token_is_valid "b" 6 tokens).0 ≡ true
unfolding token_is_valid lookup String_discrete
valid_before = refl

abbrev requests : List Request
requests = gets "b" 6 ∷ extends "b" 100 7 ∷ cleans 12 ∷ []

revoke-final_example : (token_is_valid "b" 8 (serve_all requests (revoke "b" 5 tokens).1)).0 ≡ false
revoke-final_example = revoke-final "b" 5 8 requests tokens (tt, (tt, (tt, tt)))
