-- ===== src/Token/Tests.antt =====
-- Runs of the in-memory token store.
use mathlib.Core.List.{lookup}
use gauth_py.Base.{ℕ, ◌≡◌, refl, [], ◌∷◌, String, String_discrete}
use gauth_py.Base.Dict.{IsDict}
use gauth_py.Core.Types.{AccessToken}
use gauth_py.Token.{Store, cleanup_expired}

abbrev access_token : String → ℕ → AccessToken
access_token token expires_at = record {
  token = token;
  client_id = "c";
  scope = "read" ∷ [];
  expires_at = expires_at;
  issued_at = 0;
  restrictions = [];
}

abbrev two : Store
two = ("a", access_token "a" 10) ∷ ("b", access_token "b" 20) ∷ []

two-IsDict : IsDict String_discrete two
unfolding lookup String_discrete
two-IsDict = (refl, (refl, tt))

one_left : (cleanup_expired 15 two).1 ≡ ("b", access_token "b" 20) ∷ []
unfolding cleanup_expired String_discrete
one_left = refl
