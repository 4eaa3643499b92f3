-- ===== src/Token.antt =====
-- gauth/token/store.py: `MemoryTokenStore`, a dictionary from token strings. Each method holds
-- the lock throughout.
pub mod Memory
mod Tests
use mathlib.Core.List.{lookup}
use gauth_py.Base.{
  ℕ, Bool, true, false, List, [], Option, String, String_discrete, ltb, keep, length, if◌then◌else◌,
}
use gauth_py.Base.Dict.{insert, remove, contains, remove_all, keys}
use gauth_py.Core.Types.{AccessToken}
use gauth_py.Core.Exceptions.{Act, ok}

abbrev pub Store : Type 0
Store = List (String × AccessToken)

unfoldable pub store : String → AccessToken → Act Store (Unit {0})
unfolding insert
store token a s = (ok tt, insert String_discrete token a s)

unfoldable pub get : String → Act Store (Option AccessToken)
unfolding lookup
get token s = (ok (lookup String_discrete token s), s)

unfoldable pub delete : String → Act Store Bool
unfolding contains remove
delete token s =
    if contains String_discrete token s
    then (ok true, remove String_discrete token s)
    else (ok false, s)

-- The tokens that have run out are collected first and deleted one by one.
unfoldable pub cleanup_expired : ℕ → Act Store ℕ
unfolding remove_all
cleanup_expired now s =
    let expired_tokens = keys (keep (λ e. ltb e.1.expires_at now) s) in
    (ok (length expired_tokens), remove_all String_discrete expired_tokens s)
