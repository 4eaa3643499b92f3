-- ===== src/Token/Memory.antt =====
-- The dictionary store meets the contract that `GAuth` relies on, and its clean-up is invisible to
-- validation.
use mathlib.Core.List.{lookup}
use gauth_py.Base.{
  ℕ, ◌≤◌, ◌≡◌, ◌↔◌, refl, sym, ap, subst, Bool, true, not, List, [], ◌∷◌, Option, none, some,
  String, String_discrete, ltb, keep, arith, if◌then◌else◌,
}
use gauth_py.Base.Dict.{
  insert, remove, contains, keys, IsDict, lookup-insert, lookup-remove, insert-IsDict,
  remove-IsDict, remove_all-IsDict, remove_absent, remove_all-keep, lookup-keep,
}
use gauth_py.Core.Types.{AccessToken, is_valid}
use gauth_py.Core.Exceptions.{ok}
use gauth_py.Core.Interfaces.{TokenStore}
use gauth_py.Core.Gauth.Specification.{IsTokenStore, is_some}
use gauth_py.Token.{Store, store, get, delete, cleanup_expired}

abbrev pub memory_token_store : TokenStore
memory_token_store = record { Tokens = Store; store = store; get = get; delete = delete }

get-memory : (t : String) (s : Store) → get t s ≡ (ok (lookup String_discrete t s), s)
unfolding get
get-memory t s = refl

store-memory :
    (t : String) (a : AccessToken) (s : Store) → store t a s ≡ (ok tt, insert String_discrete t a s)
unfolding store
store-memory t a s = refl

delete-memory :
    (t : String) (s : Store)
    → delete t s ≡ (ok (is_some (lookup String_discrete t s)), remove String_discrete t s)
unfolding delete contains
delete-memory t s = ground (arith, remove_absent String_discrete t s)

-- The store is a map from token strings: a store is read back under its own key and no other,
-- a deletion answers whether the token was there and removes it alone, and nothing raises.
pub memory-IsTokenStore : IsTokenStore memory_token_store
memory-IsTokenStore = record {
  view = λ s t. lookup String_discrete t s;
  stored = insert String_discrete;
  deleted = remove String_discrete;
  get_lem = get-memory;
  store_lem = store-memory;
  delete_lem = delete-memory;
  view-stored = λ t j a s. lookup-insert String_discrete t j a s;
  view-deleted = λ t j s. lookup-remove String_discrete t j s;
}

abbrev outdated : ℕ → String × AccessToken → Bool
outdated now e = ltb e.1.expires_at now

abbrev pub current : ℕ → String × AccessToken → Bool
current now e = not (outdated now e)

cleanup_expired-keep :
    (s : Store) (now : ℕ)
    → IsDict String_discrete s
    → (cleanup_expired now s).1 ≡ keep (current now) s
unfolding cleanup_expired
cleanup_expired-keep s now h = remove_all-keep String_discrete (outdated now) s h

valid_is_kept :
    (o : Option AccessToken) (t : String) (a : AccessToken) (now later : ℕ)
    → now ≤ later
    → is_valid a later ≡ true
    → ((elim o [ none ↦ none | some b ↦ if current now (t, b) then some b else none ]) ≡ some a)
      ↔ (o ≡ some a)
unfolding is_valid
valid_is_kept none t a now later le v = (λ h. h, λ h. h)
valid_is_kept (some b) t a now later le v = (λ h. ground arith, λ h. ground arith)

-- Clean-up leaves the tokens that have not run out before `now`, in their order, and a token that
-- validates at `now` or later is found after it exactly if it was found before.
pub cleanup_expired_lem :
    (s : Store) (now : ℕ)
    → IsDict String_discrete s
    → let r = cleanup_expired now s in
      (r.1 ≡ keep (current now) s)
      × ((t : String) (a : AccessToken) (later : ℕ)
          → now ≤ later
          → is_valid a later ≡ true
          → (lookup String_discrete t r.1 ≡ some a) ↔ (lookup String_discrete t s ≡ some a))
cleanup_expired_lem s now h = (
  cleanup_expired-keep s now h,
  λ t a later le v.
      rw (cleanup_expired-keep s now h, lookup-keep String_discrete (current now) t s h)
        (valid_is_kept (lookup String_discrete t s) t a now later le v),
)

pub data Request : Type 0 where
  stores : String → AccessToken → Request
  gets deletes : String → Request
  cleans : ℕ → Request

pub serve : Request → Store → Store
unfolding store get delete cleanup_expired
serve (stores t a) s = (store t a s).1
serve (gets t) s = (get t s).1
serve (deletes t) s = (delete t s).1
serve (cleans now) s = (cleanup_expired now s).1

serve-IsDict :
    (r : Request) (s : Store) → IsDict String_discrete s → IsDict String_discrete (serve r s)
unfolding serve
serve-IsDict (stores t a) s h = insert-IsDict String_discrete t a s h
serve-IsDict (gets t) s h = h
serve-IsDict (deletes t) s h =
    subst (IsDict String_discrete) (sym (ap (λ p. p.1) (delete-memory t s)))
      (remove-IsDict String_discrete t s h)
serve-IsDict (cleans now) s h = remove_all-IsDict String_discrete (keys (keep (outdated now) s)) s h

pub serve_all : List Request → Store → Store
serve_all [] s = s
serve_all (r ∷ rs) s = serve_all rs (serve r s)

serve_from-IsDict :
    (rs : List Request) (s : Store)
    → IsDict String_discrete s
    → IsDict String_discrete (serve_all rs s)
unfolding serve_all
serve_from-IsDict [] s h = h
serve_from-IsDict (r ∷ rs) s h = serve_from-IsDict rs (serve r s) (serve-IsDict r s h)

-- No sequence of requests to a new store makes a token string stand in it twice.
pub serve_all-IsDict : (rs : List Request) → IsDict String_discrete (serve_all rs [])
serve_all-IsDict rs = serve_from-IsDict rs [] tt
