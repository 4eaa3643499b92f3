-- ===== src/Store/Tests.antt =====
-- Runs of the store with three indexes.
use mathlib.Core.List.{lookup}
use gauth_py.Base.{
  ℕ, ◌+◌, ◌≡◌, refl, Bool, true, false, List, [], ◌∷◌, Option, none, some, String, String_discrete,
  keep, length,
}
use gauth_py.Base.Dict.{IsDict}
use gauth_py.Store.{
  TokenMetadata, token_not_found, gives, storage_error, MemoryTokenStore, init, store, get,
  get_by_id, delete, cleanup_expired,
}
use gauth_py.Store.Index.{Request, stores, deletes, revokes, cleans, serve_all, get_by_id-get}
use gauth_py.Store.Expiry.{not_due, cleanup_expired_exact}

abbrev metadata : String → String → ℕ → TokenMetadata
metadata id subject expires_at = record {
  id = id;
  subject = subject;
  issuer = "gauth";
  issued_at = 0;
  expires_at = expires_at;
  key_id = "";
  type = "access";
  status = "active";
  scopes = [];
  client_id = "";
  grant_id = "";
  revoked_at = none;
  revocation_reason = "";
  last_used_at = none;
  use_count = 0;
}

abbrev requests : List Request
requests =
    stores "a" (metadata "a" "ann" 10)
    ∷ stores "b" (metadata "b" "ann" 20)
    ∷ stores "a" (metadata "a" "ann" 30)
    ∷ revokes "b" "lost" 5
    ∷ deletes "c"
    ∷ cleans 20
    ∷ []

get_by_id-get_example :
    let s = serve_all requests init in
    let held = lookup String_discrete "a" s.tokens in
    ((get_by_id "a" s).0 ≡ elim held [ none ↦ token_not_found "get_by_id" "a" | some m ↦ gives m ])
    × ((get "a" s).0 ≡ elim held [ none ↦ token_not_found "get" "a" | some m ↦ gives m ])
get_by_id-get_example =
    get_by_id-get (λ t. t) (λ t u e. e) requests "a" (refl, (refl, (refl, (tt, (tt, (tt, tt))))))

abbrev two : MemoryTokenStore
two = record {
  tokens = ("a", metadata "i1" "ann" 10) ∷ ("b", metadata "i2" "ann" 20) ∷ [];
  id_to_token = ("i1", "a") ∷ ("i2", "b") ∷ [];
  subject_tokens = ("ann", "i1" ∷ "i2" ∷ []) ∷ [];
  operations_count = 2;
  error_count = 0;
}

two-IsDict : IsDict String_discrete two.tokens
unfolding lookup String_discrete
two-IsDict = (refl, (refl, tt))

cleanup_expired_exact_example :
    let r = cleanup_expired 10 two in
    (r.1.tokens ≡ keep (not_due 10) two.tokens) × (r.0 + length r.1.tokens ≡ length two.tokens)
cleanup_expired_exact_example = cleanup_expired_exact two 10 two-IsDict

-- Stored again under a new id, a token leaves its old id behind; once it is deleted, that id is an
-- internal error in place of a token that is not found.
dangling :
    (get_by_id "i1" (delete "a" (store "a" (metadata "i3" "ann" 30) two)).1).0
    ≡ storage_error "get_by_id" "i1"
unfolding get_by_id delete store String_discrete lookup gauth_py.Base.Dict.insert
dangling = refl
