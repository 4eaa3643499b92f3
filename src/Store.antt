-- ===== src/Store.antt =====
-- gauth/store/types.py and gauth/store/memory.py: `TokenMetadata` and the `MemoryTokenStore` with
-- its three indexes. Each method holds the lock throughout; a metadata object is shared with no
-- other entry. A set of ids is a list, in the order in which its members came.
pub mod Index
pub mod Expiry
mod Tests
use mathlib.Core.List.{lookup}
use gauth_py.Base.{
  ℕ, ◌+◌, Bool, true, false, not, ◌||◌, List, [], ◌∷◌, ◌++◌, Option, none, some, String,
  String_discrete, ltb, leb, keep, elem, length, if◌then◌else◌,
}
use gauth_py.Base.Dict.{insert, remove, contains, keys, values}

pub record TokenMetadata : Type 0 where
  pub id : String
  pub subject : String
  pub issuer : String
  pub issued_at : ℕ
  pub expires_at : ℕ
  pub key_id : String
  pub type : String
  pub status : String
  pub scopes : List String
  pub client_id : String
  pub grant_id : String
  pub revoked_at : Option ℕ
  pub revocation_reason : String
  pub last_used_at : Option ℕ
  pub use_count : ℕ

unfoldable pub is_expired : TokenMetadata → ℕ → Bool
is_expired m now = ltb m.expires_at now

unfoldable pub is_revoked : TokenMetadata → Bool
is_revoked m = elim (String_discrete m.status "revoked") [
  | yes _ ↦ true
  | no _ ↦ elim m.revoked_at [ none ↦ false | some _ ↦ true ]
]

-- How a call ends: with a value, with `TokenNotFoundError`, or with another `StorageError`, both
-- with the operation and the key.
pub data Reply (A : Type 0) : Type 0 where
  gives : A → Reply A
  token_not_found storage_error : String → String → Reply A

pub record MemoryTokenStore : Type 0 where
  pub tokens : List (String × TokenMetadata)
  pub id_to_token : List (String × String)
  pub subject_tokens : List (String × List String)
  pub operations_count : ℕ
  pub error_count : ℕ

unfoldable pub init : MemoryTokenStore
init = record {
  tokens = [];
  id_to_token = [];
  subject_tokens = [];
  operations_count = 0;
  error_count = 0;
}

abbrev counted : MemoryTokenStore → MemoryTokenStore
counted s = record s { operations_count = s.operations_count + 1 }

abbrev add_to_set : String → List String → List String
add_to_set x xs = if elem String_discrete x xs then xs else xs ++ x ∷ []

abbrev discard : String → List String → List String
discard x = keep λ y. elim (String_discrete y x) [ yes _ ↦ false | no _ ↦ true ]

abbrev ids_of : String → List (String × List String) → List String
unfolding lookup
ids_of subject m = elim (lookup String_discrete subject m) [ none ↦ [] | some ids ↦ ids ]

unfoldable pub store : String → TokenMetadata → MemoryTokenStore → MemoryTokenStore
unfolding ids_of
store token metadata s = counted (record s {
  tokens = insert String_discrete token metadata s.tokens;
  id_to_token = insert String_discrete metadata.id token s.id_to_token;
  subject_tokens =
      insert String_discrete metadata.subject
        (add_to_set metadata.id (ids_of metadata.subject s.subject_tokens)) s.subject_tokens;
})

unfoldable pub get : String → MemoryTokenStore → Reply TokenMetadata × MemoryTokenStore
unfolding lookup
get token s = elim (lookup String_discrete token s.tokens) [
  | none ↦ (token_not_found "get" token, s)
  | some metadata ↦ (gives metadata, counted s)
]

-- An id whose token is gone is a `KeyError`, reported as a `StorageError` and counted.
unfoldable pub get_by_id : String → MemoryTokenStore → Reply TokenMetadata × MemoryTokenStore
unfolding lookup
get_by_id token_id s = elim (lookup String_discrete token_id s.id_to_token) [
  | none ↦ (token_not_found "get_by_id" token_id, s)
  | some token ↦ elim (lookup String_discrete token s.tokens) [
    | none ↦ (storage_error "get_by_id" token_id, record s { error_count = s.error_count + 1 })
    | some metadata ↦ (gives metadata, counted s)
  ]
]

-- The subject's set loses the id, and goes when it is empty.
unfoldable pub discard_subject :
    TokenMetadata → List (String × List String) → List (String × List String)
unfolding lookup
discard_subject metadata m = elim (lookup String_discrete metadata.subject m) [
  | none ↦ m
  | some ids ↦ elim (discard metadata.id ids) [
    | [] ↦ remove String_discrete metadata.subject m
    | x ∷ rest ↦ insert String_discrete metadata.subject (x ∷ rest) m
  ]
]

unfoldable pub delete : String → MemoryTokenStore → Bool × MemoryTokenStore
unfolding lookup discard_subject remove
delete token s = elim (lookup String_discrete token s.tokens) [
  | none ↦ (false, s)
  | some metadata ↦ (
    true,
    counted (record s {
      tokens = remove String_discrete token s.tokens;
      id_to_token = remove String_discrete metadata.id s.id_to_token;
      subject_tokens = discard_subject metadata s.subject_tokens;
    }),
  )
]

-- The metadata of the ids, of those that are still known.
unfoldable pub find_ids : List String → MemoryTokenStore → List TokenMetadata
unfolding lookup
find_ids [] s = []
find_ids (id ∷ ids) s =
    let rest = find_ids ids s in
    elim (lookup String_discrete id s.id_to_token) [
      | none ↦ rest
      | some token ↦ elim (lookup String_discrete token s.tokens) [
        | none ↦ rest
        | some metadata ↦ metadata ∷ rest
      ]
    ]

unfoldable pub list_by_subject : String → MemoryTokenStore → List TokenMetadata × MemoryTokenStore
unfolding find_ids
list_by_subject subject s = elim (lookup String_discrete subject s.subject_tokens) [
  | none ↦ ([], s)
  | some ids ↦ (find_ids ids s, counted s)
]

unfoldable pub revoke : String → String → ℕ → MemoryTokenStore → Bool × MemoryTokenStore
unfolding lookup
revoke token reason now s = elim (lookup String_discrete token s.tokens) [
  | none ↦ (false, s)
  | some metadata ↦ (
    true,
    counted (record s {
      tokens =
          insert String_discrete token
            (record metadata {
              status = "revoked";
              revoked_at = some now;
              revocation_reason = reason;
            })
            s.tokens;
    }),
  )
]

-- `is_revoked` of the store, by `get`.
unfoldable pub check_revoked : String → MemoryTokenStore → Reply Bool × MemoryTokenStore
unfolding get is_revoked
check_revoked token s =
    let (r, s') = get token s in
    elim r [
      | gives metadata ↦ (gives (is_revoked metadata), s')
      | token_not_found operation key ↦ (token_not_found operation key, s')
      | storage_error operation key ↦
          (storage_error "is_revoked" token, record s' { error_count = s'.error_count + 1 })
    ]

unfoldable pub delete_all : List String → MemoryTokenStore → MemoryTokenStore
unfolding delete
delete_all [] s = s
delete_all (token ∷ tokens) s = delete_all tokens (delete token s).1

-- A token that runs out at `now` is removed, though `is_expired` does not count it as expired yet.
unfoldable pub cleanup_expired : ℕ → MemoryTokenStore → ℕ × MemoryTokenStore
unfolding delete_all
cleanup_expired now s =
    let expired_tokens = keys (keep (λ e. leb e.1.expires_at now) s.tokens) in
    (length expired_tokens, counted (delete_all expired_tokens s))

unfoldable pub update_last_used :
    String → ℕ → MemoryTokenStore → Reply (Unit {0}) × MemoryTokenStore
unfolding lookup
update_last_used token now s = elim (lookup String_discrete token s.tokens) [
  | none ↦ (token_not_found "update_last_used" token, s)
  | some metadata ↦ (
    gives tt,
    counted (record s {
      tokens =
          insert String_discrete token
            (record metadata { last_used_at = some now; use_count = metadata.use_count + 1 })
            s.tokens;
    }),
  )
]

pub record StorageStats : Type 0 where
  pub total_tokens : ℕ
  pub active_tokens : ℕ
  pub expired_tokens : ℕ
  pub revoked_tokens : ℕ

-- The loop that counts.
unfoldable pub count_tokens : List TokenMetadata → ℕ → StorageStats → StorageStats
unfolding is_revoked is_expired
count_tokens [] now stats = stats
count_tokens (m ∷ ms) now stats = count_tokens ms now (
    if is_revoked m
    then record stats { revoked_tokens = stats.revoked_tokens + 1 }
    else if is_expired m now
    then record stats { expired_tokens = stats.expired_tokens + 1 }
    else record stats { active_tokens = stats.active_tokens + 1 })

-- The size in bytes, the uptime and the two counters of the store are left out.
unfoldable pub get_stats : ℕ → MemoryTokenStore → StorageStats
unfolding count_tokens
get_stats now s = count_tokens (values s.tokens) now (record {
  total_tokens = length s.tokens;
  active_tokens = 0;
  expired_tokens = 0;
  revoked_tokens = 0;
})

unfoldable pub clear_all : MemoryTokenStore → MemoryTokenStore
clear_all s = record s { tokens = []; id_to_token = []; subject_tokens = [] }
