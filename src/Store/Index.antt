-- ===== src/Store/Index.antt =====
-- The index by id, as long as each token string has an id of its own.
use mathlib.Core.List.{lookup}
use gauth_py.Base.{
  ◌≡◌, ◌≢◌, refl, sym, ap, subst, List, [], ◌∷◌, none, some, String, String_discrete, ℕ, ◌+◌, arith,
  Option-cases, inl, inr, keep, leb, All,
}
use gauth_py.Base.Dict.{insert, remove, keys, lookup-insert, lookup-remove}
use gauth_py.Store.{
  TokenMetadata, gives, token_not_found, MemoryTokenStore, init, store, get, get_by_id,
  discard_subject, delete, delete_all, revoke, cleanup_expired, update_last_used, clear_all,
}

-- The calls that change the tokens.
pub data Request : Type 0 where
  stores : String → TokenMetadata → Request
  deletes : String → Request
  revokes : String → String → ℕ → Request
  cleans : ℕ → Request
  touches : String → ℕ → Request
  clears : Request

unfoldable pub serve : Request → MemoryTokenStore → MemoryTokenStore
unfolding store delete revoke cleanup_expired update_last_used clear_all
serve (stores t m) s = store t m s
serve (deletes t) s = (delete t s).1
serve (revokes t reason now) s = (revoke t reason now s).1
serve (cleans now) s = (cleanup_expired now s).1
serve (touches t now) s = (update_last_used t now s).1
serve clears s = clear_all s

unfoldable pub serve_all : List Request → MemoryTokenStore → MemoryTokenStore
unfolding serve
serve_all [] s = s
serve_all (r ∷ rs) s = serve_all rs (serve r s)

-- What the methods leave that find their token.
abbrev removed : String → TokenMetadata → MemoryTokenStore → MemoryTokenStore
removed t m s = record s {
  tokens = remove String_discrete t s.tokens;
  id_to_token = remove String_discrete m.id s.id_to_token;
  subject_tokens = discard_subject m s.subject_tokens;
  operations_count = s.operations_count + 1;
}

abbrev replaced : String → TokenMetadata → MemoryTokenStore → MemoryTokenStore
replaced t m s = record s {
  tokens = insert String_discrete t m s.tokens;
  operations_count = s.operations_count + 1;
}

abbrev revoked : TokenMetadata → String → ℕ → TokenMetadata
revoked m reason now = record m {
  status = "revoked";
  revoked_at = some now;
  revocation_reason = reason;
}

abbrev touched : TokenMetadata → ℕ → TokenMetadata
touched m now = record m { last_used_at = some now; use_count = m.use_count + 1 }

module _ (id_of : String → String) where
  -- A request stores a token only under its own id.
  abbrev pub Names : Request → Type 0
  Names (stores t m) = m.id ≡ id_of t
  Names _ = Unit

  module _ (injective : (t u : String) → id_of t ≡ id_of u → t ≡ u) where
    record Indexed (s : MemoryTokenStore) : Type 0 where
      names :
          (t : String) (m : TokenMetadata)
          → lookup String_discrete t s.tokens ≡ some m
          → m.id ≡ id_of t
      points :
          (t : String)
          → lookup String_discrete (id_of t) s.id_to_token
            ≡ elim (lookup String_discrete t s.tokens) [ none ↦ none | some _ ↦ some t ]

    id-ne : (t u : String) → t ≢ u → id_of t ≢ id_of u
    id-ne t u h e = h (injective t u e)

    store-Indexed :
        (t : String) (m : TokenMetadata) (s : MemoryTokenStore)
        → m.id ≡ id_of t
        → Indexed s
        → Indexed (store t m s)
    unfolding store
    store-Indexed t m s e v = record {
      names = λ u n h. elim (String_discrete u t) [
        | yes p ↦ ground (arith, lookup-insert String_discrete t u m s.tokens)
        | no p ↦ v.names u n (ground (arith, lookup-insert String_discrete t u m s.tokens))
      ];
      points = λ u. elim (String_discrete u t) [
        | yes p ↦ ground (
          arith,
          ap id_of p,
          lookup-insert String_discrete t u m s.tokens,
          lookup-insert String_discrete m.id (id_of u) t s.id_to_token,
        )
        | no p ↦
            let q = id-ne u t p in
            ground (
              arith,
              v.points u,
              lookup-insert String_discrete t u m s.tokens,
              lookup-insert String_discrete m.id (id_of u) t s.id_to_token,
            )
      ];
    }

    removed-Indexed :
        (t : String) (m : TokenMetadata) (s : MemoryTokenStore)
        → lookup String_discrete t s.tokens ≡ some m
        → Indexed s
        → Indexed (removed t m s)
    removed-Indexed t m s k v =
        let i = v.names t m k in
        record {
          names = λ u n h. elim (String_discrete u t) [
            | yes p ↦ absurd (ground (arith, lookup-remove String_discrete t u s.tokens))
            | no p ↦ v.names u n (ground (arith, lookup-remove String_discrete t u s.tokens))
          ];
          points = λ u. elim (String_discrete u t) [
            | yes p ↦ ground (
              arith,
              ap id_of p,
              i,
              lookup-remove String_discrete t u s.tokens,
              lookup-remove String_discrete m.id (id_of u) s.id_to_token,
            )
            | no p ↦
                let q = id-ne u t p in
                ground (
                  arith,
                  i,
                  v.points u,
                  lookup-remove String_discrete t u s.tokens,
                  lookup-remove String_discrete m.id (id_of u) s.id_to_token,
                )
          ];
        }

    delete-Indexed : (t : String) (s : MemoryTokenStore) → Indexed s → Indexed (delete t s).1
    unfolding delete
    delete-Indexed t s v = elim (Option-cases (lookup String_discrete t s.tokens)) [
      | inl e ↦ let q : (delete t s).1 ≡ s = ground (arith, e) in subst Indexed (sym q) v
      | inr x ↦
          let q : (delete t s).1 ≡ removed t x.0 s = ground (arith, x.1) in
          subst Indexed (sym q) (removed-Indexed t x.0 s x.1 v)
    ]

    replaced-Indexed :
        (t : String) (m : TokenMetadata) (s : MemoryTokenStore)
        → m.id ≡ id_of t
        → ((k : TokenMetadata) × (lookup String_discrete t s.tokens ≡ some k))
        → Indexed s
        → Indexed (replaced t m s)
    replaced-Indexed t m s e k v = record {
      names = λ u n h. elim (String_discrete u t) [
        | yes p ↦ ground (arith, lookup-insert String_discrete t u m s.tokens)
        | no p ↦ v.names u n (ground (arith, lookup-insert String_discrete t u m s.tokens))
      ];
      points = λ u. elim (String_discrete u t) [
        | yes p ↦ ground (arith, v.points u, k.1, lookup-insert String_discrete t u m s.tokens)
        | no p ↦ ground (arith, v.points u, lookup-insert String_discrete t u m s.tokens)
      ];
    }

    revoke-Indexed :
        (t reason : String) (now : ℕ) (s : MemoryTokenStore)
        → Indexed s
        → Indexed (revoke t reason now s).1
    unfolding revoke
    revoke-Indexed t reason now s v = elim (Option-cases (lookup String_discrete t s.tokens)) [
      | inl e ↦ let q : (revoke t reason now s).1 ≡ s = ground (arith, e) in subst Indexed (sym q) v
      | inr x ↦
          let q : (revoke t reason now s).1 ≡ replaced t (revoked x.0 reason now) s =
            ground (arith, x.1) in
          subst Indexed (sym q)
            (replaced-Indexed t (revoked x.0 reason now) s (v.names t x.0 x.1) x v)
    ]

    update_last_used-Indexed :
        (t : String) (now : ℕ) (s : MemoryTokenStore)
        → Indexed s
        → Indexed (update_last_used t now s).1
    unfolding update_last_used
    update_last_used-Indexed t now s v = elim (Option-cases (lookup String_discrete t s.tokens)) [
      | inl e ↦
          let q : (update_last_used t now s).1 ≡ s = ground (arith, e) in subst Indexed (sym q) v
      | inr x ↦
          let q : (update_last_used t now s).1 ≡ replaced t (touched x.0 now) s =
            ground (arith, x.1) in
          subst Indexed (sym q) (replaced-Indexed t (touched x.0 now) s (v.names t x.0 x.1) x v)
    ]

    delete_all-Indexed :
        (ts : List String) (s : MemoryTokenStore) → Indexed s → Indexed (delete_all ts s)
    unfolding delete_all
    delete_all-Indexed [] s v = v
    delete_all-Indexed (t ∷ ts) s v = delete_all-Indexed ts (delete t s).1 (delete-Indexed t s v)

    counted-Indexed :
        (s : MemoryTokenStore) (n : ℕ) → Indexed s → Indexed (record s { operations_count = n })
    counted-Indexed s n v = record { names = v.names; points = v.points }

    serve-Indexed : (r : Request) (s : MemoryTokenStore) → Names r → Indexed s → Indexed (serve r s)
    unfolding serve lookup
    serve-Indexed (stores t m) s h v = store-Indexed t m s h v
    serve-Indexed (deletes t) s h v = delete-Indexed t s v
    serve-Indexed (revokes t reason now) s h v = revoke-Indexed t reason now s v
    serve-Indexed (cleans now) s h v =
        let expired = keys (keep (λ e. leb e.1.expires_at now) s.tokens) in
        let s' = delete_all expired s in
        counted-Indexed s' (s'.operations_count + 1) (delete_all-Indexed expired s v)
    serve-Indexed (touches t now) s h v = update_last_used-Indexed t now s v
    serve-Indexed clears s h v = record { names = λ t m e. cc; points = λ t. refl }

    serve_all-Indexed :
        (rs : List Request) (s : MemoryTokenStore)
        → All Names rs
        → Indexed s
        → Indexed (serve_all rs s)
    unfolding serve_all
    serve_all-Indexed [] s h v = v
    serve_all-Indexed (r ∷ rs) s h v =
        serve_all-Indexed rs (serve r s) h.1 (serve-Indexed r s h.0 v)

    init-Indexed : Indexed init
    unfolding init lookup
    init-Indexed = record { names = λ t m e. cc; points = λ t. refl }

    -- If different tokens have different ids and each token is only ever stored under its own, then
    -- after any calls a look-up by id gives just what a look-up by token gives, and says that there
    -- is no such token exactly where that one does: no entry of the index dangles, which would be
    -- a storage error, and none is missing.
    pub get_by_id-get :
        (rs : List Request) (t : String)
        → All Names rs
        → let s = serve_all rs init in
          let held = lookup String_discrete t s.tokens in
          ((get_by_id (id_of t) s).0
            ≡ elim held [ none ↦ token_not_found "get_by_id" (id_of t) | some m ↦ gives m ])
          × ((get t s).0 ≡ elim held [ none ↦ token_not_found "get" t | some m ↦ gives m ])
    unfolding get get_by_id
    get_by_id-get rs t h =
        let s = serve_all rs init in
        let v : Indexed s = serve_all-Indexed rs init h init-Indexed in
        elim (Option-cases (lookup String_discrete t s.tokens)) [
          | inl e ↦ (ground (arith, v.points t, e), ground (arith, e))
          | inr x ↦ (ground (arith, v.points t, x.1), ground (arith, x.1))
        ]
