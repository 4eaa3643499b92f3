-- ===== src/Store/Expiry.antt =====
-- What the clean-up removes, and that the statistics add up.
use gauth_py.Base.{
  ℕ, ◌+◌, ◌≡◌, refl, ap, ◌∙◌, Bool, not, List, [], ◌∷◌, String, String_discrete, leb, arith, keep,
  length,
}
use gauth_py.Base.Dict.{keys, values, remove, remove_all, IsDict, remove_all-keep, remove_absent}
use gauth_py.Store.{
  TokenMetadata, MemoryTokenStore, delete, delete_all, cleanup_expired, StorageStats, count_tokens,
  get_stats,
}

delete-tokens :
    (t : String) (s : MemoryTokenStore) → (delete t s).1.tokens ≡ remove String_discrete t s.tokens
unfolding delete
delete-tokens t s = ground (arith, remove_absent String_discrete t s.tokens)

delete_all-tokens :
    (ts : List String) (s : MemoryTokenStore)
    → (delete_all ts s).tokens ≡ remove_all String_discrete ts s.tokens
unfolding delete_all remove_all
delete_all-tokens [] s = refl
delete_all-tokens (t ∷ ts) s =
    delete_all-tokens ts (delete t s).1 ∙ ap (remove_all String_discrete ts) (delete-tokens t s)

abbrev due : ℕ → String × TokenMetadata → Bool
due now e = leb e.1.expires_at now

abbrev pub not_due : ℕ → String × TokenMetadata → Bool
not_due now e = not (leb e.1.expires_at now)

keep-length :
    (now : ℕ) (m : List (String × TokenMetadata))
    → length (keys (keep (due now) m)) + length (keep (not_due now) m) ≡ length m
keep-length now [] = omega arith
keep-length now (e ∷ m) = ground (arith, keep-length now m)

-- Clean-up deletes one by one just the tokens that run out at `now` or before, and keeps the others
-- in their order; it answers how many it deleted.
pub cleanup_expired_exact :
    (s : MemoryTokenStore) (now : ℕ)
    → IsDict String_discrete s.tokens
    → let r = cleanup_expired now s in
      (r.1.tokens ≡ keep (not_due now) s.tokens) × (r.0 + length r.1.tokens ≡ length s.tokens)
unfolding cleanup_expired
cleanup_expired_exact s now h =
    let expired = keys (keep (due now) s.tokens) in
    let e : (delete_all expired s).tokens ≡ keep (not_due now) s.tokens =
      delete_all-tokens expired s ∙ remove_all-keep String_discrete (due now) s.tokens h in
    (e, ground (arith, ap length e, keep-length now s.tokens))

count_tokens-sum :
    (ms : List TokenMetadata) (now : ℕ) (stats : StorageStats)
    → let r = count_tokens ms now stats in
      (r.total_tokens ≡ stats.total_tokens)
      × (r.active_tokens + r.expired_tokens + r.revoked_tokens
          ≡ stats.active_tokens + stats.expired_tokens + stats.revoked_tokens + length ms)
unfolding count_tokens
count_tokens-sum [] now stats = (refl, omega arith)
count_tokens-sum (m ∷ ms) now stats = grind (arith, count_tokens-sum ms now)

length-values : (m : List (String × TokenMetadata)) → length (values m) ≡ length m
length-values [] = refl
length-values (e ∷ m) = ground (arith, length-values m)

-- The statistics count each token once: the active, the expired and the revoked add up to the
-- total.
pub get_stats_lem :
    (now : ℕ) (s : MemoryTokenStore)
    → let r = get_stats now s in
      (r.total_tokens ≡ length s.tokens)
      × (r.active_tokens + r.expired_tokens + r.revoked_tokens ≡ r.total_tokens)
unfolding get_stats
get_stats_lem now s =
    let c = count_tokens-sum (values s.tokens) now (record {
      total_tokens = length s.tokens;
      active_tokens = 0;
      expired_tokens = 0;
      revoked_tokens = 0;
    }) in
    (c.0, omega (arith, c.0, c.1, length-values s.tokens))
