-- ===== src/Ratelimit/TokenBucket/Bound.antt =====
-- How many requests a token bucket lets through in a span of time.
use mathlib.Core.List.{lookup}
use gauth_py.Base.{
  ℕ, ◌+◌, ◌-◌, ◌*◌, ◌≤◌, ◌<◌, ◌≡◌, ◌≢◌, refl, ap, ◌∙◌, ◌⊎◌, Bool, true, false, List, [], ◌∷◌, none,
  String, String_discrete, leb, leb→le, min, ite, if_pos, if_neg, arith, if◌then◌else◌,
  Option-cases, Bool-cases, inl, inr,
}
use gauth_py.Base.Int.{pos}
use gauth_py.Base.Dict.{insert, lookup-insert}
use gauth_py.Core.Exceptions.{Result, ok}
use gauth_py.Ratelimit.Times.{Ordered, Ordered-le, mul_mono}
use gauth_py.Ratelimit.TokenBucket.{
  Bucket, TokenBucketRateLimiter, take_token, find_bucket, full_bucket, allow,
}

-- On a bucket that is not in debt, under a clock that is not set back, the integers are numbers.
take_token_lem :
    (l : TokenBucketRateLimiter) (n last now : ℕ)
    → last ≤ now
    → let m =
        min (l.max_requests * l.time_window) (n + (now * l.max_requests - last * l.max_requests)) in
      take_token l (record { tokens = pos n; last_update = last }) now ≡ (
        if leb l.time_window m
        then (true, record { tokens = pos (m - l.time_window); last_update = now })
        else (false, record { tokens = pos m; last_update = now }))
unfolding take_token
take_token_lem l n last now h = ground (arith, mul_mono last now l.max_requests h)

-- What may still be spent under a key, at a time: a level `k` reached at `last`, plus what has
-- come in since.
Budget : TokenBucketRateLimiter → String → ℕ → ℕ → Type 0
Budget l key t n =
    (k : ℕ) × (last : ℕ) × (find_bucket l key t ≡ record { tokens = pos k; last_update = last })
    × (k ≤ l.max_requests * l.time_window)
    × (last ≤ t)
    × (k + t * l.max_requests ≡ n + last * l.max_requests)

abbrev cost : TokenBucketRateLimiter → Bool → ℕ
cost l allowed = if allowed then l.time_window else 0

-- One call under the key spends what it is let through for, out of what has come in.
spend :
    (l : TokenBucketRateLimiter) (b : Bucket) (k last t now n : ℕ)
    → b ≡ record { tokens = pos k; last_update = last }
    → last ≤ t
    → t ≤ now
    → k + t * l.max_requests ≡ n + last * l.max_requests
    → let r = take_token l b now in
      (m : ℕ) × (r.1 ≡ record { tokens = pos m; last_update = now })
      × (m ≤ l.max_requests * l.time_window)
      × (m + cost l r.0 + t * l.max_requests ≤ n + now * l.max_requests)
spend l b k last t now n e h h' p =
    let full = l.max_requests * l.time_window in
    let level = min full (k + (now * l.max_requests - last * l.max_requests)) in
    let le : last ≤ now = omega arith in
    let q = mul_mono last now l.max_requests le in
    rw (e, take_token_lem l k last now le)
      (elim (Bool-cases (leb l.time_window level)) [
        | inl c ↦
            let w = leb→le l.time_window level c in
            rw c (level - l.time_window, refl, omega arith, omega arith)
        | inr c ↦ rw c (level, refl, omega arith, omega arith)
      ])

-- The calls of `allow`, of all keys, in the order they are made.
abbrev pub counts : Result Bool → ℕ
counts (ok true) = 1
counts _ = 0

pub granted : String → TokenBucketRateLimiter → List (String × ℕ) → ℕ
granted key l [] = 0
granted key l ((j, now) ∷ cs) =
    let (r, l') = allow j now l in ite (String_discrete key j) (counts r) 0 + granted key l' cs

allow_lem :
    (l : TokenBucketRateLimiter) (key : String) (now : ℕ)
    → 0 < l.time_window
    → let r = take_token l (find_bucket l key now) now in
      allow key now l ≡ (ok (r.0), record l { buckets = insert String_discrete key r.1 l.buckets })
unfolding allow
allow_lem l key now w = ground arith

find_bucket-insert :
    (l : TokenBucketRateLimiter) (key j : String) (b : Bucket) (t : ℕ)
    → find_bucket (record l { buckets = insert String_discrete j b l.buckets }) key t
      ≡ ite (String_discrete key j) b (find_bucket l key t)
unfolding find_bucket
find_bucket-insert l key j b t = ground (arith, lookup-insert String_discrete j key b l.buckets)

find_bucket_cases :
    (l : TokenBucketRateLimiter) (key : String) (t now : ℕ)
    → ((find_bucket l key t ≡ full_bucket l t) × (find_bucket l key now ≡ full_bucket l now))
      ⊎ (find_bucket l key now ≡ find_bucket l key t)
unfolding find_bucket
find_bucket_cases l key t now = elim (Option-cases (lookup String_discrete key l.buckets)) [
  | inl e ↦ inl (ground arith, ground arith)
  | inr (b, e) ↦ inr (ground arith)
]

-- As time goes by, a key under which nothing is asked gains what comes in, and no more.
advance :
    (l : TokenBucketRateLimiter) (key : String) (t now n : ℕ)
    → t ≤ now
    → Budget l key t n
    → (m : ℕ) × Budget l key now m × (m + t * l.max_requests ≤ n + now * l.max_requests)
unfolding Budget full_bucket
advance l key t now n h (k, last, e, full, le, p) = elim (find_bucket_cases l key t now) [
  | inl (e₁, e₂) ↦ (
    n,
    (k, now, ground arith, full, omega arith, ground arith),
    omega (arith, mul_mono t now l.max_requests h),
  )
  | inr same ↦ (
    k + (now * l.max_requests - last * l.max_requests),
    (
      k,
      last,
      same ∙ e,
      full,
      omega arith,
      omega (arith, mul_mono last now l.max_requests (omega arith)),
    ),
    omega (arith, mul_mono last now l.max_requests (omega arith)),
  )
]

after_call : TokenBucketRateLimiter → String → ℕ → TokenBucketRateLimiter
after_call l j now = record l {
  buckets = insert String_discrete j (take_token l (find_bucket l j now) now).1 l.buckets;
}

call_own :
    (l : TokenBucketRateLimiter) (key : String) (t now n : ℕ)
    → t ≤ now
    → Budget l key t n
    → (m : ℕ) × Budget (after_call l key now) key now m
      × (m + cost l (take_token l (find_bucket l key now) now).0 + t * l.max_requests
          ≤ n + now * l.max_requests)
unfolding Budget after_call
call_own l key t now n h b =
    let (n', (k, last, e, full, le, p), q) = advance l key t now n h b in
    let (m, e', full', q') =
      spend l (find_bucket l key now) k last now now n' e le (omega arith) p in
    let own = find_bucket-insert l key key (take_token l (find_bucket l key now) now).1 now in
    (
      m,
      (m, now, own ∙ if_pos (String_discrete key key) refl _ _ ∙ e', full', omega arith, refl),
      omega arith,
    )

call_other :
    (l : TokenBucketRateLimiter) (key j : String) (t now n : ℕ)
    → key ≢ j
    → t ≤ now
    → Budget l key t n
    → (m : ℕ) × Budget (after_call l j now) key now m
      × (m + t * l.max_requests ≤ n + now * l.max_requests)
unfolding Budget after_call
call_other l key j t now n ne h b =
    let (m, (k, last, e, full, le, p), q) = advance l key t now n h b in
    let own = find_bucket-insert l key j (take_token l (find_bucket l j now) now).1 now in
    (m, (k, last, own ∙ if_neg (String_discrete key j) ne _ _ ∙ e, full, le, p), q)

call_same :
    (l : TokenBucketRateLimiter) (key j : String) (t now n : ℕ)
    → key ≡ j
    → t ≤ now
    → Budget l key t n
    → (m : ℕ) × Budget (after_call l j now) key now m
      × (m + cost l (take_token l (find_bucket l j now) now).0 + t * l.max_requests
          ≤ n + now * l.max_requests)
call_same l key j t now n p h b = rw (← p) (call_own l key t now n h b)

counts-cost :
    (l : TokenBucketRateLimiter) (allowed : Bool)
    → counts (ok allowed) * l.time_window ≡ cost l allowed
counts-cost l true = omega arith
counts-cost l false = omega arith

granted-Budget :
    (l : TokenBucketRateLimiter) (key : String) (cs : List (String × ℕ)) (t end n : ℕ)
    → 0 < l.time_window
    → Ordered (λ c. c.1) t cs end
    → Budget l key t n
    → granted key l cs * l.time_window + t * l.max_requests ≤ n + end * l.max_requests
unfolding granted after_call
granted-Budget l key [] t end n w o b = omega (arith, mul_mono t end l.max_requests o)
granted-Budget l key ((j, now) ∷ cs) t end n w o b =
    let c = counts (ok ((take_token l (find_bucket l j now) now).0)) in
    rw (allow_lem l j now w) (elim (String_discrete key j) [
      | yes p ↦
          let (m, b', q) = call_same l key j t now n p o.0 b in
          omega (
            arith,
            ap (λ (x : ℕ). x * l.time_window) (if_pos (String_discrete key j) p c 0),
            counts-cost l (take_token l (find_bucket l j now) now).0,
            granted-Budget (after_call l j now) key cs now end m w o.1 b',
          )
      | no p ↦
          let (m, b', q) = call_other l key j t now n p o.0 b in
          omega (
            arith,
            ap (λ (x : ℕ). x * l.time_window) (if_neg (String_discrete key j) p c 0),
            granted-Budget (after_call l j now) key cs now end m w o.1 b',
          )
    ])

fresh :
    (l : TokenBucketRateLimiter) (key : String) (t : ℕ)
    → lookup String_discrete key l.buckets ≡ none
    → Budget l key t (l.max_requests * l.time_window)
unfolding Budget find_bucket full_bucket
fresh l key t e = (l.max_requests * l.time_window, t, ground arith, omega arith, omega arith, refl)

-- However the calls for the keys interleave, and whatever came before under other keys, a key that
-- has no bucket yet is granted at most `max_requests` requests plus those that come in, at the
-- rate of `max_requests` in a window, between the bounds of the times of the calls:
-- granted * window ≤ max_requests * (window + (end - start)).
pub granted-le :
    (l : TokenBucketRateLimiter) (key : String) (cs : List (String × ℕ)) (start end : ℕ)
    → 0 < l.time_window
    → lookup String_discrete key l.buckets ≡ none
    → Ordered (λ c. c.1) start cs end
    → granted key l cs * l.time_window
      ≤ l.max_requests * l.time_window + (end - start) * l.max_requests
granted-le l key cs start end w e o =
    let n = l.max_requests * l.time_window in
    let b : Budget l key start n = fresh l key start e in
    let h = granted-Budget l key cs start end n w o b in
    let d : end ≡ start + (end - start) = omega (arith, Ordered-le (λ c. c.1) start end cs o) in
    let d' = ap (λ t. t * l.max_requests) d in omega (arith, d', h)
