-- ===== src/Ratelimit/SlidingWindow/Bound.antt =====
-- What the specification of the sliding window promises.
use gauth_py.Base.{
  ite, Bool, sym, subst, ℕ, ◌+◌, ◌≤◌, ◌≡◌, true, List, [], ◌∷◌, ◌++◌, String, String_discrete, leb,
  if_pos, if_neg, arith, if◌then◌else◌, Bool-cases, inl, inr, length, length-append,
}
use gauth_py.Ratelimit.Times.{Ordered}
use mathlib.Core.List.{append-nil, append_assoc}
use gauth_py.Core.Exceptions.{Result, ok, raise}
use gauth_py.Ratelimit.SlidingWindow.{SlidingWindowRateLimiter, init, allow}
use gauth_py.Ratelimit.SlidingWindow.Window.{
  Simulates, init-Simulates, passed, refused, allow-pass, allow-refuse, Simulates-pass,
  Simulates-refuse, recent, times, times-append, may_pass, keep-append,
}

-- The requests granted so far, after the calls.
pub history : ℕ → ℕ → List (String × ℕ) → List (String × ℕ) → List (String × ℕ)
history max_requests window past [] = past
history max_requests window past ((key, now) ∷ cs) =
    history max_requests window
      (if may_pass max_requests window key now past then past ++ (key, now) ∷ [] else past) cs

length-recent_mono :
    (window t now : ℕ) (rs : List ℕ)
    → t ≤ now
    → length (recent window now rs) ≤ length (recent window t rs)
length-recent_mono window t now [] h = omega arith
length-recent_mono window t now (r ∷ rs) h = ground (arith, length-recent_mono window t now rs h)

Bounded : ℕ → ℕ → List (String × ℕ) → ℕ → Type 0
Bounded max_requests window past t =
    (key : String) (now : ℕ) → t ≤ now → length (recent window now (times key past)) ≤ max_requests

length-recent-snoc :
    (window now r : ℕ) (rs : List ℕ)
    → length (recent window now (rs ++ r ∷ [])) ≤ length (recent window now rs) + 1
length-recent-snoc window now r rs = ground (
  arith,
  keep-append window (λ r. leb now (r + window)) rs (r ∷ []),
  length-append (recent window now rs) (recent window now (r ∷ [])),
)

Bounded-pass :
    (max_requests window : ℕ) (past : List (String × ℕ)) (t now : ℕ) (key : String)
    → t ≤ now
    → may_pass max_requests window key now past ≡ true
    → Bounded max_requests window past t
    → Bounded max_requests window (past ++ (key, now) ∷ []) now
unfolding Bounded may_pass
Bounded-pass max_requests window past t now key h p b k n le =
    rw (times-append k key now past) (elim (String_discrete k key) [
      | yes e ↦
          rw (if_pos (String_discrete k key) e (times k past ++ now ∷ []) (times k past), e)
            (ground (
              arith,
              length-recent-snoc window n now (times key past),
              length-recent_mono window now n (times key past) le,
            ))
      | no e ↦
          rw (if_neg (String_discrete k key) e (times k past ++ now ∷ []) (times k past))
            (b k n (omega arith))
    ])

history-Bounded :
    (max_requests window : ℕ) (past : List (String × ℕ)) (cs : List (String × ℕ)) (t end : ℕ)
    → Ordered (λ c. c.1) t cs end
    → Bounded max_requests window past t
    → Bounded max_requests window (history max_requests window past cs) end
unfolding history Bounded
history-Bounded max_requests window past [] t end o b = λ key now le. b key now (omega arith)
history-Bounded max_requests window past ((key, now) ∷ cs) t end o b =
    elim (Bool-cases (may_pass max_requests window key now past)) [
      | inl p ↦ rw p (
          history-Bounded max_requests window (past ++ (key, now) ∷ []) cs now end o.1
            (Bounded-pass max_requests window past t now key o.0 p b))
      | inr p ↦
          rw p (
            history-Bounded max_requests window past cs now end o.1 (λ k n le. b k n (omega arith)))
    ]

-- The answer to a request under `j`, noted under `key`.
unfoldable added : String → String → ℕ → Result Bool → List ℕ → List ℕ
added key j now (ok b) rest = if b then ite (String_discrete key j) (now ∷ rest) rest else rest
added key j now (raise e) rest = rest

-- The times at which the limiter let through a request under the key.
pub granted_times : String → SlidingWindowRateLimiter → List (String × ℕ) → List ℕ
granted_times key l [] = []
granted_times key l ((j, now) ∷ cs) =
    let (r, l') = allow j now l in added key j now r (granted_times key l' cs)

granted_times-history :
    (l : SlidingWindowRateLimiter) (past cs : List (String × ℕ)) (t end : ℕ) (key : String)
    → Ordered (λ c. c.1) t cs end
    → Simulates l past t
    → times key (history l.max_requests l.time_window past cs)
      ≡ times key past ++ granted_times key l cs
unfolding history granted_times added
granted_times-history l past [] t end key o s = sym (append-nil (times key past))
granted_times-history l past ((j, now) ∷ cs) t end key o s =
    elim (Bool-cases (may_pass l.max_requests l.time_window j now past)) [
      | inl p ↦
          let rest = granted_times key (passed l now j) cs in
          let ih =
            granted_times-history (passed l now j) (past ++ (j, now) ∷ []) cs now end key o.1
              (Simulates-pass l past t now j o.0 s) in
          rw (allow-pass l past t now j o.0 s p, p)
            (ground (
              arith,
              ih,
              times-append key j now past,
              append_assoc (times key past) (now ∷ []) rest,
            ))
      | inr p ↦
          let ih =
            granted_times-history (refused l now j) past cs now end key o.1
              (Simulates-refuse l past t now j o.0 s) in
          rw (allow-refuse l past t now j o.0 s p, p) (ground (arith, ih))
    ]

-- Under a clock that is not set back, of the requests that a new limiter lets through under a key,
-- over any calls for any keys, no more than `max_requests` lie within the window that ends at any
-- time from the last call on.
pub granted_in_window :
    (max_requests window : ℕ) (cs : List (String × ℕ)) (start end now : ℕ) (key : String)
    → Ordered (λ c. c.1) start cs end
    → end ≤ now
    → length (recent window now (granted_times key (init max_requests window) cs)) ≤ max_requests
unfolding times Bounded init
granted_in_window max_requests window cs start end now key o le =
    let e =
      granted_times-history (init max_requests window) [] cs start end key o
        (init-Simulates max_requests window start) in
    subst (λ rs. length (recent window now rs) ≤ max_requests) e
      (history-Bounded max_requests window [] cs start end o (λ k n h. omega arith) key now le)
