-- ===== src/Ratelimit/SlidingWindow/Window.antt =====
-- The deque answers as a count over the whole history would.
use gauth_py.Base.{
  ℕ, ◌+◌, ◌≤◌, ◌≡◌, refl, sym, ap, ◌∙◌, Bool, true, false, List, [], ◌∷◌, ◌++◌, String,
  String_discrete, ltb, leb, ite, if_pos, if_neg, arith, if◌then◌else◌, Bool-cases, inl, inr,
  length, keep, map, All, All-append,
}
use gauth_py.Base.Dict.{insert, lookup-insert}
use gauth_py.Core.Exceptions.{Result, ok}
use gauth_py.Ratelimit.Times.{Ordered}
use gauth_py.Ratelimit.SlidingWindow.{
  SlidingWindowRateLimiter, init, pop_old, find_requests, admit, allow,
}

module _ (window : ℕ) where
  -- The requests of a history that are not older than the window at a time.
  abbrev pub recent : ℕ → List ℕ → List ℕ
  recent now = keep (λ r. leb now (r + window))

  pop_old_idem :
      (t now : ℕ) (rs : List ℕ)
      → t ≤ now
      → pop_old window now (pop_old window t rs) ≡ pop_old window now rs
  unfolding pop_old
  pop_old_idem t now [] h = refl
  pop_old_idem t now (r ∷ rs) h = ground (arith, pop_old_idem t now rs h)

  pop_old-append :
      (now last : ℕ) (rs : List ℕ)
      → All (λ r. r ≤ last) rs
      → pop_old window now (rs ++ last ∷ []) ≡ pop_old window now rs ++ recent now (last ∷ [])
  unfolding pop_old
  pop_old-append now last [] h = ground arith
  pop_old-append now last (r ∷ rs) h = ground (arith, pop_old-append now last rs h.1)

  pub keep-append : (p : ℕ → Bool) (xs ys : List ℕ) → keep p (xs ++ ys) ≡ keep p xs ++ keep p ys
  keep-append p [] ys = refl
  keep-append p (x ∷ xs) ys = ground (arith, keep-append p xs ys)

  pop_old-All :
      (now last : ℕ) (rs : List ℕ)
      → All (λ r. r ≤ last) rs
      → All (λ r. r ≤ last) (pop_old window now rs)
  unfolding pop_old
  pop_old-All now last [] h = h
  pop_old-All now last (r ∷ rs) h = ground (arith, pop_old-All now last rs h.1)

  All-le_mono : (t now : ℕ) (rs : List ℕ) → t ≤ now → All (λ r. r ≤ t) rs → All (λ r. r ≤ now) rs
  All-le_mono t now [] h a = tt
  All-le_mono t now (r ∷ rs) h a = (omega arith, All-le_mono t now rs h a.1)

  -- A deque stands for a history of granted requests, from a time on.
  record Represents (past : List ℕ) (t : ℕ) (rs : List ℕ) : Type 0 where
    not_later : All (λ r. r ≤ t) rs
    agrees : (now : ℕ) → t ≤ now → pop_old window now rs ≡ recent now past

  Represents-later :
      (past : List ℕ) (t now : ℕ) (rs : List ℕ)
      → t ≤ now
      → Represents past t rs
      → Represents past now rs
  Represents-later past t now rs h r = record {
    not_later = All-le_mono t now rs h r.not_later;
    agrees = λ n le. r.agrees n (omega arith);
  }

  Represents-popped :
      (past : List ℕ) (t now : ℕ) (rs : List ℕ)
      → t ≤ now
      → Represents past t rs
      → Represents past now (pop_old window now rs)
  Represents-popped past t now rs h r = record {
    not_later = pop_old-All now now rs (All-le_mono t now rs h r.not_later);
    agrees = λ n le. pop_old_idem now n rs le ∙ r.agrees n (omega arith);
  }

  Represents-granted :
      (past : List ℕ) (t now : ℕ) (rs : List ℕ)
      → t ≤ now
      → Represents past t rs
      → Represents (past ++ now ∷ []) now (pop_old window now rs ++ now ∷ [])
  Represents-granted past t now rs h r =
      let popped = Represents-popped past t now rs h r in
      record {
        not_later =
            All-append (λ r. r ≤ now) (pop_old window now rs) (now ∷ []) popped.not_later
              (omega arith);
        agrees = λ n le.
            pop_old-append n now (pop_old window now rs) popped.not_later
            ∙ ap (λ xs. xs ++ recent n (now ∷ [])) (popped.agrees n le)
            ∙ sym (keep-append (λ r. leb n (r + window)) past (now ∷ []));
      }

-- The specification: the limiter remembers every request that it granted, and grants one if
-- fewer than the maximum were granted under its key within the window that ends now.
unfoldable pub times : String → List (String × ℕ) → List ℕ
times key [] = []
times key ((j, r) ∷ past) = let rest = times key past in ite (String_discrete key j) (r ∷ rest) rest

unfoldable pub may_pass : ℕ → ℕ → String → ℕ → List (String × ℕ) → Bool
unfolding times
may_pass max_requests window key now past =
    ltb (length (recent window now (times key past))) max_requests

unfoldable pub specified : ℕ → ℕ → List (String × ℕ) → List (String × ℕ) → List Bool
specified max_requests window past [] = []
specified max_requests window past ((key, now) ∷ cs) =
    let b = may_pass max_requests window key now past in
    b ∷ specified max_requests window (if b then past ++ (key, now) ∷ [] else past) cs

unfoldable pub answers : SlidingWindowRateLimiter → List (String × ℕ) → List (Result Bool)
answers l [] = []
answers l ((key, now) ∷ cs) = let (r, l') = allow key now l in r ∷ answers l' cs

pub times-append :
    (key j : String) (r : ℕ) (past : List (String × ℕ))
    → times key (past ++ (j, r) ∷ [])
      ≡ ite (String_discrete key j) (times key past ++ r ∷ []) (times key past)
unfolding times
times-append key j r [] = refl
times-append key j r ((i, q) ∷ past) = ground (arith, times-append key j r past)

find_requests-insert :
    (l : SlidingWindowRateLimiter) (key j : String) (rs : List ℕ)
    → find_requests (record l { requests = insert String_discrete j rs l.requests }) key
      ≡ ite (String_discrete key j) rs (find_requests l key)
unfolding find_requests
find_requests-insert l key j rs = ground (arith, lookup-insert String_discrete j key rs l.requests)

-- All the deques stand for the history, each for the part under its key.
pub Simulates : SlidingWindowRateLimiter → List (String × ℕ) → ℕ → Type 0
Simulates l past t =
    (key : String) → Represents l.time_window (times key past) t (find_requests l key)

abbrev pub passed : SlidingWindowRateLimiter → ℕ → String → SlidingWindowRateLimiter
passed l now key = record l {
  requests =
      insert String_discrete key (pop_old l.time_window now (find_requests l key) ++ now ∷ [])
        l.requests;
}

abbrev pub refused : SlidingWindowRateLimiter → ℕ → String → SlidingWindowRateLimiter
refused l now key = record l {
  requests =
      insert String_discrete key (pop_old l.time_window now (find_requests l key)) l.requests;
}

module _ (l : SlidingWindowRateLimiter) (past : List (String × ℕ)) (t now : ℕ) (key : String)
    (h : t ≤ now) (s : Simulates l past t) where
  abbrev popped : List ℕ
  popped = pop_old l.time_window now (find_requests l key)

  popped-recent : popped ≡ recent l.time_window now (times key past)
  unfolding Simulates
  popped-recent = (s key).agrees now h

  pub allow-pass :
      may_pass l.max_requests l.time_window key now past ≡ true
      → allow key now l ≡ (ok true, passed l now key)
  unfolding allow may_pass admit
  allow-pass p = ground (arith, popped-recent)

  pub allow-refuse :
      may_pass l.max_requests l.time_window key now past ≡ false
      → allow key now l ≡ (ok false, refused l now key)
  unfolding allow may_pass admit
  allow-refuse p = ground (arith, popped-recent)

  pub Simulates-pass : Simulates (passed l now key) (past ++ (key, now) ∷ []) now
  unfolding Simulates
  Simulates-pass k =
      rw (find_requests-insert l k key (popped ++ now ∷ []), times-append k key now past)
        (elim (String_discrete k key) [
          | yes p ↦
              rw
                (
                  if_pos (String_discrete k key) p (times k past ++ now ∷ []) (times k past),
                  if_pos (String_discrete k key) p (popped ++ now ∷ []) (find_requests l k),
                  p,
                )
                (Represents-granted l.time_window (times key past) t now (find_requests l key) h
                  (s key))
          | no p ↦
              rw
                (
                  if_neg (String_discrete k key) p (times k past ++ now ∷ []) (times k past),
                  if_neg (String_discrete k key) p (popped ++ now ∷ []) (find_requests l k),
                )
                (Represents-later l.time_window (times k past) t now (find_requests l k) h (s k))
        ])

  pub Simulates-refuse : Simulates (refused l now key) past now
  unfolding Simulates
  Simulates-refuse k = rw (find_requests-insert l k key popped) (elim (String_discrete k key) [
    | yes p ↦
        rw (if_pos (String_discrete k key) p popped (find_requests l k), p)
          (Represents-popped l.time_window (times key past) t now (find_requests l key) h (s key))
    | no p ↦
        rw (if_neg (String_discrete k key) p popped (find_requests l k))
          (Represents-later l.time_window (times k past) t now (find_requests l k) h (s k))
  ])

answers-specified :
    (l : SlidingWindowRateLimiter) (past : List (String × ℕ)) (cs : List (String × ℕ)) (t end : ℕ)
    → Ordered (λ c. c.1) t cs end
    → Simulates l past t
    → answers l cs ≡ map ok (specified l.max_requests l.time_window past cs)
unfolding answers specified
answers-specified l past [] t end o s = refl
answers-specified l past ((key, now) ∷ cs) t end o s =
    elim (Bool-cases (may_pass l.max_requests l.time_window key now past)) [
      | inl p ↦
          rw (allow-pass l past t now key o.0 s p, p)
            (ap (◌∷◌ (ok true)) (
              answers-specified (passed l now key) (past ++ (key, now) ∷ []) cs now end o.1
                (Simulates-pass l past t now key o.0 s)))
      | inr p ↦
          rw (allow-refuse l past t now key o.0 s p, p)
            (ap (◌∷◌ (ok false)) (
              answers-specified (refused l now key) past cs now end o.1
                (Simulates-refuse l past t now key o.0 s)))
    ]

pub init-Simulates : (max_requests window t : ℕ) → Simulates (init max_requests window) [] t
unfolding Simulates init find_requests times pop_old
init-Simulates max_requests window t key = record { not_later = tt; agrees = λ now le. refl }

-- Under a clock that is not set back, a new limiter gives, over any calls for any keys, the answers
-- of the specification that remembers everything, although it forgets what is out of the window.
pub init-answers :
    (max_requests window : ℕ) (cs : List (String × ℕ)) (start end : ℕ)
    → Ordered (λ c. c.1) start cs end
    → answers (init max_requests window) cs ≡ map ok (specified max_requests window [] cs)
unfolding init
init-answers max_requests window cs start end o =
    answers-specified (init max_requests window) [] cs start end o
      (init-Simulates max_requests window start)
