-- ===== src/Authz/Engine/Highest.antt =====
-- Which policy decides, and that only a policy can allow.
use mathlib.Core.List.{Mem}
use gauth_py.Base.{
  ℕ, ◌≡◌, refl, sym, ap, ◌∙◌, Bool, true, false, String_discrete, ◌<>◌, ite, List, [], ◌∷◌, Option,
  none, some, arith, if◌then◌else◌, Bool-cases, inl, inr, keep, All,
}
use gauth_py.Base.Int.{ltb_ℤ}
use gauth_py.Base.Members.{keep-All}
use gauth_py.Core.Exceptions.{Result, ok, raise}
use gauth_py.Authz.Types.{AccessRequest, AccessResponse, allow, deny, text, instant, ConditionClass}
use gauth_py.Authz.Policy.{Policy, matches}
use gauth_py.Authz.Store.{
  MemoryPolicyStore, list_policies, matching, insert_by_priority, sort_by_priority,
  find_matching_policies,
}
use gauth_py.Authz.Store.Matching.{says, applies, matching-keep, sort_by_priority-All, Result-cases}
use gauth_py.Authz.Engine.{refused, verdict, evaluation_error, decide, evaluate}

module _ (C : ConditionClass) where
  -- The first of the policies of the highest priority, by one pass.
  abbrev pub highest : List (Policy C) → Option (Policy C)
  highest [] = none
  highest (p ∷ ps) = elim (highest ps) [
    | none ↦ some p
    | some q ↦ if ltb_ℤ p.priority q.priority then some q else some p
  ]

  abbrev first : List (Policy C) → Option (Policy C)
  first [] = none
  first (p ∷ ps) = some p

  insert_by_priority-first :
      (p : Policy C) (ps : List (Policy C))
      → first (insert_by_priority C p ps) ≡ elim (first ps) [
        | none ↦ some p
        | some q ↦ if ltb_ℤ p.priority q.priority then some q else some p
      ]
  unfolding insert_by_priority
  insert_by_priority-first p [] = refl
  insert_by_priority-first p (q ∷ qs) = ground arith

  sort_by_priority-first : (ps : List (Policy C)) → first (sort_by_priority C ps) ≡ highest ps
  unfolding sort_by_priority
  sort_by_priority-first [] = refl
  sort_by_priority-first (p ∷ ps) =
      rw (insert_by_priority-first p (sort_by_priority C ps), sort_by_priority-first ps) refl

  says_ok : (r : Result Bool) → says r ≡ true → r ≡ ok true
  says_ok (ok b) h = ap ok h
  says_ok (raise e) h = cc

  -- What holds of each policy that the engine is given.
  pub record Listed (s : MemoryPolicyStore C) (req : AccessRequest) (now : ℕ) (p : Policy C)
      : Type 0 where
    pub stored : Mem p (list_policies C s)
    pub active : p.status ≡ "active"
    pub matched : matches C p req now ≡ ok true

  applies-Listed :
      (s : MemoryPolicyStore C) (req : AccessRequest) (now : ℕ) (p : Policy C)
      → Mem p (list_policies C s)
      → applies C req now p ≡ true
      → Listed s req now p
  applies-Listed s req now p m h = record {
    stored = m;
    active = ground arith;
    matched = says_ok (matches C p req now) (ground arith);
  }

  find_matching_policies-All :
      (s : MemoryPolicyStore C) (req : AccessRequest) (now : ℕ) (ps : List (Policy C))
      → find_matching_policies C s req now ≡ ok ps
      → All (Listed s req now) ps
  unfolding find_matching_policies
  find_matching_policies-All s req now ps h =
      elim (Result-cases (matching C (list_policies C s) req now)) [
        | inl r ↦
            let e : ps ≡ sort_by_priority C r.0 = ground (arith, r.1) in
            let k = matching-keep C (list_policies C s) r.0 req now r.1 in
            let a =
              keep-All (Listed s req now) (applies C req now) (list_policies C s)
                (applies-Listed s req now) in
            rw (e, k)
              (sort_by_priority-All C (Listed s req now)
                (keep (applies C req now) (list_policies C s)) a)
        | inr r ↦ absurd (ground (arith, r.1))
      ]

  decide_allowed :
      (s : MemoryPolicyStore C) (req : AccessRequest) (listed now : ℕ) (ps : List (Policy C))
      (r : AccessResponse)
      → All (Listed s req listed) ps
      → decide C ps req now ≡ ok r
      → r.allowed ≡ true
      → (p : Policy C) × Listed s req listed p
        × (matches C p req now ≡ ok true)
        × (p.effect ≡ allow)
        × (r.policy_id ≡ some p.id)
  unfolding decide verdict refused
  decide_allowed s req listed now [] r a h e = absurd (ground arith)
  decide_allowed s req listed now (p ∷ ps) r a h e = elim (Result-cases (matches C p req now)) [
    | inl m ↦ elim (Bool-cases m.0) [
      | inl t ↦ (p, a.0, ground (arith, m.1), ground (arith, m.1), ground (arith, m.1))
      | inr f ↦ decide_allowed s req listed now ps r a.1 (ground (arith, m.1)) e
    ]
    | inr m ↦ absurd (ground (arith, m.1))
  ]

  answer_allowed :
      (s : MemoryPolicyStore C) (req : AccessRequest) (listed now : ℕ) (ps : List (Policy C))
      → find_matching_policies C s req listed ≡ ok ps
      → All (Listed s req listed) ps
      → (evaluate C s req listed now).allowed ≡ true
      → (p : Policy C) × Listed s req listed p
        × (matches C p req now ≡ ok true)
        × (p.effect ≡ allow)
        × ((evaluate C s req listed now).policy_id ≡ some p.id)
  unfolding evaluate refused evaluation_error
  answer_allowed s req listed now [] e a h = absurd (ground (arith, e))
  answer_allowed s req listed now (p ∷ ps) e a h = elim (Result-cases (decide C (p ∷ ps) req now)) [
    | inl d ↦
        let q = decide_allowed s req listed now (p ∷ ps) d.0 a d.1 (ground (arith, e, d.1)) in
        (q.0, q.1, q.2, q.3, ground (arith, e, d.1, q.4))
    | inr d ↦ absurd (ground (arith, e, d.1))
  ]

  evaluate_first :
      (s : MemoryPolicyStore C) (req : AccessRequest) (now : ℕ) (ps : List (Policy C))
      → find_matching_policies C s req now ≡ ok ps
      → All (Listed s req now) ps
      → evaluate C s req now now ≡ elim (first ps) [
        | none ↦ refused "No matching policies found" now
        | some p ↦ verdict C p now
      ]
  unfolding evaluate decide
  evaluate_first s req now [] e a = ground (arith, e)
  evaluate_first s req now (p ∷ ps) e a = ground (arith, e, a.0.matched)

  -- A request is allowed only by a policy of the store that is active, that allows, that matched
  -- the request when the policies were listed and again when they were evaluated, and that the
  -- response names. Whatever raises in between, nothing is allowed for it.
  pub evaluate_allowed :
      (s : MemoryPolicyStore C) (req : AccessRequest) (listed now : ℕ)
      → (evaluate C s req listed now).allowed ≡ true
      → (p : Policy C) × Listed s req listed p
        × (matches C p req now ≡ ok true)
        × (p.effect ≡ allow)
        × ((evaluate C s req listed now).policy_id ≡ some p.id)
  unfolding evaluate evaluation_error
  evaluate_allowed s req listed now h =
      elim (Result-cases (find_matching_policies C s req listed)) [
        | inl r ↦
            answer_allowed s req listed now r.0 r.1
              (find_matching_policies-All s req listed r.0 r.1) h
        | inr r ↦ absurd (ground (arith, r.1))
      ]

  -- An active policy that matches the request.
  abbrev pub chosen : AccessRequest → ℕ → Policy C → Bool
  chosen req now p =
      ite (String_discrete p.status "active")
        (elim (matches C p req now) [ ok b ↦ b | raise e ↦ false ]) false

  chosen-applies :
      (req : AccessRequest) (now : ℕ) (ps : List (Policy C))
      → keep (chosen req now) ps ≡ keep (applies C req now) ps
  chosen-applies req now [] = refl
  chosen-applies req now (p ∷ ps) =
      let ih = chosen-applies req now ps in
      elim (String_discrete p.status "active") [
        | no n ↦ ground arith
        | yes a ↦ elim (Result-cases (matches C p req now)) [
          | inl r ↦ elim (Bool-cases r.0) [
            | inl t ↦ ground (arith, r.1)
            | inr f ↦ ground (arith, r.1)
          ]
          | inr r ↦ ground (arith, r.1)
        ]
      ]

  -- No condition of an active policy raises.
  abbrev pub NoneRaises : AccessRequest → ℕ → List (Policy C) → Type 0
  NoneRaises req now = All (λ p. p.status ≡ "active" → (b : Bool) × (matches C p req now ≡ ok b))

  matching-ok :
      (req : AccessRequest) (now : ℕ) (ps : List (Policy C))
      → NoneRaises req now ps
      → matching C ps req now ≡ ok (keep (applies C req now) ps)
  unfolding matching
  matching-ok req now [] n = refl
  matching-ok req now (p ∷ ps) n =
      let ih = matching-ok req now ps n.1 in
      elim (String_discrete p.status "active") [
        | no i ↦ ground arith
        | yes a ↦ let m = n.0 a in ground (arith, m.1)
      ]

  -- What the deciding policy makes of the request.
  abbrev pub response : Option (Policy C) → ℕ → AccessResponse
  response none now = record {
    allowed = false;
    reason = "No matching policies found";
    policy_id = none;
    annotations = ("evaluation_time", instant now) ∷ [];
  }
  response (some p) now = record {
    allowed = elim p.effect [ allow ↦ true | deny ↦ false ];
    reason = elim p.effect [
      | allow ↦ "Access allowed by policy " <> p.id
      | deny ↦ "Access denied by policy " <> p.id
    ];
    policy_id = some p.id;
    annotations = ("policy_name", text p.name) ∷ ("evaluation_time", instant now) ∷ [];
  }

  answer-response :
      (o : Option (Policy C)) (now : ℕ)
      → elim o [ none ↦ refused "No matching policies found" now | some p ↦ verdict C p now ]
        ≡ response o now
  unfolding refused verdict
  answer-response none now = refl
  answer-response (some p) now = ground arith

  -- While the clock stands still and no condition of an active policy raises, the first of the
  -- policies of the highest priority among the active ones that match decides: the request is
  -- allowed if that policy allows, and denied if it denies, in its name; without such a policy
  -- nothing is allowed.
  pub evaluate_highest :
      (s : MemoryPolicyStore C) (req : AccessRequest) (now : ℕ)
      → NoneRaises req now (list_policies C s)
      → evaluate C s req now now
        ≡ response (highest (keep (chosen req now) (list_policies C s))) now
  unfolding find_matching_policies
  evaluate_highest s req now n =
      let ps = keep (applies C req now) (list_policies C s) in
      let qs = sort_by_priority C ps in
      let h = matching-ok req now (list_policies C s) n in
      let e : find_matching_policies C s req now ≡ ok qs = ground (arith, h) in
      rw (chosen-applies req now (list_policies C s), sym (sort_by_priority-first ps))
        (evaluate_first s req now qs e (find_matching_policies-All s req now qs e)
          ∙ answer-response (first qs) now)
