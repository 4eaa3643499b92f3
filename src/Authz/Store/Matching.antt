-- ===== src/Authz/Store/Matching.antt =====
-- What `find_matching_policies` finds, and in which order.
use gauth_py.Base.{
  ℕ, ◌≡◌, refl, ap, ◌∙◌, ◌⊎◌, Bool, false, not, ◌&&◌, List, [], ◌∷◌, arith, Bool-cases, inl, inr,
  keep, All,
}
use gauth_py.Base.Int.{ℤ, ltb_ℤ}
use gauth_py.Core.Exceptions.{Exception, Result, ok, raise}
use gauth_py.Authz.Types.{AccessRequest, ConditionClass}
use gauth_py.Authz.Policy.{Policy, same, matches}
use gauth_py.Authz.Store.{
  MemoryPolicyStore, list_policies, matching, insert_by_priority, sort_by_priority,
  find_matching_policies,
}

abbrev pub says : Result Bool → Bool
says (ok b) = b
says (raise e) = false

pub Result-cases :
    {A : Type 0} (r : Result A) → ((a : A) × (r ≡ ok a)) ⊎ ((e : Exception) × (r ≡ raise e))
Result-cases (ok a) = inl (a, refl)
Result-cases (raise e) = inr (e, refl)

module _ (C : ConditionClass) where
  -- An active policy that matches.
  abbrev pub applies : AccessRequest → ℕ → Policy C → Bool
  applies req now p = same C p.status "active" && says (matches C p req now)

  pub matching-keep :
      (ps qs : List (Policy C)) (req : AccessRequest) (now : ℕ)
      → matching C ps req now ≡ ok qs
      → qs ≡ keep (applies req now) ps
  unfolding matching
  matching-keep [] qs req now h = cc
  matching-keep (p ∷ ps) qs req now h = elim (Result-cases (matching C ps req now)) [
    | inl r ↦ ground (arith, r.1, matching-keep ps r.0 req now r.1)
    | inr r ↦ ground (arith, r.1)
  ]

  -- No policy comes after one of lower priority.
  abbrev pub Descending : List (Policy C) → Type 0
  Descending [] = Unit
  Descending (p ∷ ps) = All (λ q. ltb_ℤ p.priority q.priority ≡ false) ps × Descending ps

  pub insert_by_priority-All {κ} :
      (P : Policy C → Type κ) (p : Policy C) (ps : List (Policy C))
      → P p
      → All P ps
      → All P (insert_by_priority C p ps)
  unfolding insert_by_priority
  insert_by_priority-All P p [] h a = (h, tt)
  insert_by_priority-All P p (q ∷ qs) h a = elim (Bool-cases (ltb_ℤ p.priority q.priority)) [
    | inl t ↦ rw t (a.0, insert_by_priority-All P p qs h a.1)
    | inr f ↦ rw f (h, a)
  ]

  pub sort_by_priority-All {κ} :
      (P : Policy C → Type κ) (ps : List (Policy C)) → All P ps → All P (sort_by_priority C ps)
  unfolding sort_by_priority
  sort_by_priority-All P [] a = tt
  sort_by_priority-All P (p ∷ ps) a =
      insert_by_priority-All P p (sort_by_priority C ps) a.0 (sort_by_priority-All P ps a.1)

  not_below_trans :
      (p q : Policy C) (ps : List (Policy C))
      → ltb_ℤ p.priority q.priority ≡ false
      → All (λ r. ltb_ℤ q.priority r.priority ≡ false) ps
      → All (λ r. ltb_ℤ p.priority r.priority ≡ false) ps
  not_below_trans p q [] h a = tt
  not_below_trans p q (r ∷ ps) h a = (ground (arith, a.0), not_below_trans p q ps h a.1)

  insert_by_priority-Descending :
      (p : Policy C) (ps : List (Policy C)) → Descending ps → Descending (insert_by_priority C p ps)
  unfolding insert_by_priority
  insert_by_priority-Descending p [] d = (tt, tt)
  insert_by_priority-Descending p (q ∷ qs) d = elim (Bool-cases (ltb_ℤ p.priority q.priority)) [
    | inl t ↦ rw t (
      insert_by_priority-All (λ r. ltb_ℤ q.priority r.priority ≡ false) p qs (ground arith) d.0,
      insert_by_priority-Descending p qs d.1,
    )
    | inr f ↦ rw f ((f, not_below_trans p q qs f d.0), d)
  ]

  sort_by_priority-Descending : (ps : List (Policy C)) → Descending (sort_by_priority C ps)
  unfolding sort_by_priority
  sort_by_priority-Descending [] = tt
  sort_by_priority-Descending (p ∷ ps) =
      insert_by_priority-Descending p (sort_by_priority C ps) (sort_by_priority-Descending ps)

  abbrev pub has_priority : ℤ → Policy C → Bool
  has_priority n p = not (ltb_ℤ n p.priority) && not (ltb_ℤ p.priority n)

  insert_by_priority-keep :
      (n : ℤ) (p : Policy C) (ps : List (Policy C))
      → keep (has_priority n) (insert_by_priority C p ps) ≡ keep (has_priority n) (p ∷ ps)
  unfolding insert_by_priority
  insert_by_priority-keep n p [] = refl
  insert_by_priority-keep n p (q ∷ qs) = ground (arith, insert_by_priority-keep n p qs)

  sort_by_priority-keep :
      (n : ℤ) (ps : List (Policy C))
      → keep (has_priority n) (sort_by_priority C ps) ≡ keep (has_priority n) ps
  unfolding sort_by_priority
  sort_by_priority-keep n [] = refl
  sort_by_priority-keep n (p ∷ ps) =
      insert_by_priority-keep n p (sort_by_priority C ps)
      ∙ ground (arith, sort_by_priority-keep n ps)

  -- When no condition raises, the policies found are the active ones that match, those of a lower
  -- priority never before those of a higher, and those of one priority in the order of the store.
  pub find_matching_policies_lem :
      (s : MemoryPolicyStore C) (req : AccessRequest) (now : ℕ) (ps : List (Policy C))
      → find_matching_policies C s req now ≡ ok ps
      → Descending ps
        × ((n : ℤ)
            → keep (has_priority n) ps
              ≡ keep (has_priority n) (keep (applies req now) (list_policies C s)))
  unfolding find_matching_policies
  find_matching_policies_lem s req now ps h =
      elim (Result-cases (matching C (list_policies C s) req now)) [
        | inl r ↦
            let e : ps ≡ sort_by_priority C r.0 = ground (arith, r.1) in
            let k = matching-keep (list_policies C s) r.0 req now r.1 in
            rw e (
              sort_by_priority-Descending r.0,
              λ n. sort_by_priority-keep n r.0 ∙ ap (keep (has_priority n)) k,
            )
        | inr r ↦ absurd (ground (arith, r.1))
      ]
