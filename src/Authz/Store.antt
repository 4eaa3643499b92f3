-- ===== src/Authz/Store.antt =====
-- gauth/authz/authz.py: `MemoryPolicyStore`. `sort` is stable; with `reverse=True` it puts higher
-- priorities first and keeps the order of equal ones.
pub mod Matching
use mathlib.Core.List.{lookup}
use gauth_py.Base.{
  ℕ, Bool, true, false, List, [], ◌∷◌, Option, String, String_discrete, if◌then◌else◌,
}
use gauth_py.Base.Int.{ltb_ℤ}
use gauth_py.Base.Dict.{insert, remove, contains, values}
use gauth_py.Core.Exceptions.{Result, ok, raise}
use gauth_py.Authz.Types.{AccessRequest, ConditionClass}
use gauth_py.Authz.Policy.{Policy, same, matches}

module _ (C : ConditionClass) where
  abbrev pub MemoryPolicyStore : Type 0
  MemoryPolicyStore = List (String × Policy C)

  unfoldable pub store_policy : Policy C → ℕ → MemoryPolicyStore → MemoryPolicyStore
  store_policy p now s = insert String_discrete p.id (record p { updated_at = now }) s

  unfoldable pub get_policy : String → MemoryPolicyStore → Option (Policy C)
  get_policy policy_id s = lookup String_discrete policy_id s

  unfoldable pub list_policies : MemoryPolicyStore → List (Policy C)
  list_policies s = values s

  unfoldable pub delete_policy : String → MemoryPolicyStore → Bool × MemoryPolicyStore
  delete_policy policy_id s =
      if contains String_discrete policy_id s
      then (true, remove String_discrete policy_id s)
      else (false, s)

  -- The loop that appends the active policies that match.
  unfoldable pub matching : List (Policy C) → AccessRequest → ℕ → Result (List (Policy C))
  matching [] req now = ok []
  matching (p ∷ ps) req now =
      let rest = matching ps req now in
      if same C p.status "active"
      then elim (matches C p req now) [
        | ok b ↦ elim rest [ ok qs ↦ ok (if b then p ∷ qs else qs) | raise e ↦ raise e ]
        | raise e ↦ raise e
      ]
      else rest

  unfoldable pub insert_by_priority : Policy C → List (Policy C) → List (Policy C)
  insert_by_priority p [] = p ∷ []
  insert_by_priority p (q ∷ qs) =
      let rest = insert_by_priority p qs in
      if ltb_ℤ p.priority q.priority then q ∷ rest else p ∷ q ∷ qs

  unfoldable pub sort_by_priority : List (Policy C) → List (Policy C)
  unfolding insert_by_priority
  sort_by_priority [] = []
  sort_by_priority (p ∷ ps) = insert_by_priority p (sort_by_priority ps)

  unfoldable pub find_matching_policies :
      MemoryPolicyStore → AccessRequest → ℕ → Result (List (Policy C))
  unfolding matching sort_by_priority list_policies
  find_matching_policies s req now = elim (matching (list_policies s) req now) [
    | ok ps ↦ ok (sort_by_priority ps)
    | raise e ↦ raise e
  ]
