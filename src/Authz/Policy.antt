-- ===== src/Authz/Policy.antt =====
-- gauth/authz/types.py: `Policy`. The clock reads the same while one policy is matched.
use gauth_py.Base.{
  ℕ, Bool, true, false, ◌||◌, List, [], ◌∷◌, String, String_discrete, any, elem, if◌then◌else◌,
}
use gauth_py.Base.Int.{ℤ}
use gauth_py.Core.Exceptions.{Result, ok, raise}
use gauth_py.Authz.Types.{Effect, Subject, Resource, Action, AccessRequest, ConditionClass}

module _ (C : ConditionClass) where
  pub record Policy : Type 0 where
    pub id : String
    pub version : String
    pub name : String
    pub description : String
    pub created_at : ℕ
    pub updated_at : ℕ
    pub effect : Effect
    pub subjects : List Subject
    pub resources : List Resource
    pub actions : List Action
    pub conditions : List (String × C.Condition)
    pub priority : ℤ
    pub status : String

  -- `a == b` on texts.
  abbrev pub same : String → String → Bool
  same a b = elim (String_discrete a b) [ yes _ ↦ true | no _ ↦ false ]

  unfoldable pub subjects_match : List Subject → Subject → Bool
  subjects_match [] actual = true
  subjects_match (s ∷ ss) actual =
      any
        (λ s.
          same s.id actual.id
          || (same s.type actual.type
              || any (λ role. elem String_discrete role actual.roles) s.roles))
        (s ∷ ss)

  unfoldable pub resources_match : List Resource → Resource → Bool
  resources_match [] actual = true
  resources_match (r ∷ rs) actual =
      any (λ r. same r.id actual.id || same r.type actual.type) (r ∷ rs)

  unfoldable pub actions_match : List Action → Action → Bool
  actions_match [] actual = true
  actions_match (a ∷ rest) actual =
      any (λ a. same a.id actual.id || (same a.type actual.type || same a.name actual.name))
        (a ∷ rest)

  -- The loop over the conditions, which stops at the first that fails or raises.
  unfoldable pub conditions_hold : List (String × C.Condition) → AccessRequest → ℕ → Result Bool
  conditions_hold [] req now = ok true
  conditions_hold ((key, c) ∷ cs) req now = elim (C.evaluate c req now) [
    | ok holds ↦ elim holds [ true ↦ conditions_hold cs req now | false ↦ ok false ]
    | raise e ↦ raise e
  ]

  unfoldable pub matches : Policy → AccessRequest → ℕ → Result Bool
  unfolding subjects_match resources_match actions_match conditions_hold
  matches p req now =
      if subjects_match p.subjects req.subject
      then if resources_match p.resources req.resource
        then if actions_match p.actions req.action
          then conditions_hold p.conditions req now
          else ok false
        else ok false
      else ok false
