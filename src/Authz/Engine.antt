-- ===== src/Authz/Engine.antt =====
-- gauth/authz/authz.py: `PolicyEngine` and `MemoryAuthorizer`. `listed` is the clock while the
-- policies are listed and `now` while they are matched again.
pub mod Highest
use gauth_py.Base.{
  ℕ, Bool, true, false, List, [], ◌∷◌, Option, none, some, String, ◌<>◌, if◌then◌else◌,
}
use gauth_py.Core.Exceptions.{Exception, message, Result, ok, raise}
use gauth_py.Authz.Types.{
  Effect, allow, deny, Subject, Resource, Action, AccessRequest, AccessResponse, Annotation, text,
  instant, Decision, ConditionClass,
}
use gauth_py.Authz.Policy.{Policy, matches}
use gauth_py.Authz.Store.{MemoryPolicyStore, find_matching_policies}

unfoldable pub refused : String → ℕ → AccessResponse
refused reason now = record {
  allowed = false;
  reason = reason;
  policy_id = none;
  annotations = ("evaluation_time", instant now) ∷ [];
}

unfoldable pub evaluation_error : Exception → ℕ → AccessResponse
unfolding message
evaluation_error e now = record {
  allowed = false;
  reason = "Evaluation error: " <> message e;
  policy_id = none;
  annotations = ("error", text (message e)) ∷ ("evaluation_time", instant now) ∷ [];
}

module _ (C : ConditionClass) where
  unfoldable pub verdict : Policy C → ℕ → AccessResponse
  verdict p now = elim p.effect [
    | deny ↦ record {
      allowed = false;
      reason = "Access denied by policy " <> p.id;
      policy_id = some p.id;
      annotations = ("policy_name", text p.name) ∷ ("evaluation_time", instant now) ∷ [];
    }
    | allow ↦ record {
      allowed = true;
      reason = "Access allowed by policy " <> p.id;
      policy_id = some p.id;
      annotations = ("policy_name", text p.name) ∷ ("evaluation_time", instant now) ∷ [];
    }
  ]

  -- The loop over the policies listed.
  unfoldable pub decide : List (Policy C) → AccessRequest → ℕ → Result AccessResponse
  unfolding verdict refused
  decide [] req now = ok (refused "No policy explicitly allows access" now)
  decide (p ∷ ps) req now = elim (matches C p req now) [
    | ok b ↦ elim b [ true ↦ ok (verdict p now) | false ↦ decide ps req now ]
    | raise e ↦ raise e
  ]

  -- The body of the `try`.
  evaluating : MemoryPolicyStore C → AccessRequest → ℕ → ℕ → Result AccessResponse
  unfolding decide refused
  evaluating s req listed now = elim (find_matching_policies C s req listed) [
    | ok ps ↦ elim ps [
      | [] ↦ ok (refused "No matching policies found" now)
      | p ∷ rest ↦ decide (p ∷ rest) req now
    ]
    | raise e ↦ raise e
  ]

  unfoldable pub evaluate : MemoryPolicyStore C → AccessRequest → ℕ → ℕ → AccessResponse
  unfolding evaluating evaluation_error
  evaluate s req listed now = elim (evaluating s req listed now) [
    | ok response ↦ response
    | raise e ↦ evaluation_error e now
  ]

  unfoldable pub authorize :
      MemoryPolicyStore C → Subject → Action → Resource → ℕ → ℕ → ℕ → Decision
  unfolding evaluate
  authorize s subject action resource listed now timestamp =
      let response =
        evaluate s
          (record { subject = subject; resource = resource; action = action; context = [] }) listed
          now in
      record {
        allowed = response.allowed;
        reason = response.reason;
        policy = response.policy_id;
        timestamp = timestamp;
        annotations = response.annotations;
      }
