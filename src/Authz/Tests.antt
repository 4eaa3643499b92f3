-- ===== src/Authz/Tests.antt =====
-- Runs of the authorization engine.
use gauth_py.Base.{
  ℕ, ◌≡◌, refl, Bool, true, false, List, [], ◌∷◌, Option, none, some, String, String_discrete,
  truthy, keep,
}
use gauth_py.Base.Int.{pos}
use gauth_py.Core.Exceptions.{ok}
use gauth_py.Authz.Types.{Effect, allow, deny, AccessRequest, ConditionClass}
use gauth_py.Authz.Conditions.{
  Libraries, Condition, Conditions, role, end, also, condition_class, evaluate, evaluate_role,
}
use gauth_py.Authz.Policy.{Policy, matches}
use gauth_py.Authz.Store.{MemoryPolicyStore, list_policies, matching, find_matching_policies}
use gauth_py.Authz.Engine.{evaluate as engine_evaluate}
use gauth_py.Authz.Engine.Highest.{
  Listed, NoneRaises, chosen, response, highest, evaluate_allowed, evaluate_highest,
}

-- Texts for addresses, networks and patterns.
abbrev texts : Libraries
texts = record {
  Address = String;
  Network = String;
  Pattern = String;
  ip_address = λ s. if_some (truthy s) s;
  ip_network = ok;
  in_network = λ a n. elim (String_discrete a n) [ yes _ ↦ true | no _ ↦ false ];
  compile = ok;
  search = λ p s. elim (String_discrete p s) [ yes _ ↦ true | no _ ↦ false ];
  upper = λ s. s;
}
  where
    if_some : Bool → String → Option String
    if_some true s = some s
    if_some false s = none

abbrev class : ConditionClass
class = condition_class texts

abbrev request : AccessRequest
request = record {
  subject = record {
    id = "ann";
    type = "user";
    roles = "staff" ∷ "admin" ∷ [];
    attributes = ("team", "pay") ∷ [];
    groups = [];
  };
  resource = record { id = "ledger"; type = "file"; owner = "bob"; attributes = []; tags = [] };
  action = record { id = "a1"; type = "read"; name = "read"; attributes = [] };
  context = [];
}

abbrev policy : String → Effect → ℕ → List (String × Condition texts) → Policy class
policy id effect priority conditions = record {
  id = id;
  version = "1";
  name = id;
  description = "";
  created_at = 0;
  updated_at = 0;
  effect = effect;
  subjects = [];
  resources = [];
  actions = [];
  conditions = conditions;
  priority = pos priority;
  status = "active";
}

abbrev admins : Policy class
admins = policy "admins" allow 5 (("role", role ("admin" ∷ []) true) ∷ [])

abbrev others : Policy class
others = policy "others" deny 1 []

abbrev store : MemoryPolicyStore class
store = ("others", others) ∷ ("admins", admins) ∷ []

none_raises : NoneRaises class request 9 (list_policies class store)
unfolding matches list_policies evaluate evaluate_role String_discrete
none_raises = (λ a. (true, refl), (λ a. (true, refl), tt))

evaluate_highest_example :
    engine_evaluate class store request 9 9
    ≡ response class (highest class (keep (chosen class request 9) (list_policies class store))) 9
evaluate_highest_example = evaluate_highest class store request 9 none_raises

evaluate_allowed_example :
    (p : Policy class) × Listed class store request 8 p
    × (matches class p request 9 ≡ ok true)
    × (p.effect ≡ allow)
    × ((engine_evaluate class store request 8 9).policy_id ≡ some p.id)
unfolding engine_evaluate matching matches list_policies evaluate evaluate_role String_discrete
    find_matching_policies
evaluate_allowed_example = evaluate_allowed class store request 8 9 refl

abbrev parts : Conditions texts
parts = also (role ("admin" ∷ []) true) end
