-- ===== src/Authz/Conditions.antt =====
-- gauth/authz/conditions.py: the conditions. Addresses, networks and patterns are those of the
-- standard library's `ipaddress` and `re`.
pub mod Compound
pub mod Requirements
use mathlib.Core.List.{lookup}
use gauth_py.Base.{
  ℕ, zero, suc, ◌+◌, ◌/◌, ◌%◌, Bool, true, false, not, ◌&&◌, ◌||◌, List, [], ◌∷◌, ◌++◌, Option,
  none, some, String, ◌<>◌, String_discrete, truthy, ltb, leb, ◌==◌, any, all, elem, map,
  if◌then◌else◌,
}
use gauth_py.Core.Exceptions.{Result, ok, raise, value_error, other_error}
use gauth_py.Authz.Types.{AccessRequest, ConditionClass}

-- `ip_address` is `none` where it raises `ValueError`.
pub record Libraries : Type 1 where
  pub Address : Type 0
  pub Network : Type 0
  pub Pattern : Type 0
  pub ip_address : String → Option Address
  pub ip_network : String → Result Network
  pub in_network : Address → Network → Bool
  pub compile : String → Result Pattern
  pub search : Pattern → String → Bool
  pub upper : String → String

pub data Operator : Type 0 where
  op_and op_or op_not : Operator

-- Microseconds in a day; 1 January 1970 was a Thursday, and Monday is 0.
abbrev day : ℕ
day = 86400000000

unfoldable pub weekday : ℕ → ℕ
weekday now = (now / day + 3) % 7

unfoldable pub time_of_day : ℕ → ℕ
time_of_day now = now % day

unfoldable pub in_range : Option ℕ → Option ℕ → ℕ → Bool
in_range (some start_time) (some end_time) t =
    if leb start_time end_time
    then leb start_time t && leb t end_time
    else leb start_time t || leb t end_time
in_range (some start_time) none t = leb start_time t
in_range none (some end_time) t = leb t end_time
in_range none none t = true

unfoldable pub evaluate_time : Option ℕ → Option ℕ → List ℕ → ℕ → Bool
unfolding weekday time_of_day in_range
evaluate_time start_time end_time allowed_days now =
    any (λ d. d == weekday now) allowed_days && in_range start_time end_time (time_of_day now)

unfoldable pub evaluate_role : List String → Bool → AccessRequest → Bool
evaluate_role required_roles require_all req =
    if require_all
    then all (λ role. elem String_discrete role req.subject.roles) required_roles
    else any (λ role. elem String_discrete role req.subject.roles) required_roles

-- `attributes.get(key) == required_value`.
unfoldable pub has_attribute : List (String × String) → String × String → Bool
unfolding lookup
has_attribute attributes (key, required_value) = elim (lookup String_discrete key attributes) [
  | none ↦ false
  | some value ↦ elim (String_discrete value required_value) [ yes _ ↦ true | no _ ↦ false ]
]

unfoldable pub evaluate_attribute :
    List (String × String) → List (String × String) → List (String × String) → AccessRequest → Bool
unfolding has_attribute
evaluate_attribute subject_attributes resource_attributes action_attributes req =
    all (has_attribute req.subject.attributes) subject_attributes
    && (all (has_attribute req.resource.attributes) resource_attributes
        && all (has_attribute req.action.attributes) action_attributes)

-- The dictionary of values that a path can name.
unfoldable pub path_values : AccessRequest → List (String × String)
path_values req =
    ("subject.id", req.subject.id)
    ∷ ("subject.type", req.subject.type)
    ∷ ("resource.id", req.resource.id)
    ∷ ("resource.type", req.resource.type)
    ∷ ("resource.owner", req.resource.owner)
    ∷ ("action.id", req.action.id)
    ∷ ("action.type", req.action.type)
    ∷ ("action.name", req.action.name)
    ∷ map (λ e. ("context." <> e.0, e.1)) req.context

unfoldable pub path_value : AccessRequest → String → String
unfolding lookup path_values
path_value req path = elim (lookup String_discrete path (path_values req)) [
  | none ↦ ""
  | some v ↦ v
]

module _ (lib : Libraries) where
  unfoldable pub evaluate_ip : List lib.Network → AccessRequest → Bool
  unfolding lookup truthy
  evaluate_ip allowed_networks req = elim (lookup String_discrete "client_ip" req.context) [
    | none ↦ false
    | some client_ip ↦
        if truthy client_ip
        then elim (lib.ip_address client_ip) [
          | none ↦ false
          | some client_addr ↦ any (lib.in_network client_addr) allowed_networks
        ]
        else false
  ]

  unfoldable pub evaluate_regex : List (String × lib.Pattern) → AccessRequest → Bool
  unfolding path_value
  evaluate_regex patterns req = all (λ e. lib.search e.1 (path_value req e.0)) patterns

  mutual
    pub data Condition : Type 0 where
      time : Option ℕ → Option ℕ → List ℕ → Condition
      ip : List lib.Network → Condition
      role : List String → Bool → Condition
      attribute :
          List (String × String) → List (String × String) → List (String × String) → Condition
      regex : List (String × lib.Pattern) → Condition
      compound : Operator → Conditions → Condition

    pub data Conditions : Type 0 where
      end : Conditions
      also : Condition → Conditions → Conditions

  -- `time`, with every day allowed when none is given.
  unfoldable pub time_init : Option ℕ → Option ℕ → List ℕ → Condition
  time_init start_time end_time [] = time start_time end_time (0 ∷ 1 ∷ 2 ∷ 3 ∷ 4 ∷ 5 ∷ 6 ∷ [])
  time_init start_time end_time (d ∷ days) = time start_time end_time (d ∷ days)

  -- `ip`, with the networks parsed in order.
  unfoldable pub parse_networks : List String → Result (List lib.Network)
  parse_networks [] = ok []
  parse_networks (t ∷ ts) = elim (lib.ip_network t) [
    | raise e ↦ raise e
    | ok network ↦ elim (parse_networks ts) [
      | raise e ↦ raise e
      | ok networks ↦ ok (network ∷ networks)
    ]
  ]

  unfoldable pub ip_init : List String → Result Condition
  unfolding parse_networks
  ip_init allowed_networks = elim (parse_networks allowed_networks) [
    | raise e ↦ raise e
    | ok networks ↦ ok (ip networks)
  ]

  unfoldable pub compile_patterns : List (String × String) → Result (List (String × lib.Pattern))
  compile_patterns [] = ok []
  compile_patterns ((path, pattern) ∷ ps) = elim (lib.compile pattern) [
    | raise e ↦ raise e
    | ok compiled ↦ elim (compile_patterns ps) [
      | raise e ↦ raise e
      | ok rest ↦ ok ((path, compiled) ∷ rest)
    ]
  ]

  unfoldable pub regex_init : List (String × String) → Result Condition
  unfolding compile_patterns
  regex_init patterns = elim (compile_patterns patterns) [
    | raise e ↦ raise e
    | ok compiled ↦ ok (regex compiled)
  ]

  abbrev is : String → String → Bool
  is a b = elim (String_discrete a b) [ yes _ ↦ true | no _ ↦ false ]

  abbrev pub count : Conditions → ℕ
  count end = 0
  count (also c cs) = suc (count cs)

  unfoldable pub compound_init : Conditions → String → Result Condition
  compound_init conditions operator =
      let name = lib.upper operator in
      if is name "AND"
      then ok (compound op_and conditions)
      else if is name "OR"
      then ok (compound op_or conditions)
      else if is name "NOT"
      then if count conditions == 1
        then ok (compound op_not conditions)
        else raise (value_error "NOT operator requires exactly one condition")
      else raise (value_error ("Unsupported operator: " <> operator))

  unfoldable mutual
    unfolding evaluate_time evaluate_ip evaluate_role evaluate_attribute evaluate_regex

    pub evaluate : Condition → AccessRequest → ℕ → Result Bool
    evaluate (time start_time end_time days) req now =
        ok (evaluate_time start_time end_time days now)
    evaluate (ip networks) req now = ok (evaluate_ip networks req)
    evaluate (role roles require_all) req now = ok (evaluate_role roles require_all req)
    evaluate (attribute ss rs xs) req now = ok (evaluate_attribute ss rs xs req)
    evaluate (regex patterns) req now = ok (evaluate_regex patterns req)
    evaluate (compound op_and cs) req now = evaluate_and cs req now
    evaluate (compound op_or cs) req now = evaluate_or cs req now
    evaluate (compound op_not cs) req now = evaluate_not cs req now

    -- The loop of AND, which stops at the first that fails.
    pub evaluate_and : Conditions → AccessRequest → ℕ → Result Bool
    evaluate_and end req now = ok true
    evaluate_and (also c cs) req now = elim (evaluate c req now) [
      | ok b ↦ elim b [ true ↦ evaluate_and cs req now | false ↦ ok false ]
      | raise e ↦ raise e
    ]

    pub evaluate_or : Conditions → AccessRequest → ℕ → Result Bool
    evaluate_or end req now = ok false
    evaluate_or (also c cs) req now = elim (evaluate c req now) [
      | ok b ↦ elim b [ true ↦ ok true | false ↦ evaluate_or cs req now ]
      | raise e ↦ raise e
    ]

    -- `not conditions[0].evaluate(request)`.
    pub evaluate_not : Conditions → AccessRequest → ℕ → Result Bool
    evaluate_not end req now = raise (other_error "list index out of range")
    evaluate_not (also c cs) req now = elim (evaluate c req now) [
      | ok b ↦ ok (not b)
      | raise e ↦ raise e
    ]

-- The conditions of this module as the implementation of the abstract class.
abbrev pub condition_class : Libraries → ConditionClass
condition_class lib = record { Condition = Condition lib; evaluate = evaluate lib }
