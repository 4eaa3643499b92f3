-- ===== src/Poa/Manager.antt =====
-- gauth/poa/authorization.py: `AuthorizationManager`, which holds documents by their ids and
-- answers whether they authorize something, and the three authorizations of one kind. The
-- registry holds the only reference to a document. The cache, whose entries are texts here, is
-- written nowhere.
use mathlib.Core.List.{lookup}
use gauth_py.Base.{
  ℕ, Bool, true, false, not, ◌&&◌, List, [], ◌∷◌, Option, none, some, String, String_discrete,
  truthy, elem, any, keep, length, ite, if◌then◌else◌,
}
use gauth_py.Base.Int.{ℤ, ltb_ℤ}
use gauth_py.Base.Dict.{insert, values, remove, remove_all, keys}
use gauth_py.Core.Exceptions.{Result, ok, raise, value_error}
use gauth_py.Poa.{
  PowerOfAttorney, GeographicRegion, GeographicRegion_discrete, IndustrySector,
  IndustrySector_discrete, revoked, expired, is_active, is_valid, is_expired,
}

-- `amount is not None and limits has transaction_type and amount > limits[transaction_type]`.
unfoldable pub over_limit : List (String × ℤ) → String → Option ℤ → Bool
unfolding lookup
over_limit limits transaction_type none = false
over_limit limits transaction_type (some amount) =
    elim (lookup String_discrete transaction_type limits) [
      | none ↦ false
      | some limit ↦ ltb_ℤ limit amount
    ]

pub record TransactionAuthorization : Type 0 where
  pub transaction_types : List String
  pub monetary_limits : List (String × ℤ)
  pub frequency_limits : List (String × ℕ)
  pub approval_required : Bool
  pub notification_required : Bool

unfoldable pub transaction_is_authorized : TransactionAuthorization → String → Option ℤ → Bool
unfolding over_limit
transaction_is_authorized a transaction_type amount =
    if not (elem String_discrete transaction_type a.transaction_types)
    then false
    else if over_limit a.monetary_limits transaction_type amount
    then false
    else true

pub record DecisionAuthorization : Type 0 where
  pub decision_types : List String
  pub decision_domains : List String
  pub requires_justification : Bool
  pub review_required : Bool

-- `x is given, the list is not empty, and x is not in the list`.
unfoldable pub outside {ℓ} : {A : Type ℓ} → Discrete A → Option A → List A → Bool
outside dec none xs = false
outside dec (some x) [] = false
outside dec (some x) (y ∷ ys) = not (elem dec x (y ∷ ys))

unfoldable pub decision_is_authorized : DecisionAuthorization → String → Option String → Bool
unfolding outside
decision_is_authorized a decision_type domain =
    if not (elem String_discrete decision_type a.decision_types)
    then false
    else if outside String_discrete domain a.decision_domains
    then false
    else true

pub record ActionAuthorization : Type 0 where
  pub action_types : List String
  pub physical_actions_allowed : Bool
  pub digital_actions_allowed : Bool
  pub restricted_actions : List String

unfoldable pub action_is_authorized : ActionAuthorization → String → Bool → Bool
action_is_authorized a action_type is_physical =
    if not (elem String_discrete action_type a.action_types)
    then false
    else if elem String_discrete action_type a.restricted_actions
    then false
    else if is_physical && not a.physical_actions_allowed
    then false
    else if not is_physical && not a.digital_actions_allowed
    then false
    else true

abbrev pub Registry : Type 0
Registry = List (String × PowerOfAttorney)

pub record AuthorizationManager : Type 0 where
  pub poa_registry : Registry
  pub authorization_cache : List (String × String)

abbrev pub init : AuthorizationManager
init = record { poa_registry = []; authorization_cache = [] }

unfoldable pub register_poa :
    PowerOfAttorney → ℕ → AuthorizationManager → Result (Unit {0}) × AuthorizationManager
unfolding is_valid insert
register_poa p now m =
    if not (is_valid p now)
    then (raise (value_error "PoA is not valid"), m)
    else (ok tt, record m { poa_registry = insert String_discrete p.id p m.poa_registry })

unfoldable pub mark_revoked : PowerOfAttorney → PowerOfAttorney
mark_revoked p = record p { status = revoked }

unfoldable pub revoke_poa : String → AuthorizationManager → Bool × AuthorizationManager
unfolding lookup insert remove mark_revoked
revoke_poa poa_id m = elim (lookup String_discrete poa_id m.poa_registry) [
  | none ↦ (false, m)
  | some p ↦ (
    true,
    record m {
      poa_registry = insert String_discrete poa_id (mark_revoked p) m.poa_registry;
      authorization_cache = remove String_discrete poa_id m.authorization_cache;
    },
  )
]

-- The document, if it is registered and valid.
unfoldable pub find_valid : String → ℕ → AuthorizationManager → Option PowerOfAttorney
unfolding lookup is_valid
find_valid poa_id now m = elim (lookup String_discrete poa_id m.poa_registry) [
  | none ↦ none
  | some p ↦ if is_valid p now then some p else none
]

unfoldable pub allows_transaction :
    PowerOfAttorney → String → Option ℤ → Option GeographicRegion → Option IndustrySector → Bool
unfolding outside over_limit
allows_transaction p transaction_type amount region sector =
    if not (elem String_discrete transaction_type p.authorization.transaction_types)
    then false
    else if outside GeographicRegion_discrete region p.authorization.applicable_regions
    then false
    else if outside IndustrySector_discrete sector p.authorization.applicable_sectors
    then false
    else if over_limit p.restrictions.monetary_limits transaction_type amount
    then false
    else true

unfoldable pub allows_decision : PowerOfAttorney → String → Bool
allows_decision p decision_type =
    if not (elem String_discrete decision_type p.authorization.decision_types)
    then false
    else if elem String_discrete decision_type p.restrictions.prohibited_actions
    then false
    else true

unfoldable pub allows_action : PowerOfAttorney → String → Bool
allows_action p action_type =
    if not (elem String_discrete action_type p.authorization.action_types)
    then false
    else if elem String_discrete action_type p.restrictions.prohibited_actions
    then false
    else true

unfoldable pub allows_delegation : PowerOfAttorney → List String → Bool
allows_delegation p delegated_actions =
    if not p.authorization.delegation_allowed then false else elim p.authorization.sub_proxy_rules [
      | none ↦ true
      | some rules ↦
          not
            (any (λ action. elem String_discrete action rules.prohibited_actions) delegated_actions)
    ]

-- The arguments of the four checks, less those that they do not read.
pub data Question : Type 0 where
  transaction : String → Option ℤ → Option GeographicRegion → Option IndustrySector → Question
  decision : String → Question
  action : String → Question
  delegation : List String → Question

unfoldable pub allows : PowerOfAttorney → Question → Bool
unfolding allows_transaction allows_decision allows_action allows_delegation
allows p (transaction transaction_type amount region sector) =
    allows_transaction p transaction_type amount region sector
allows p (decision decision_type) = allows_decision p decision_type
allows p (action action_type) = allows_action p action_type
allows p (delegation delegated_actions) = allows_delegation p delegated_actions

-- `check_transaction_authorization` and the three others, which all begin alike.
unfoldable pub check_authorization : Question → String → ℕ → AuthorizationManager → Bool
unfolding find_valid allows
check_authorization q poa_id now m = elim (find_valid poa_id now m) [
  | none ↦ false
  | some p ↦ allows p q
]

-- `x and y != x`.
unfoldable pub filtered_out : Option String → String → Bool
unfolding truthy
filtered_out none y = false
filtered_out (some x) y = truthy x && ite (String_discrete y x) false true

-- The documents that `list_active_poas` summarizes.
unfoldable pub list_active_poas :
    Option String → Option String → ℕ → AuthorizationManager → List PowerOfAttorney
unfolding is_active is_valid filtered_out
list_active_poas principal_id client_id now m =
    keep
      (λ p.
        (is_active p && is_valid p now)
        && (not (filtered_out principal_id p.principal.id)
            && not (filtered_out client_id p.client.id)))
      (values m.poa_registry)

unfoldable pub mark_expired : ℕ → PowerOfAttorney → PowerOfAttorney
unfolding is_expired
mark_expired now p = if is_expired p now then record p { status = expired } else p

unfoldable pub mark_all : ℕ → Registry → Registry
unfolding mark_expired
mark_all now [] = []
mark_all now ((poa_id, p) ∷ m) = (poa_id, mark_expired now p) ∷ mark_all now m

abbrev expired_entries : ℕ → Registry → Registry
expired_entries now m = keep (λ e. is_expired e.1 now) m

unfoldable pub cleanup_expired_poas : ℕ → AuthorizationManager → ℕ × AuthorizationManager
unfolding mark_all remove_all is_expired
cleanup_expired_poas now m = (
  length (expired_entries now m.poa_registry),
  record m {
    poa_registry = mark_all now m.poa_registry;
    authorization_cache =
        remove_all String_discrete (keys (expired_entries now m.poa_registry))
          m.authorization_cache;
  },
)

-- A call that writes.
pub data Call : Type 0 where
  register : PowerOfAttorney → Call
  revoke : String → Call
  cleanup : Call

unfoldable pub serve : Call → ℕ → AuthorizationManager → AuthorizationManager
unfolding register_poa revoke_poa cleanup_expired_poas
serve (register p) now m = (register_poa p now m).1
serve (revoke poa_id) now m = (revoke_poa poa_id m).1
serve cleanup now m = (cleanup_expired_poas now m).1

unfoldable pub serve_all : List (Call × ℕ) → AuthorizationManager → AuthorizationManager
unfolding serve
serve_all [] m = m
serve_all ((call, now) ∷ calls) m = serve_all calls (serve call now m)
