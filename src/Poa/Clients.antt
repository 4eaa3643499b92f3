-- ===== src/Poa/Clients.antt =====
-- gauth/poa/client.py: `ClientManager`, which registers clients with what they can do. Values of
-- type `Any` are texts.
pub mod Registration
pub mod Suspension
pub mod Capable
mod Tests
unfoldable pub use Registration.*
use mathlib.Core.List.{lookup}
use gauth_py.Base.{
  ℕ, ◌+◌, Bool, true, false, not, ◌&&◌, ◌<>◌, List, [], ◌∷◌, Option, none, some, String,
  String_discrete, ltb, all, keep, elem, length, ite, if◌then◌else◌,
}
use gauth_py.Base.Dict.{insert, contains, keys}
use gauth_py.Core.Exceptions.{Result, ok, raise, value_error}
use gauth_py.Poa.{Client}

pub record ClientManager : Type 0 where
  pub clients : List (String × Client)
  pub registrations : List (String × ClientRegistration)
  pub capabilities : List (String × ClientCapabilities)

abbrev pub init : ClientManager
init = record { clients = []; registrations = []; capabilities = [] }

abbrev no_capabilities : ClientCapabilities
no_capabilities = record {
  technical_capabilities = [];
  business_capabilities = [];
  processing_limits = [];
  security_features = [];
  compliance_certifications = [];
  operational_constraints = [];
}

unfoldable pub create_default_capabilities : Client → ClientCapabilities
create_default_capabilities c =
    ite (String_discrete c.kind "ai_system")
      (record no_capabilities {
        technical_capabilities = analysis ∷ decision_making ∷ data_access ∷ [];
        security_features = "encryption" ∷ "audit_logging" ∷ [];
      })
      (ite (String_discrete c.kind "service")
        (record no_capabilities {
          technical_capabilities = transaction_processing ∷ communication ∷ [];
          security_features = "authentication" ∷ "authorization" ∷ [];
        })
        (ite (String_discrete c.kind "individual")
          (record no_capabilities { technical_capabilities = decision_making ∷ signature ∷ [] })
          no_capabilities))

unfoldable pub new_registration : String → String → ℕ → ClientRegistration
new_registration id registered_by now = record {
  client_id = id;
  registration_date = now;
  registered_by = registered_by;
  verification_status = "pending";
  verification_date = none;
  verification_notes = "";
  compliance_status = "unknown";
  last_audit_date = none;
  certification_expiry = none;
}

unfoldable pub register_client :
    Client → String → Option ClientCapabilities → ℕ → ClientManager → String × ClientManager
unfolding insert new_registration create_default_capabilities
register_client c registered_by caps now m = (
  c.id,
  record {
    clients = insert String_discrete c.id c m.clients;
    registrations =
        insert String_discrete c.id (new_registration c.id registered_by now) m.registrations;
    capabilities =
        insert String_discrete c.id
          (elim caps [ none ↦ create_default_capabilities c | some given ↦ given ]) m.capabilities;
  },
)

unfoldable pub update_client : Client → ClientManager → Result (Unit {0}) × ClientManager
unfolding contains insert
update_client c m =
    if not (contains String_discrete c.id m.clients)
    then (raise (value_error "Client not found"), m)
    else (ok tt, record m { clients = insert String_discrete c.id c m.clients })

-- `if client_id in self._clients: self._clients[client_id].verification_status = status`.
unfoldable pub set_status : String → String → List (String × Client) → List (String × Client)
unfolding lookup insert
set_status id status cs = elim (lookup String_discrete id cs) [
  | none ↦ cs
  | some c ↦ insert String_discrete id (record c { verification_status = status }) cs
]

unfoldable pub verify_client : String → String → ℕ → ClientManager → Bool × ClientManager
unfolding lookup insert set_status
verify_client id notes now m = elim (lookup String_discrete id m.registrations) [
  | none ↦ (false, m)
  | some r ↦
      let marked = record r {
        verification_status = "verified";
        verification_date = some now;
        verification_notes = notes;
      } in
      (
        true,
        record m {
          clients = set_status id "verified" m.clients;
          registrations = insert String_discrete id marked m.registrations;
        },
      )
]

unfoldable pub update_capabilities :
    String → ClientCapabilities → ClientManager → Result (Unit {0}) × ClientManager
unfolding contains insert
update_capabilities id caps m =
    if not (contains String_discrete id m.clients)
    then (raise (value_error "Client not found"), m)
    else (ok tt, record m { capabilities = insert String_discrete id caps m.capabilities })

-- A constraint holds where the context has no value for it or the same one.
unfoldable pub meets_constraints : List (String × String) → List (String × String) → Bool
unfolding lookup
meets_constraints context constraints =
    all
      (λ e. elim (lookup String_discrete e.0 context) [
        | none ↦ true
        | some v ↦ ite (String_discrete v e.1) true false
      ])
      constraints

-- Without a context nothing is constrained, as with an empty one.
unfoldable pub check_capability_authorization :
    String → CapabilityType → List (String × String) → ClientManager → Bool
unfolding lookup is_verified has_capability meets_constraints
check_capability_authorization id required context m = elim (lookup String_discrete id m.clients) [
  | none ↦ false
  | some c ↦ elim (lookup String_discrete id m.registrations) [
    | none ↦ false
    | some r ↦
        if not (is_verified r) then false else elim (lookup String_discrete id m.capabilities) [
          | none ↦ false
          | some caps ↦
              has_capability required caps && meets_constraints context caps.operational_constraints
        ]
  ]
]

unfoldable pub trust_value : TrustLevel → ℕ
trust_value basic = 1
trust_value standard = 2
trust_value high = 3
trust_value critical = 4

unfoldable pub is_capable : List CapabilityType → List String → String → ClientManager → Bool
unfolding lookup is_verified has_capability can_handle_business_function
is_capable required functions id m = elim (lookup String_discrete id m.registrations) [
  | none ↦ false
  | some r ↦
      if not (is_verified r) then false else elim (lookup String_discrete id m.capabilities) [
        | none ↦ false
        | some caps ↦
            all (λ c. has_capability c caps) required
            && all (λ f. can_handle_business_function f caps) functions
      ]
]

-- Whether the client is trusted enough; `none` where its trust level is none of the enumeration.
unfoldable pub trusted : Option TrustLevel → Client → Option Bool
unfolding trust_level_of trust_value
trusted none c = some true
trusted (some minimum) c = elim (trust_level_of c.trust_level) [
  | none ↦ none
  | some level ↦ some (not (ltb (trust_value level) (trust_value minimum)))
]

-- The loop over the clients. It gives the ids of the clients whose status the source reports.
unfoldable pub capable_among :
    List CapabilityType
    → List String
    → Option TrustLevel
    → ClientManager
    → List (String × Client)
    → Result (List String)
unfolding trusted is_capable
capable_among required functions minimum m [] = ok []
capable_among required functions minimum m ((id, c) ∷ cs) =
    let rest = capable_among required functions minimum m cs in
    elim (trusted minimum c) [
      | none ↦ raise (value_error "not a valid TrustLevel")
      | some enough ↦
          if not (enough && is_capable required functions id m)
          then rest
          else elim rest [ raise e ↦ raise e | ok ids ↦ ok (id ∷ ids) ]
    ]

unfoldable pub find_capable_clients :
    List CapabilityType → List String → Option TrustLevel → ClientManager → Result (List String)
unfolding capable_among
find_capable_clients required functions minimum m =
    capable_among required functions minimum m m.clients

unfoldable pub update_trust_level : String → TrustLevel → ClientManager → Bool × ClientManager
unfolding lookup insert trust_level_value
update_trust_level id level m = elim (lookup String_discrete id m.clients) [
  | none ↦ (false, m)
  | some c ↦ (
    true,
    record m {
      clients =
          insert String_discrete id (record c { trust_level = trust_level_value level }) m.clients;
    },
  )
]

unfoldable pub as_suspended : String → String → ClientRegistration → ClientRegistration
as_suspended suspended_by reason r = record r {
  verification_status = "suspended";
  verification_notes = "Suspended by " <> suspended_by <> ": " <> reason;
}

unfoldable pub suspend_client : String → String → String → ClientManager → Bool × ClientManager
unfolding contains lookup insert as_suspended
suspend_client id suspended_by reason m =
    if not (contains String_discrete id m.clients)
    then (false, m)
    else elim (lookup String_discrete id m.registrations) [
      | none ↦ (true, m)
      | some r ↦ (
        true,
        record m {
          registrations =
              insert String_discrete id (as_suspended suspended_by reason r) m.registrations;
        },
      )
    ]

unfoldable pub has_expired : ℕ → String × ClientRegistration → Bool
unfolding is_compliance_current
has_expired now e = not (is_compliance_current e.1 now)

unfoldable pub mark_expired : List String → List (String × Client) → List (String × Client)
unfolding set_status
mark_expired [] cs = cs
mark_expired (id ∷ ids) cs = mark_expired ids (set_status id "expired" cs)

unfoldable pub cleanup_expired_registrations : ℕ → ClientManager → ℕ × ClientManager
unfolding has_expired mark_expired
cleanup_expired_registrations now m =
    let ids = keys (keep (has_expired now) m.registrations) in
    (length ids, record m { clients = mark_expired ids m.clients })
