-- ===== src/Poa.antt =====
-- gauth/poa/types.py: a power of attorney and its parts. Dates are microseconds, amounts of money
-- are counted in their smallest unit, and values of type `Any` are texts. A document has its
-- parties and its authorization.
pub mod Manager
pub mod Revocation
pub mod Limits
pub mod Principals
pub mod Clients
mod Tests
use gauth_py.Base.{ℕ, Bool, true, false, List, Option, none, some, String, ltb, ite, if◌then◌else◌}
use gauth_py.Base.Int.{ℤ}

pub data AuthorizationType : Type 0 where
  sole joint several contingent special general : AuthorizationType

pub data RepresentationType : Type 0 where
  individual jointly joint_and_several : RepresentationType

pub data SignatureType : Type 0 where
  unsigned limited full conditional : SignatureType

pub data GeographicRegion : Type 0 where
  global north_america europe asia_pacific latin_america : GeographicRegion
  middle_east_africa domestic international : GeographicRegion

unfoldable pub GeographicRegion_discrete : Discrete GeographicRegion
GeographicRegion_discrete = hlevel

pub data IndustrySector : Type 0 where
  financial_services healthcare technology manufacturing energy : IndustrySector
  telecommunications transportation retail real_estate legal_services : IndustrySector
  government education non_profit all_sectors : IndustrySector

unfoldable pub IndustrySector_discrete : Discrete IndustrySector
IndustrySector_discrete = hlevel

pub data PoaStatus : Type 0 where
  draft active suspended revoked expired terminated : PoaStatus

unfoldable pub PoaStatus_discrete : Discrete PoaStatus
PoaStatus_discrete = hlevel

pub record SubProxyRules : Type 0 where
  pub max_delegation_depth : ℕ
  pub require_principal_approval : Bool
  pub allowed_delegation_types : List AuthorizationType
  pub prohibited_actions : List String
  pub delegation_period_limit : Option ℕ
  pub notification_required : Bool

pub record Requirements : Type 0 where
  pub minimum_age : Option ℕ
  pub required_certifications : List String
  pub required_licenses : List String
  pub background_check_required : Bool
  pub financial_qualification_required : Bool
  pub insurance_required : Bool
  pub bonding_required : Bool
  pub periodic_review_required : Bool
  pub continuing_education_required : Bool

pub record Restrictions : Type 0 where
  pub monetary_limits : List (String × ℤ)
  pub transaction_frequency_limits : List (String × ℕ)
  pub prohibited_actions : List String
  pub required_approvals : List String
  pub time_restrictions : List (String × String)
  pub geographic_restrictions : List GeographicRegion
  pub sector_restrictions : List IndustrySector

-- The source's fields `type` are `kind` here.
pub record Principal : Type 0 where
  pub id : String
  pub name : String
  pub kind : String
  pub legal_jurisdiction : String
  pub contact_information : List (String × String)
  pub verification_status : String
  pub identity_documents : List String
  pub authorized_representatives : List String

pub record Client : Type 0 where
  pub id : String
  pub name : String
  pub kind : String
  pub capabilities : List String
  pub certifications : List String
  pub verification_status : String
  pub trust_level : String
  pub operational_constraints : List (String × String)

pub record Authorization : Type 0 where
  pub kind : AuthorizationType
  pub representation : RepresentationType
  pub applicable_sectors : List IndustrySector
  pub applicable_regions : List GeographicRegion
  pub transaction_types : List String
  pub decision_types : List String
  pub action_types : List String
  pub delegation_allowed : Bool
  pub signature_authority : SignatureType
  pub restrictions : List String
  pub sub_proxy_rules : Option SubProxyRules

pub record PowerOfAttorney : Type 0 where
  pub id : String
  pub version : String
  pub created_at : ℕ
  pub effective_date : ℕ
  pub expiration_date : Option ℕ
  pub principal : Principal
  pub client : Client
  pub authorization : Authorization
  pub requirements : Requirements
  pub restrictions : Restrictions
  pub status : PoaStatus
  pub jurisdiction : String
  pub governing_law : String
  pub dispute_resolution : String
  pub principal_signature : Option String
  pub client_signature : Option String
  pub witness_signatures : List String
  pub notarization : Option (List (String × String))
  pub created_by : String
  pub last_modified_by : String
  pub last_modified_at : ℕ
  pub revision_history : List (List (String × String))

unfoldable pub is_active : PowerOfAttorney → Bool
unfolding PoaStatus_discrete
is_active p = ite (PoaStatus_discrete p.status active) true false

unfoldable pub is_expired : PowerOfAttorney → ℕ → Bool
is_expired p now = elim p.expiration_date [ none ↦ false | some t ↦ ltb t now ]

unfoldable pub is_valid : PowerOfAttorney → ℕ → Bool
unfolding is_active
is_valid p now =
    if is_active p
    then if ltb now p.effective_date
      then false
      else elim p.expiration_date [ none ↦ true | some t ↦ if ltb t now then false else true ]
    else false
