-- ===== src/Poa/Clients/Registration.antt =====
-- gauth/poa/client.py: levels of trust, capabilities and registrations.
use mathlib.Core.List.{lookup}
use gauth_py.Base.{
  ℕ, Bool, true, false, List, [], ◌∷◌, Option, none, some, String, String_discrete, ltb, elem, ite,
}

pub data TrustLevel : Type 0 where
  basic standard high critical : TrustLevel

-- The values of the enumeration.
unfoldable pub trust_level_value : TrustLevel → String
trust_level_value basic = "basic"
trust_level_value standard = "standard"
trust_level_value high = "high"
trust_level_value critical = "critical"

-- `TrustLevel(text)`, which raises for any other text.
unfoldable pub trust_level_of : String → Option TrustLevel
unfolding lookup
trust_level_of s =
    lookup String_discrete s
      (("basic", basic) ∷ ("standard", standard) ∷ ("high", high) ∷ ("critical", critical) ∷ [])

pub data CapabilityType : Type 0 where
  trading analysis reporting document_processing decision_making : CapabilityType
  communication data_access transaction_processing signature delegation : CapabilityType

unfoldable pub CapabilityType_discrete : Discrete CapabilityType
CapabilityType_discrete = hlevel

pub record ClientCapabilities : Type 0 where
  pub technical_capabilities : List CapabilityType
  pub business_capabilities : List String
  pub processing_limits : List (String × String)
  pub security_features : List String
  pub compliance_certifications : List String
  pub operational_constraints : List (String × String)

unfoldable pub has_capability : CapabilityType → ClientCapabilities → Bool
has_capability c caps = elem CapabilityType_discrete c caps.technical_capabilities

unfoldable pub can_handle_business_function : String → ClientCapabilities → Bool
can_handle_business_function f caps = elem String_discrete f caps.business_capabilities

pub record ClientRegistration : Type 0 where
  pub client_id : String
  pub registration_date : ℕ
  pub registered_by : String
  pub verification_status : String
  pub verification_date : Option ℕ
  pub verification_notes : String
  pub compliance_status : String
  pub last_audit_date : Option ℕ
  pub certification_expiry : Option ℕ

unfoldable pub is_verified : ClientRegistration → Bool
is_verified r = ite (String_discrete r.verification_status "verified") true false

unfoldable pub is_compliance_current : ClientRegistration → ℕ → Bool
is_compliance_current r now = elim r.certification_expiry [ none ↦ true | some t ↦ ltb now t ]
