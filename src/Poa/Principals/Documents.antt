-- ===== src/Poa/Principals/Documents.antt =====
-- gauth/poa/principal.py: identity documents and the records of a verification.
use gauth_py.Base.{
  ℕ, Bool, true, false, not, List, Option, none, some, String, ltb, any, if◌then◌else◌,
}
use gauth_py.Base.Int.{ℤ}

pub data VerificationStatus : Type 0 where
  unverified pending verified rejected expired : VerificationStatus

pub data IdentityDocumentType : Type 0 where
  passport drivers_license national_id birth_certificate ssn_card : IdentityDocumentType
  corporate_registration articles_of_incorporation partnership_agreement : IdentityDocumentType

-- The values of the enumeration.
unfoldable pub type_value : IdentityDocumentType → String
type_value passport = "passport"
type_value drivers_license = "drivers_license"
type_value national_id = "national_id"
type_value birth_certificate = "birth_certificate"
type_value ssn_card = "ssn_card"
type_value corporate_registration = "corporate_registration"
type_value articles_of_incorporation = "articles_of_incorporation"
type_value partnership_agreement = "partnership_agreement"

-- The source's field `type` is `kind` here.
pub record IdentityDocument : Type 0 where
  pub kind : IdentityDocumentType
  pub document_id : String
  pub issuing_authority : String
  pub issue_date : ℕ
  pub expiration_date : Option ℕ
  pub verification_status : VerificationStatus
  pub verification_date : Option ℕ
  pub verification_notes : String
  pub document_hash : Option String

-- `t is given and now > t`.
unfoldable pub is_past : Option ℕ → ℕ → Bool
is_past none now = false
is_past (some t) now = ltb t now

unfoldable pub is_expired : IdentityDocument → ℕ → Bool
unfolding is_past
is_expired d now = is_past d.expiration_date now

unfoldable pub is_verified : IdentityDocument → Bool
is_verified d = elim d.verification_status [ verified ↦ true | _ ↦ false ]

pub record IdentityVerification : Type 0 where
  pub principal_id : String
  pub verification_id : String
  pub verification_method : String
  pub documents : List IdentityDocument
  pub verification_date : Option ℕ
  pub verified_by : String
  pub verification_notes : String
  pub trust_score : ℤ
  pub risk_assessment : String
  pub compliance_checks : List (String × Bool)

unfoldable pub overall_status : IdentityVerification → ℕ → VerificationStatus
unfolding is_verified is_expired
overall_status v now =
    if not (any is_verified v.documents)
    then unverified
    else if any (λ d. is_expired d now) v.documents
    then expired
    else verified

-- The fields that no code sets (the background check, the financial verification and the legal
-- standing) are left out.
pub record PrincipalVerification : Type 0 where
  pub principal_id : String
  pub identity_verification : IdentityVerification
  pub created_at : ℕ
  pub updated_at : ℕ
  pub expires_at : Option ℕ

unfoldable pub is_valid : PrincipalVerification → ℕ → Bool
unfolding is_past overall_status
is_valid v now =
    if is_past v.expires_at now
    then false
    else elim (overall_status v.identity_verification now) [ verified ↦ true | _ ↦ false ]
