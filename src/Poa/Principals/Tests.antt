-- ===== src/Poa/Principals/Tests.antt =====
-- Runs of the manager of principals, and the theorems at concrete inputs.
use gauth_py.Base.{
  ℕ, ◌≡◌, refl, Bool, true, false, List, [], ◌∷◌, Option, none, some, String_discrete,
}
use gauth_py.Base.Int.{pos}
use gauth_py.Base.Dict.{IsDict}
use gauth_py.Core.Exceptions.{ok}
use gauth_py.Poa.{Principal}
use gauth_py.Poa.Principals.{
  IdentityDocument, passport, unverified, Needs, init, complete_verification,
  validate_principal_eligibility,
}
use gauth_py.Poa.Principals.Registered.{
  Call, registers, initiates, adds, verifies, completes, serve_all, complete_verification-serve_all,
}

abbrev acme : Principal
acme = record {
  id = "acme";
  name = "Acme";
  kind = "corporation";
  legal_jurisdiction = "DE";
  contact_information = [];
  verification_status = "unverified";
  identity_documents = [];
  authorized_representatives = [];
}

abbrev pass : IdentityDocument
pass = record {
  kind = passport;
  document_id = "p1";
  issuing_authority = "DE";
  issue_date = 0;
  expiration_date = some 1_000;
  verification_status = unverified;
  verification_date = none;
  verification_notes = "";
  document_hash = none;
}

abbrev calls : List (Call × ℕ)
calls =
    (registers acme, 1)
    ∷ (initiates "acme" "manual" "v1", 2)
    ∷ (adds "acme" pass, 3)
    ∷ (verifies "acme" "p1" "bob" "", 4)
    ∷ (completes "acme" (pos 80) "low" [], 5)
    ∷ []

abbrev needs : Option Needs
needs = some (record { minimum_trust_score = pos 50; required_document_types = "passport" ∷ [] })

eligible : validate_principal_eligibility "acme" needs 500 (serve_all calls init) ≡ true
unfolding validate_principal_eligibility serve_all String_discrete
eligible = refl

document_expired : validate_principal_eligibility "acme" needs 1_001 (serve_all calls init) ≡ false
unfolding validate_principal_eligibility serve_all String_discrete
document_expired = refl

complete_verification-serve_all_example :
    (b : Bool) × ((complete_verification "acme" (pos 90) "low" [] 6 (serve_all calls init)).0
      ≡ ok b)
complete_verification-serve_all_example =
    complete_verification-serve_all calls "acme" (pos 90) "low" [] 6

verifications-IsDict : IsDict String_discrete (serve_all calls init).verifications
unfolding serve_all String_discrete
verifications-IsDict = (refl, tt)
