-- ===== src/Poa/Tests.antt =====
-- Runs of the checks of powers of attorney, and the theorems at concrete inputs.
use gauth_py.Poa.{GeographicRegion_discrete}
use gauth_py.Base.{String_discrete}
use gauth_py.Base.{ℕ, ◌≡◌, refl, true, false, [], ◌∷◌, none, some, String}
use gauth_py.Base.Int.{pos}
use gauth_py.Poa.{PowerOfAttorney, special, individual, unsigned, active, europe, asia_pacific}
use gauth_py.Poa.Manager.{
  AuthorizationManager, init, Question, transaction, action, check_authorization, register, cleanup,
  serve_all, revoke_poa,
}
use gauth_py.Poa.Revocation.{revoke_poa-final}

abbrev document : String → PowerOfAttorney
document id = record {
  id = id;
  version = "1.0";
  created_at = 0;
  effective_date = 10;
  expiration_date = some 100;
  principal = record {
    id = "acme";
    name = "Acme";
    kind = "corporation";
    legal_jurisdiction = "DE";
    contact_information = [];
    verification_status = "verified";
    identity_documents = [];
    authorized_representatives = [];
  };
  client = record {
    id = "bot";
    name = "Bot";
    kind = "ai_system";
    capabilities = [];
    certifications = [];
    verification_status = "verified";
    trust_level = "basic";
    operational_constraints = [];
  };
  authorization = record {
    kind = special;
    representation = individual;
    applicable_sectors = [];
    applicable_regions = europe ∷ [];
    transaction_types = "purchase" ∷ [];
    decision_types = "hire" ∷ [];
    action_types = "sign" ∷ "ship" ∷ [];
    delegation_allowed = false;
    signature_authority = unsigned;
    restrictions = [];
    sub_proxy_rules = none;
  };
  requirements = record {
    minimum_age = none;
    required_certifications = [];
    required_licenses = [];
    background_check_required = false;
    financial_qualification_required = false;
    insurance_required = false;
    bonding_required = false;
    periodic_review_required = false;
    continuing_education_required = false;
  };
  restrictions = record {
    monetary_limits = ("purchase", pos 500) ∷ [];
    transaction_frequency_limits = [];
    prohibited_actions = "ship" ∷ [];
    required_approvals = [];
    time_restrictions = [];
    geographic_restrictions = [];
    sector_restrictions = [];
  };
  status = active;
  jurisdiction = "";
  governing_law = "";
  dispute_resolution = "arbitration";
  principal_signature = none;
  client_signature = none;
  witness_signatures = [];
  notarization = none;
  created_by = "";
  last_modified_by = "";
  last_modified_at = 0;
  revision_history = [];
}

abbrev office : AuthorizationManager
office = serve_all ((register (document "one"), 20) ∷ (register (document "two"), 20) ∷ []) init

abbrev purchase : ℕ → Question
purchase n = transaction "purchase" (some (pos n)) (some europe) none

within_limit : check_authorization (purchase 500) "one" 30 office ≡ true
unfolding check_authorization serve_all String_discrete GeographicRegion_discrete
within_limit = refl

over_the_limit : check_authorization (purchase 501) "one" 30 office ≡ false
unfolding check_authorization serve_all String_discrete GeographicRegion_discrete
over_the_limit = refl

elsewhere :
    check_authorization (transaction "purchase" none (some asia_pacific) none) "one" 30 office
    ≡ false
unfolding check_authorization serve_all String_discrete GeographicRegion_discrete
elsewhere = refl

prohibited : check_authorization (action "ship") "one" 30 office ≡ false
unfolding check_authorization serve_all String_discrete
prohibited = refl

too_late : check_authorization (action "sign") "one" 101 office ≡ false
unfolding check_authorization serve_all String_discrete
too_late = refl

revocable : (revoke_poa "one" office).0 ≡ true
unfolding revoke_poa serve_all String_discrete
revocable = refl

other_document : ¬ ((document "three").id ≡ "one")
other_document e = cc e

revoke_poa-final_example :
    check_authorization (action "sign") "one" 30 (
      serve_all
        ((register (document "three"), 25) ∷ (cleanup, 26) ∷ [])
        (revoke_poa "one" office).1)
    ≡ false
revoke_poa-final_example =
    revoke_poa-final "one" office ((register (document "three"), 25) ∷ (cleanup, 26) ∷ [])
      (action "sign") 30 revocable (other_document, (tt, tt))
