-- ===== src/Poa/Principals.antt =====
-- gauth/poa/principal.py: `PrincipalManager`, which registers principals and keeps the state of
-- their verification. Trust scores are whole numbers of some unit, document hashes and values of
-- type `Any` are texts, and a verification id is an argument.
pub mod Documents
pub mod Registered
pub mod Eligibility
mod Tests
unfoldable pub use Documents.*
use mathlib.Core.List.{lookup}
use gauth_py.Base.{
  ℕ, zero, ◌+◌, Bool, true, false, not, ◌&&◌, ◌||◌, List, [], ◌∷◌, ◌++◌, Option, none, some, String,
  String_discrete, truthy, ltb, any, all, keep, elem, map, length, ite, if◌then◌else◌,
}
use gauth_py.Base.Int.{ℤ, pos, ltb_ℤ}
use gauth_py.Base.Dict.{insert, remove, remove_all, contains, keys}
use gauth_py.Core.Exceptions.{Result, ok, raise, value_error, other_error}
use gauth_py.Poa.{Principal}

pub record PrincipalManager : Type 0 where
  pub principals : List (String × Principal)
  pub verifications : List (String × PrincipalVerification)

abbrev pub init : PrincipalManager
init = record { principals = []; verifications = [] }

unfoldable pub register_principal : Principal → PrincipalManager → PrincipalManager
unfolding insert
register_principal p m = record m { principals = insert String_discrete p.id p m.principals }

unfoldable pub update_principal :
    Principal → PrincipalManager → Result (Unit {0}) × PrincipalManager
unfolding contains insert
update_principal p m =
    if not (contains String_discrete p.id m.principals)
    then (raise (value_error "Principal not found"), m)
    else (ok tt, record m { principals = insert String_discrete p.id p m.principals })

unfoldable pub delete_principal : String → PrincipalManager → Bool × PrincipalManager
unfolding contains remove
delete_principal id m = if not (contains String_discrete id m.principals) then (false, m) else (
  true,
  record {
    principals = remove String_discrete id m.principals;
    verifications = remove String_discrete id m.verifications;
  },
)

-- A year, in microseconds.
abbrev pub year : ℕ
year = 31_536_000_000_000

unfoldable pub new_verification : String → String → String → ℕ → PrincipalVerification
new_verification id method verification_id now = record {
  principal_id = id;
  identity_verification = record {
    principal_id = id;
    verification_id = verification_id;
    verification_method = method;
    documents = [];
    verification_date = none;
    verified_by = "";
    verification_notes = "";
    trust_score = pos 0;
    risk_assessment = "unknown";
    compliance_checks = [];
  };
  created_at = now;
  updated_at = now;
  expires_at = some (now + year);
}

unfoldable pub initiate_verification :
    String → String → String → ℕ → PrincipalManager → Result String × PrincipalManager
unfolding contains insert new_verification
initiate_verification id method verification_id now m =
    if not (contains String_discrete id m.principals)
    then (raise (value_error "Principal not found"), m)
    else (
      ok verification_id,
      record m {
        verifications =
            insert String_discrete id (new_verification id method verification_id now)
              m.verifications;
      },
    )

unfoldable pub with_document : IdentityDocument → ℕ → PrincipalVerification → PrincipalVerification
with_document d now v = record v {
  identity_verification = record v.identity_verification {
    documents = v.identity_verification.documents ++ d ∷ [];
  };
  updated_at = now;
}

-- The document is new, so it is not verified.
unfoldable pub add_identity_document :
    String → IdentityDocument → ℕ → PrincipalManager → Result (Unit {0}) × PrincipalManager
unfolding lookup insert with_document
add_identity_document id d now m = elim (lookup String_discrete id m.verifications) [
  | none ↦ (raise (value_error "No verification process found"), m)
  | some v ↦
      let fresh = record d {
        verification_status = unverified;
        verification_date = none;
        verification_notes = "";
      } in
      (
        ok tt,
        record m {
          verifications = insert String_discrete id (with_document fresh now v) m.verifications;
        },
      )
]

-- The first document of the id is marked; `none` where there is no such document.
unfoldable pub mark_document :
    String → String → ℕ → List IdentityDocument → Option (List IdentityDocument)
mark_document document_id notes now [] = none
mark_document document_id notes now (d ∷ ds) =
    let rest = mark_document document_id notes now ds in
    let marked = record d {
      verification_status = verified;
      verification_date = some now;
      verification_notes = notes;
    } in
    ite (String_discrete d.document_id document_id) (some (marked ∷ ds))
      (elim rest [ none ↦ none | some ds' ↦ some (d ∷ ds') ])

unfoldable pub with_documents :
    List IdentityDocument → String → ℕ → PrincipalVerification → PrincipalVerification
with_documents ds verified_by now v = record v {
  identity_verification = record v.identity_verification {
    documents = ds;
    verified_by = verified_by;
    verification_date = some now;
  };
  updated_at = now;
}

unfoldable pub verify_document :
    String → String → String → String → ℕ → PrincipalManager → Bool × PrincipalManager
unfolding lookup insert mark_document with_documents
verify_document id document_id verified_by notes now m =
    elim (lookup String_discrete id m.verifications) [
      | none ↦ (false, m)
      | some v ↦ elim (mark_document document_id notes now v.identity_verification.documents) [
        | none ↦ (false, m)
        | some ds ↦ (
          true,
          record m {
            verifications =
                insert String_discrete id (with_documents ds verified_by now v) m.verifications;
          },
        )
      ]
    ]

unfoldable pub completed :
    ℤ → String → List (String × Bool) → ℕ → PrincipalVerification → PrincipalVerification
completed score risk checks now v = record v {
  identity_verification = record v.identity_verification {
    trust_score = score;
    risk_assessment = risk;
    compliance_checks = checks;
  };
  updated_at = now;
}

unfoldable pub with_status : String → Principal → Principal
with_status status p = record p { verification_status = status }

-- `self._principals[principal_id]` raises a KeyError for an unknown principal.
unfoldable pub complete_verification :
    String
    → ℤ
    → String
    → List (String × Bool)
    → ℕ
    → PrincipalManager
    → Result Bool × PrincipalManager
unfolding lookup insert is_verified completed with_status
complete_verification id score risk checks now m =
    elim (lookup String_discrete id m.verifications) [
      | none ↦ (ok false, m)
      | some v ↦
          let noted = record m {
            verifications =
                insert String_discrete id (completed score risk checks now v) m.verifications;
          } in
          if not (any is_verified v.identity_verification.documents)
          then (ok false, m)
          else elim (lookup String_discrete id m.principals) [
            | none ↦ (raise (other_error "KeyError"), noted)
            | some p ↦ (
              ok true,
              record noted {
                principals = insert String_discrete id (with_status "verified" p) m.principals;
              },
            )
          ]
    ]

unfoldable pub has_expired : ℕ → String × PrincipalVerification → Bool
unfolding is_past
has_expired now e = is_past e.1.expires_at now

-- `if principal_id in self._principals: ... = "expired"`, for each id.
unfoldable pub mark_expired : List String → List (String × Principal) → List (String × Principal)
unfolding lookup insert with_status
mark_expired [] ps = ps
mark_expired (id ∷ ids) ps = elim (lookup String_discrete id ps) [
  | none ↦ mark_expired ids ps
  | some p ↦ mark_expired ids (insert String_discrete id (with_status "expired" p) ps)
]

unfoldable pub cleanup_expired_verifications : ℕ → PrincipalManager → ℕ × PrincipalManager
unfolding has_expired mark_expired remove_all
cleanup_expired_verifications now m =
    let ids = keys (keep (has_expired now) m.verifications) in
    (
      length ids,
      record {
        principals = mark_expired ids m.principals;
        verifications = remove_all String_discrete ids m.verifications;
      },
    )

-- What a principal can be asked to meet; a score of 0 and an empty list ask for nothing.
pub record Needs : Type 0 where
  pub minimum_trust_score : ℤ
  pub required_document_types : List String

unfoldable pub meets_score : ℤ → PrincipalVerification → Bool
meets_score (pos zero) v = true
meets_score minimum v = not (ltb_ℤ v.identity_verification.trust_score minimum)

-- `required_types.issubset(provided_types)`.
unfoldable pub meets_documents : List String → PrincipalVerification → Bool
unfolding is_verified type_value
meets_documents required v =
    all
      (λ t.
        elem String_discrete t
          (map (λ d. type_value d.kind) (keep is_verified v.identity_verification.documents)))
      required

-- The field `eligible` of the answer.
unfoldable pub validate_principal_eligibility : String → Option Needs → ℕ → PrincipalManager → Bool
unfolding lookup is_valid meets_score meets_documents
validate_principal_eligibility id needs now m = elim (lookup String_discrete id m.principals) [
  | none ↦ false
  | some p ↦ elim (lookup String_discrete id m.verifications) [
    | none ↦ false
    | some v ↦ if not (is_valid v now) then false else elim needs [
      | none ↦ true
      | some n ↦ meets_score n.minimum_trust_score v && meets_documents n.required_document_types v
    ]
  ]
]
