-- ===== src/Poa/Principals/Eligibility.antt =====
-- gauth/poa/principal.py: the cleanup of verifications and `validate_principal_eligibility`.
use mathlib.Core.List.{lookup}
use gauth_py.Base.{
  ℕ, ◌≤◌, ◌≡◌, refl, Bool, true, false, not, List, [], ◌∷◌, Option, none, some, String,
  String_discrete, keep, elem, inl, inr, if◌then◌else◌, Bool-cases, Option-cases, arith,
}
use gauth_py.Base.Dict.{contains, keys, IsDict, lookup-remove_all}
use gauth_py.Poa.Principals.{
  PrincipalManager, PrincipalVerification, Needs, is_past, is_valid, has_expired,
  cleanup_expired_verifications, validate_principal_eligibility, meets_score, meets_documents,
}
use gauth_py.Poa.Principals.Registered.{knows, knows-mark_expired}

-- With distinct keys, a key is among those of the filtered entries if its own entry passes.
elem-keys-keep :
    {V : Type 0} (p : String × V → Bool) (k : String) (m : List (String × V))
    → IsDict String_discrete m
    → elem String_discrete k (keys (keep p m))
      ≡ elim (lookup String_discrete k m) [ none ↦ false | some v ↦ p (k, v) ]
unfolding lookup
elem-keys-keep p k [] d = refl
elem-keys-keep p k ((j, v) ∷ m) d = elim (String_discrete k j) [
  | yes e ↦
      let gone : lookup String_discrete k m ≡ none = rw e d.0 in
      let ih = elem-keys-keep p k m d.1 in ground arith
  | no n ↦ let ih = elem-keys-keep p k m d.1 in ground arith
]

-- What the check of eligibility makes of the verification.
abbrev judged : Option Needs → ℕ → Option PrincipalVerification → Bool
judged needs now none = false
judged needs now (some v) = if not (is_valid v now) then false else elim needs [
  | none ↦ true
  | some n ↦
      if meets_score n.minimum_trust_score v
      then meets_documents n.required_document_types v
      else false
]

validate-judged :
    (id : String) (needs : Option Needs) (now : ℕ) (m : PrincipalManager)
    → validate_principal_eligibility id needs now m ≡ (
        if knows id m.principals
        then judged needs now (lookup String_discrete id m.verifications)
        else false)
unfolding validate_principal_eligibility contains
validate-judged id needs now m = elim (Option-cases (lookup String_discrete id m.principals)) [
  | inl e ↦ ground (arith, e)
  | inr (p, e) ↦ elim (Option-cases (lookup String_discrete id m.verifications)) [
    | inl x ↦ ground (arith, e, x)
    | inr (v, x) ↦ ground (arith, e, x)
  ]
]

expired-judged :
    (needs : Option Needs) (now later : ℕ) (id : String) (v : PrincipalVerification)
    → now ≤ later
    → has_expired now (id, v) ≡ true
    → judged needs later (some v) ≡ false
unfolding has_expired is_valid is_past
expired-judged needs now later id v l h = ground arith

-- The cleanup changes no answer about eligibility that is asked for at its time or later.
pub validate_principal_eligibility-cleanup :
    (id : String) (needs : Option Needs) (now later : ℕ) (m : PrincipalManager)
    → IsDict String_discrete m.verifications
    → now ≤ later
    → validate_principal_eligibility id needs later (cleanup_expired_verifications now m).1
      ≡ validate_principal_eligibility id needs later m
unfolding cleanup_expired_verifications
validate_principal_eligibility-cleanup id needs now later m d l =
    let ids = keys (keep (has_expired now) m.verifications) in
    let chosen = elem-keys-keep (has_expired now) id m.verifications d in
    let left = lookup-remove_all String_discrete ids id m.verifications in
    let known = knows-mark_expired ids id m.principals in
    let before = validate-judged id needs later m in
    let after = validate-judged id needs later (cleanup_expired_verifications now m).1 in
    elim (Option-cases (lookup String_discrete id m.verifications)) [
      | inl e ↦ ground arith
      | inr (v, e) ↦ elim (Bool-cases (has_expired now (id, v))) [
        | inl gone ↦ let judged_false = expired-judged needs now later id v l gone in ground arith
        | inr live ↦ ground arith
      ]
    ]
