-- ===== src/Poa/Revocation.antt =====
-- gauth/poa/authorization.py: what revocation and the cleanup do to the checks.
use mathlib.Core.List.{lookup}
use gauth_py.Base.{
  ℕ, ◌≤◌, ◌≡◌, refl, ◌∙◌, sym, true, false, List, [], ◌∷◌, none, some, inl, inr, String,
  String_discrete, Bool-cases, Option-cases, arith, All,
}
use gauth_py.Base.Dict.{lookup-insert, lookup-insert_same, lookup-insert_other}
use gauth_py.Poa.{PowerOfAttorney, PoaStatus_discrete, is_active, is_valid, is_expired}
use gauth_py.Poa.Manager.{
  AuthorizationManager, Registry, register_poa, revoke_poa, mark_revoked, find_valid, Question,
  check_authorization, mark_expired, mark_all, cleanup_expired_poas, Call, register, revoke,
  cleanup, serve, serve_all,
}

lookup-mark_all :
    (now : ℕ) (m : Registry) (poa_id : String)
    → lookup String_discrete poa_id (mark_all now m)
      ≡ elim (lookup String_discrete poa_id m) [ none ↦ none | some p ↦ some (mark_expired now p) ]
unfolding mark_all lookup
lookup-mark_all now [] poa_id = refl
lookup-mark_all now ((j, p) ∷ m) poa_id = elim (String_discrete poa_id j) [
  | yes e ↦ ground arith
  | no n ↦ ground (arith, lookup-mark_all now m poa_id)
]

mark_revoked-inactive : (p : PowerOfAttorney) → is_active (mark_revoked p) ≡ false
unfolding is_active mark_revoked PoaStatus_discrete
mark_revoked-inactive p = refl

mark_expired-inactive :
    (now : ℕ) (p : PowerOfAttorney) → is_active p ≡ false → is_active (mark_expired now p) ≡ false
unfolding is_active mark_expired PoaStatus_discrete
mark_expired-inactive now p h = elim (Bool-cases (is_expired p now)) [
  | inl t ↦ rw t refl
  | inr f ↦ rw f h
]

inactive-not_valid : (now : ℕ) (p : PowerOfAttorney) → is_active p ≡ false → is_valid p now ≡ false
unfolding is_valid
inactive-not_valid now p h = ground arith

-- The document of the id is registered and not active.
abbrev IsInactive : String → AuthorizationManager → Type 0
IsInactive poa_id m =
    (p : PowerOfAttorney) × ((lookup String_discrete poa_id m.poa_registry ≡ some p)
      × (is_active p ≡ false))

-- The call does not register a document under the id.
abbrev pub Spares : String → Call × ℕ → Type 0
Spares poa_id (register p, now) = ¬ (p.id ≡ poa_id)
Spares poa_id (revoke j, now) = Unit
Spares poa_id (cleanup, now) = Unit

register-IsInactive :
    (poa_id : String) (p : PowerOfAttorney) (now : ℕ) (m : AuthorizationManager)
    → ¬ (p.id ≡ poa_id)
    → IsInactive poa_id m
    → IsInactive poa_id (register_poa p now m).1
unfolding register_poa
register-IsInactive poa_id p now m n (q, (e, h)) = elim (Bool-cases (is_valid p now)) [
  | inl t ↦
      rw (register_poa, t)
        (
          q,
          (
            lookup-insert_other String_discrete p.id poa_id p m.poa_registry (λ x. n (sym x)) ∙ e,
            h,
          ),
        )
  | inr f ↦ rw (register_poa, f) (q, (e, h))
]

revoke-IsInactive :
    (poa_id j : String) (m : AuthorizationManager)
    → IsInactive poa_id m
    → IsInactive poa_id (revoke_poa j m).1
unfolding revoke_poa
revoke-IsInactive poa_id j m (q, (e, h)) =
    elim (Option-cases (lookup String_discrete j m.poa_registry)) [
      | inl absent ↦ rw (revoke_poa, absent) (q, (e, h))
      | inr (p, x) ↦
          rw (revoke_poa, x)
            (elim (String_discrete poa_id j) [
              | yes same ↦ (
                mark_revoked p,
                (
                  lookup-insert String_discrete j poa_id (mark_revoked p) m.poa_registry
                      ∙ ground arith,
                  mark_revoked-inactive p,
                ),
              )
              | no other ↦ (
                q,
                (
                  lookup-insert_other String_discrete j poa_id (mark_revoked p) m.poa_registry other
                      ∙ e,
                  h,
                ),
              )
            ])
    ]

cleanup-IsInactive :
    (poa_id : String) (now : ℕ) (m : AuthorizationManager)
    → IsInactive poa_id m
    → IsInactive poa_id (cleanup_expired_poas now m).1
unfolding cleanup_expired_poas
cleanup-IsInactive poa_id now m (q, (e, h)) = (
  mark_expired now q,
  (ground (arith, lookup-mark_all now m.poa_registry poa_id), mark_expired-inactive now q h),
)

serve_all-IsInactive :
    (poa_id : String) (calls : List (Call × ℕ)) (m : AuthorizationManager)
    → All (Spares poa_id) calls
    → IsInactive poa_id m
    → IsInactive poa_id (serve_all calls m)
unfolding serve_all serve
serve_all-IsInactive poa_id [] m s h = h
serve_all-IsInactive poa_id ((register p, now) ∷ calls) m s h =
    serve_all-IsInactive poa_id calls (register_poa p now m).1 s.1
      (register-IsInactive poa_id p now m s.0 h)
serve_all-IsInactive poa_id ((revoke j, now) ∷ calls) m s h =
    serve_all-IsInactive poa_id calls (revoke_poa j m).1 s.1 (revoke-IsInactive poa_id j m h)
serve_all-IsInactive poa_id ((cleanup, now) ∷ calls) m s h =
    serve_all-IsInactive poa_id calls (cleanup_expired_poas now m).1 s.1
      (cleanup-IsInactive poa_id now m h)

check-inactive :
    (q : Question) (poa_id : String) (now : ℕ) (m : AuthorizationManager)
    → IsInactive poa_id m
    → check_authorization q poa_id now m ≡ false
unfolding check_authorization find_valid
check-inactive q poa_id now m (p, (e, h)) = ground (arith, inactive-not_valid now p h)

revoked-IsInactive :
    (poa_id : String) (m : AuthorizationManager)
    → (revoke_poa poa_id m).0 ≡ true
    → IsInactive poa_id (revoke_poa poa_id m).1
unfolding revoke_poa
revoked-IsInactive poa_id m h = elim (Option-cases (lookup String_discrete poa_id m.poa_registry)) [
  | inl absent ↦ absurd (ground arith)
  | inr (p, x) ↦
      rw (revoke_poa, x)
        (
          mark_revoked p,
          (
            lookup-insert_same String_discrete poa_id (mark_revoked p) m.poa_registry,
            mark_revoked-inactive p,
          ),
        )
]

-- Once a document was revoked it authorizes nothing, whatever calls follow and at any time,
-- until a document is registered under its id.
pub revoke_poa-final :
    (poa_id : String) (m : AuthorizationManager) (calls : List (Call × ℕ)) (q : Question) (now : ℕ)
    → (revoke_poa poa_id m).0 ≡ true
    → All (Spares poa_id) calls
    → check_authorization q poa_id now (serve_all calls (revoke_poa poa_id m).1) ≡ false
revoke_poa-final poa_id m calls q now h s =
    check-inactive q poa_id now (serve_all calls (revoke_poa poa_id m).1)
      (serve_all-IsInactive poa_id calls (revoke_poa poa_id m).1 s (revoked-IsInactive poa_id m h))

expired-not_valid :
    (now later : ℕ) (p : PowerOfAttorney)
    → is_expired p now ≡ true
    → now ≤ later
    → is_valid p later ≡ false
unfolding is_valid is_expired
expired-not_valid now later p e h = ground arith

marked-inactive :
    (now : ℕ) (p : PowerOfAttorney)
    → is_expired p now ≡ true
    → is_active (mark_expired now p) ≡ false
unfolding is_active mark_expired PoaStatus_discrete
marked-inactive now p h = rw h refl

live-unmarked : (now : ℕ) (p : PowerOfAttorney) → is_expired p now ≡ false → mark_expired now p ≡ p
unfolding mark_expired
live-unmarked now p h = rw h refl

find_valid-cleanup :
    (poa_id : String) (now later : ℕ) (m : AuthorizationManager)
    → now ≤ later
    → find_valid poa_id later (cleanup_expired_poas now m).1 ≡ find_valid poa_id later m
unfolding find_valid cleanup_expired_poas
find_valid-cleanup poa_id now later m h =
    elim (Option-cases (lookup String_discrete poa_id m.poa_registry)) [
      | inl absent ↦ ground (arith, lookup-mark_all now m.poa_registry poa_id)
      | inr (p, x) ↦
          let marked = lookup-mark_all now m.poa_registry poa_id in
          elim (Bool-cases (is_expired p now)) [
            | inl gone ↦
                let was_active = expired-not_valid now later p gone h in
                let unmarked =
                  inactive-not_valid later (mark_expired now p) (marked-inactive now p gone) in
                ground arith
            | inr live ↦ let same = live-unmarked now p live in ground arith
          ]
    ]

-- The cleanup changes no answer that is asked for at its time or later.
pub check_authorization-cleanup :
    (q : Question) (poa_id : String) (now later : ℕ) (m : AuthorizationManager)
    → now ≤ later
    → check_authorization q poa_id later (cleanup_expired_poas now m).1
      ≡ check_authorization q poa_id later m
unfolding check_authorization
check_authorization-cleanup q poa_id now later m h =
    rw (check_authorization, find_valid-cleanup poa_id now later m h) refl
