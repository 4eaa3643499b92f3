-- ===== src/Poa/Principals/Registered.antt =====
-- gauth/poa/principal.py: each verification belongs to a registered principal.
use mathlib.Core.List.{lookup}
use gauth_py.Base.{
  ℕ, ◌≡◌, refl, ◌∙◌, Bool, true, false, List, [], ◌∷◌, some, String, String_discrete, any, keep,
  elem, inl, inr, ite, if◌then◌else◌, Bool-cases, Option-cases, arith,
}
use gauth_py.Base.Int.{ℤ}
use gauth_py.Base.Dict.{
  insert, remove, remove_all, contains, keys, lookup-insert, lookup-remove, lookup-remove_all,
}
use gauth_py.Core.Exceptions.{ok}
use gauth_py.Poa.{Principal}
use gauth_py.Poa.Principals.{
  PrincipalManager, PrincipalVerification, IdentityDocument, init, register_principal,
  update_principal, delete_principal, initiate_verification, new_verification,
  add_identity_document, mark_document, verify_document, completed, with_status,
  complete_verification, is_verified, has_expired, mark_expired, cleanup_expired_verifications,
}

abbrev pub knows : {V : Type 0} → String → List (String × V) → Bool
knows id m = contains String_discrete id m

knows-insert :
    {V : Type 0} (k j : String) (v : V) (m : List (String × V))
    → knows j (insert String_discrete k v m) ≡ ite (String_discrete j k) true (knows j m)
unfolding contains
knows-insert k j v m = elim (String_discrete j k) [
  | yes p ↦ ground (arith, lookup-insert String_discrete k j v m)
  | no n ↦ ground (arith, lookup-insert String_discrete k j v m)
]

knows-remove :
    {V : Type 0} (k j : String) (m : List (String × V))
    → knows j (remove String_discrete k m) ≡ ite (String_discrete j k) false (knows j m)
unfolding contains
knows-remove k j m = elim (String_discrete j k) [
  | yes p ↦ ground (arith, lookup-remove String_discrete k j m)
  | no n ↦ ground (arith, lookup-remove String_discrete k j m)
]

pub knows-remove_all :
    {V : Type 0} (ks : List String) (j : String) (m : List (String × V))
    → knows j (remove_all String_discrete ks m)
      ≡ (if elem String_discrete j ks then false else knows j m)
unfolding contains
knows-remove_all ks j m = elim (Bool-cases (elem String_discrete j ks)) [
  | inl t ↦ ground (arith, lookup-remove_all String_discrete ks j m)
  | inr f ↦ ground (arith, lookup-remove_all String_discrete ks j m)
]

-- To write an entry anew changes no key.
knows-rewrite :
    {V : Type 0} (k j : String) (v w : V) (m : List (String × V))
    → lookup String_discrete k m ≡ some v
    → knows j (insert String_discrete k w m) ≡ knows j m
unfolding contains
knows-rewrite k j v w m e = elim (String_discrete j k) [
  | yes p ↦ ground (arith, lookup-insert String_discrete k j w m)
  | no n ↦ ground (arith, lookup-insert String_discrete k j w m)
]

pub knows-mark_expired :
    (ids : List String) (j : String) (ps : List (String × Principal))
    → knows j (mark_expired ids ps) ≡ knows j ps
unfolding mark_expired
knows-mark_expired [] j ps = refl
knows-mark_expired (id ∷ ids) j ps = elim (Option-cases (lookup String_discrete id ps)) [
  | inl e ↦ rw (mark_expired, e) (knows-mark_expired ids j ps)
  | inr (p, e) ↦
      rw (mark_expired, e)
        (knows-mark_expired ids j (insert String_discrete id (with_status "expired" p) ps)
          ∙ knows-rewrite id j p (with_status "expired" p) ps e)
]

-- A principal that is under verification is registered.
abbrev pub IsOwned : PrincipalManager → Type 0
IsOwned m =
    (id : String) → (if knows id m.verifications then knows id m.principals else true) ≡ true

-- The verifications keep their keys or lose some, and the principals keep theirs or gain some.
IsOwned-step :
    (m m' : PrincipalManager)
    → ((id : String)
        → (if knows id m'.verifications then knows id m.verifications else true) ≡ true)
    → ((id : String) → (if knows id m.principals then knows id m'.principals else true) ≡ true)
    → IsOwned m
    → IsOwned m'
IsOwned-step m m' f g h id = ground (arith, f id, g id, h id)

kept : (b : Bool) → (if b then b else true) ≡ true
kept true = refl
kept false = refl

same_keys : (a b : Bool) → a ≡ b → (if a then b else true) ≡ true
same_keys a b e = ground arith

pub data Call : Type 0 where
  registers updates : Principal → Call
  deletes : String → Call
  initiates : String → String → String → Call
  adds : String → IdentityDocument → Call
  verifies : String → String → String → String → Call
  completes : String → ℤ → String → List (String × Bool) → Call
  cleans : Call

unfoldable pub serve : Call → ℕ → PrincipalManager → PrincipalManager
unfolding register_principal update_principal delete_principal initiate_verification
    add_identity_document verify_document complete_verification cleanup_expired_verifications
serve (registers p) now m = register_principal p m
serve (updates p) now m = (update_principal p m).1
serve (deletes id) now m = (delete_principal id m).1
serve (initiates id method verification_id) now m =
    (initiate_verification id method verification_id now m).1
serve (adds id d) now m = (add_identity_document id d now m).1
serve (verifies id document_id verified_by notes) now m =
    (verify_document id document_id verified_by notes now m).1
serve (completes id score risk checks) now m = (complete_verification id score risk checks now m).1
serve cleans now m = (cleanup_expired_verifications now m).1

unfoldable pub serve_all : List (Call × ℕ) → PrincipalManager → PrincipalManager
unfolding serve
serve_all [] m = m
serve_all ((call, now) ∷ calls) m = serve_all calls (serve call now m)

-- A verification that is there is written anew.
rewrite-IsOwned :
    (id : String) (v w : PrincipalVerification) (m : PrincipalManager)
    → lookup String_discrete id m.verifications ≡ some v
    → IsOwned m
    → IsOwned (record m { verifications = insert String_discrete id w m.verifications })
rewrite-IsOwned id v w m e h =
    IsOwned-step m (record m { verifications = insert String_discrete id w m.verifications })
      (λ j. same_keys _ _ (knows-rewrite id j v w m.verifications e))
      (λ j. kept (knows j m.principals)) h

principals-IsOwned :
    (id : String) (p : Principal) (m : PrincipalManager)
    → IsOwned m
    → IsOwned (record m { principals = insert String_discrete id p m.principals })
principals-IsOwned id p m h =
    IsOwned-step m (record m { principals = insert String_discrete id p m.principals })
      (λ j. kept (knows j m.verifications))
      (λ j.
        let after = knows-insert id j p m.principals in
        elim (String_discrete j id) [ yes e ↦ ground arith | no n ↦ ground arith ])
      h

register_principal-IsOwned :
    (p : Principal) (m : PrincipalManager) → IsOwned m → IsOwned (register_principal p m)
unfolding register_principal
register_principal-IsOwned p m h = principals-IsOwned p.id p m h

update_principal-IsOwned :
    (p : Principal) (m : PrincipalManager) → IsOwned m → IsOwned (update_principal p m).1
unfolding update_principal
update_principal-IsOwned p m h = elim (Bool-cases (knows p.id m.principals)) [
  | inl t ↦ rw (update_principal, t) (principals-IsOwned p.id p m h)
  | inr f ↦ rw (update_principal, f) h
]

delete_principal-IsOwned :
    (id : String) (m : PrincipalManager) → IsOwned m → IsOwned (delete_principal id m).1
unfolding delete_principal
delete_principal-IsOwned id m h = elim (Bool-cases (knows id m.principals)) [
  | inr f ↦ rw (delete_principal, f) h
  | inl t ↦
      rw (delete_principal, t)
        (λ j.
          let owned = h j in
          let gone = knows-remove id j m.principals in
          let gone_too = knows-remove id j m.verifications in
          elim (String_discrete j id) [ yes e ↦ ground arith | no n ↦ ground arith ])
]

initiate-IsOwned :
    (id method verification_id : String) (now : ℕ) (m : PrincipalManager)
    → IsOwned m
    → IsOwned (initiate_verification id method verification_id now m).1
unfolding initiate_verification
initiate-IsOwned id method verification_id now m h = elim (Bool-cases (knows id m.principals)) [
  | inr f ↦ rw (initiate_verification, f) h
  | inl t ↦
      rw (initiate_verification, t)
        (λ j.
          let owned = h j in
          let after =
            knows-insert id j (new_verification id method verification_id now) m.verifications in
          elim (String_discrete j id) [ yes e ↦ ground arith | no n ↦ ground arith ])
]

add-IsOwned :
    (id : String) (d : IdentityDocument) (now : ℕ) (m : PrincipalManager)
    → IsOwned m
    → IsOwned (add_identity_document id d now m).1
unfolding add_identity_document
add-IsOwned id d now m h = elim (Option-cases (lookup String_discrete id m.verifications)) [
  | inl e ↦ rw (add_identity_document, e) h
  | inr (v, e) ↦ rw (add_identity_document, e) (rewrite-IsOwned id v _ m e h)
]

verify-IsOwned :
    (id document_id verified_by notes : String) (now : ℕ) (m : PrincipalManager)
    → IsOwned m
    → IsOwned (verify_document id document_id verified_by notes now m).1
unfolding verify_document
verify-IsOwned id document_id verified_by notes now m h =
    elim (Option-cases (lookup String_discrete id m.verifications)) [
      | inl e ↦ rw (verify_document, e) h
      | inr (v, e) ↦
          elim (Option-cases
            (mark_document document_id notes now v.identity_verification.documents)) [
              | inl x ↦ rw (verify_document, e, x) h
              | inr (ds, x) ↦ rw (verify_document, e, x) (rewrite-IsOwned id v _ m e h)
            ]
    ]

complete-IsOwned :
    (id : String) (score : ℤ) (risk : String) (checks : List (String × Bool)) (now : ℕ)
    (m : PrincipalManager)
    → IsOwned m
    → IsOwned (complete_verification id score risk checks now m).1
unfolding complete_verification
complete-IsOwned id score risk checks now m h =
    elim (Option-cases (lookup String_discrete id m.verifications)) [
      | inl e ↦ rw (complete_verification, e) h
      | inr (v, e) ↦ elim (Bool-cases (any is_verified v.identity_verification.documents)) [
        | inr f ↦ rw (complete_verification, e, f) h
        | inl t ↦
            let noted = rewrite-IsOwned id v (completed score risk checks now v) m e h in
            elim (Option-cases (lookup String_discrete id m.principals)) [
              | inl x ↦ rw (complete_verification, e, t, x) noted
              | inr (p, x) ↦
                  rw (complete_verification, e, t, x)
                    (principals-IsOwned id (with_status "verified" p)
                      (record m {
                        verifications =
                            insert String_discrete id (completed score risk checks now v)
                              m.verifications;
                      })
                      noted)
            ]
      ]
    ]

cleanup-IsOwned :
    (now : ℕ) (m : PrincipalManager) → IsOwned m → IsOwned (cleanup_expired_verifications now m).1
unfolding cleanup_expired_verifications
cleanup-IsOwned now m h j =
    let ids = keys (keep (has_expired now) m.verifications) in
    ground
      (arith, h j, knows-remove_all ids j m.verifications, knows-mark_expired ids j m.principals)

serve-IsOwned :
    (call : Call) (now : ℕ) (m : PrincipalManager) → IsOwned m → IsOwned (serve call now m)
unfolding serve
serve-IsOwned (registers p) now m h = register_principal-IsOwned p m h
serve-IsOwned (updates p) now m h = update_principal-IsOwned p m h
serve-IsOwned (deletes id) now m h = delete_principal-IsOwned id m h
serve-IsOwned (initiates id method verification_id) now m h =
    initiate-IsOwned id method verification_id now m h
serve-IsOwned (adds id d) now m h = add-IsOwned id d now m h
serve-IsOwned (verifies id document_id verified_by notes) now m h =
    verify-IsOwned id document_id verified_by notes now m h
serve-IsOwned (completes id score risk checks) now m h =
    complete-IsOwned id score risk checks now m h
serve-IsOwned cleans now m h = cleanup-IsOwned now m h

serve_all-IsOwned :
    (calls : List (Call × ℕ)) (m : PrincipalManager) → IsOwned m → IsOwned (serve_all calls m)
unfolding serve_all
serve_all-IsOwned [] m h = h
serve_all-IsOwned ((call, now) ∷ calls) m h =
    serve_all-IsOwned calls (serve call now m) (serve-IsOwned call now m h)

answers :
    (id : String) (score : ℤ) (risk : String) (checks : List (String × Bool)) (now : ℕ)
    (m : PrincipalManager)
    → IsOwned m
    → (b : Bool) × ((complete_verification id score risk checks now m).0 ≡ ok b)
unfolding complete_verification contains
answers id score risk checks now m h =
    elim (Option-cases (lookup String_discrete id m.verifications)) [
      | inl e ↦ (false, rw (complete_verification, e) refl)
      | inr (v, e) ↦ elim (Bool-cases (any is_verified v.identity_verification.documents)) [
        | inr f ↦ (false, rw (complete_verification, e, f) refl)
        | inl t ↦ elim (Option-cases (lookup String_discrete id m.principals)) [
          | inl x ↦ let owned = h id in absurd (ground arith)
          | inr (p, x) ↦ (true, rw (complete_verification, e, t, x) refl)
        ]
      ]
    ]

-- After any calls on a new manager, `complete_verification` does not raise: a verification belongs
-- to a principal that is registered, also after principals were deleted and verifications removed.
pub complete_verification-serve_all :
    (calls : List (Call × ℕ)) (id : String) (score : ℤ) (risk : String)
    (checks : List (String × Bool)) (now : ℕ)
    → (b : Bool) × ((complete_verification id score risk checks now (serve_all calls init)).0
        ≡ ok b)
unfolding contains lookup
complete_verification-serve_all calls id score risk checks now =
    answers id score risk checks now (serve_all calls init)
      (serve_all-IsOwned calls init (λ j. refl))
