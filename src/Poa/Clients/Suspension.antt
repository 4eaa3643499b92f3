-- ===== src/Poa/Clients/Suspension.antt =====
-- gauth/poa/client.py: what suspension does to the check of capabilities.
use mathlib.Core.List.{lookup}
use gauth_py.Base.{
  ℕ, ◌≡◌, refl, ◌∙◌, ap, Bool, true, false, List, [], ◌∷◌, Option, none, some, inl, inr, String,
  String_discrete, Bool-cases, Option-cases, arith, All,
}
use gauth_py.Base.Dict.{insert, contains, lookup-insert, lookup-insert_same}
use gauth_py.Poa.{Client}
use gauth_py.Poa.Clients.{
  ClientManager, ClientRegistration, ClientCapabilities, CapabilityType, TrustLevel, is_verified,
  as_suspended, new_registration, register_client, update_client, verify_client,
  update_capabilities, check_capability_authorization, update_trust_level, suspend_client,
  cleanup_expired_registrations,
}

pub data Call : Type 0 where
  registers : Client → String → Option ClientCapabilities → Call
  updates : Client → Call
  verifies : String → String → Call
  equips : String → ClientCapabilities → Call
  trusts : String → TrustLevel → Call
  suspends : String → String → String → Call
  cleans : Call

unfoldable pub serve : Call → ℕ → ClientManager → ClientManager
unfolding register_client update_client verify_client update_capabilities update_trust_level
    suspend_client cleanup_expired_registrations
serve (registers c by caps) now m = (register_client c by caps now m).1
serve (updates c) now m = (update_client c m).1
serve (verifies id notes) now m = (verify_client id notes now m).1
serve (equips id caps) now m = (update_capabilities id caps m).1
serve (trusts id level) now m = (update_trust_level id level m).1
serve (suspends id by reason) now m = (suspend_client id by reason m).1
serve cleans now m = (cleanup_expired_registrations now m).1

unfoldable pub serve_all : List (Call × ℕ) → ClientManager → ClientManager
unfolding serve
serve_all [] m = m
serve_all ((call, now) ∷ calls) m = serve_all calls (serve call now m)

-- The call does not verify the client.
abbrev pub Spares : String → Call × ℕ → Type 0
Spares id (verifies j notes, now) = ¬ (id ≡ j)
Spares id (registers c by caps, now) = Unit
Spares id (updates c, now) = Unit
Spares id (equips j caps, now) = Unit
Spares id (trusts j level, now) = Unit
Spares id (suspends j by reason, now) = Unit
Spares id (cleans, now) = Unit

unfoldable verified_in : String → List (String × ClientRegistration) → Bool
unfolding lookup is_verified
verified_in id rs = elim (lookup String_discrete id rs) [ none ↦ false | some r ↦ is_verified r ]

verified-insert :
    (id j : String) (r : ClientRegistration) (rs : List (String × ClientRegistration))
    → is_verified r ≡ false
    → verified_in id rs ≡ false
    → verified_in id (insert String_discrete j r rs) ≡ false
unfolding verified_in
verified-insert id j r rs u h = elim (String_discrete id j) [
  | yes e ↦ ground (arith, lookup-insert String_discrete j id r rs)
  | no n ↦ ground (arith, lookup-insert String_discrete j id r rs)
]

verified-insert_other :
    (id j : String) (r : ClientRegistration) (rs : List (String × ClientRegistration))
    → ¬ (id ≡ j)
    → verified_in id rs ≡ false
    → verified_in id (insert String_discrete j r rs) ≡ false
unfolding verified_in
verified-insert_other id j r rs n h = ground (arith, lookup-insert String_discrete j id r rs)

as_suspended-unverified :
    (by reason : String) (r : ClientRegistration) → is_verified (as_suspended by reason r) ≡ false
unfolding is_verified as_suspended String_discrete
as_suspended-unverified by reason r = refl

new_registration-unverified :
    (id by : String) (now : ℕ) → is_verified (new_registration id by now) ≡ false
unfolding is_verified new_registration String_discrete
new_registration-unverified id by now = refl

suspend-unverified :
    (id j by reason : String) (m : ClientManager)
    → verified_in id m.registrations ≡ false
    → verified_in id (suspend_client j by reason m).1.registrations ≡ false
unfolding suspend_client
suspend-unverified id j by reason m h = elim (Bool-cases (contains String_discrete j m.clients)) [
  | inr f ↦ rw (suspend_client, f) h
  | inl t ↦ elim (Option-cases (lookup String_discrete j m.registrations)) [
    | inl e ↦ rw (suspend_client, t, e) h
    | inr (r, e) ↦
        rw (suspend_client, t, e)
          (verified-insert id j _ m.registrations (as_suspended-unverified by reason r) h)
  ]
]

verify-unverified :
    (id j notes : String) (now : ℕ) (m : ClientManager)
    → ¬ (id ≡ j)
    → verified_in id m.registrations ≡ false
    → verified_in id (verify_client j notes now m).1.registrations ≡ false
unfolding verify_client
verify-unverified id j notes now m n h =
    elim (Option-cases (lookup String_discrete j m.registrations)) [
      | inl e ↦ rw (verify_client, e) h
      | inr (r, e) ↦ rw (verify_client, e) (verified-insert_other id j _ m.registrations n h)
    ]

register-unverified :
    (id by : String) (c : Client) (caps : Option ClientCapabilities) (now : ℕ) (m : ClientManager)
    → verified_in id m.registrations ≡ false
    → verified_in id (register_client c by caps now m).1.registrations ≡ false
unfolding register_client
register-unverified id by c caps now m h =
    verified-insert id c.id _ m.registrations (new_registration-unverified c.id by now) h

-- The calls that only write clients or capabilities.
update-registrations :
    (c : Client) (m : ClientManager) → (update_client c m).1.registrations ≡ m.registrations
unfolding update_client
update-registrations c m = elim (Bool-cases (contains String_discrete c.id m.clients)) [
  | inl t ↦ rw (update_client, t) refl
  | inr f ↦ rw (update_client, f) refl
]

equip-registrations :
    (id : String) (caps : ClientCapabilities) (m : ClientManager)
    → (update_capabilities id caps m).1.registrations ≡ m.registrations
unfolding update_capabilities
equip-registrations id caps m = elim (Bool-cases (contains String_discrete id m.clients)) [
  | inl t ↦ rw (update_capabilities, t) refl
  | inr f ↦ rw (update_capabilities, f) refl
]

trust-registrations :
    (id : String) (level : TrustLevel) (m : ClientManager)
    → (update_trust_level id level m).1.registrations ≡ m.registrations
unfolding update_trust_level
trust-registrations id level m = elim (Option-cases (lookup String_discrete id m.clients)) [
  | inl e ↦ rw (update_trust_level, e) refl
  | inr (c, e) ↦ rw (update_trust_level, e) refl
]

serve_all-unverified :
    (id : String) (calls : List (Call × ℕ)) (m : ClientManager)
    → All (Spares id) calls
    → verified_in id m.registrations ≡ false
    → verified_in id (serve_all calls m).registrations ≡ false
unfolding serve_all serve
serve_all-unverified id [] m s h = h
serve_all-unverified id ((registers c by caps, now) ∷ calls) m s h =
    serve_all-unverified id calls _ s.1 (register-unverified id by c caps now m h)
serve_all-unverified id ((updates c, now) ∷ calls) m s h =
    serve_all-unverified id calls _ s.1 (ap (verified_in id) (update-registrations c m) ∙ h)
serve_all-unverified id ((verifies j notes, now) ∷ calls) m s h =
    serve_all-unverified id calls _ s.1 (verify-unverified id j notes now m s.0 h)
serve_all-unverified id ((equips j caps, now) ∷ calls) m s h =
    serve_all-unverified id calls _ s.1 (ap (verified_in id) (equip-registrations j caps m) ∙ h)
serve_all-unverified id ((trusts j level, now) ∷ calls) m s h =
    serve_all-unverified id calls _ s.1 (ap (verified_in id) (trust-registrations j level m) ∙ h)
serve_all-unverified id ((suspends j by reason, now) ∷ calls) m s h =
    serve_all-unverified id calls _ s.1 (suspend-unverified id j by reason m h)
serve_all-unverified id ((cleans, now) ∷ calls) m s h =
    serve_all-unverified id calls (cleanup_expired_registrations now m).1 s.1 h

suspended-unverified :
    (id by reason : String) (m : ClientManager)
    → (suspend_client id by reason m).0 ≡ true
    → verified_in id (suspend_client id by reason m).1.registrations ≡ false
unfolding suspend_client verified_in
suspended-unverified id by reason m h = elim (Bool-cases (contains String_discrete id m.clients)) [
  | inr f ↦ absurd (ground arith)
  | inl t ↦ elim (Option-cases (lookup String_discrete id m.registrations)) [
    | inl e ↦ rw (suspend_client, t, e, verified_in, e) refl
    | inr (r, e) ↦
        rw
          (
            suspend_client,
            t,
            e,
            verified_in,
            lookup-insert_same String_discrete id _ m.registrations,
          )
          (as_suspended-unverified by reason r)
  ]
]

unverified-refused :
    (id : String) (c : CapabilityType) (context : List (String × String)) (m : ClientManager)
    → verified_in id m.registrations ≡ false
    → check_capability_authorization id c context m ≡ false
unfolding check_capability_authorization verified_in
unverified-refused id c context m h = ground arith

-- Once a client was suspended it is authorized for no capability, whatever calls follow, a new
-- registration among them, until the client is verified.
pub suspend_client-final :
    (id by reason : String) (m : ClientManager) (calls : List (Call × ℕ)) (c : CapabilityType)
    (context : List (String × String))
    → (suspend_client id by reason m).0 ≡ true
    → All (Spares id) calls
    → check_capability_authorization id c context
        (serve_all calls (suspend_client id by reason m).1)
      ≡ false
suspend_client-final id by reason m calls c context h s =
    unverified-refused id c context (serve_all calls (suspend_client id by reason m).1) (
      serve_all-unverified id calls (suspend_client id by reason m).1 s
        (suspended-unverified id by reason m h))
