-- ===== src/Poa/Clients/Capable.antt =====
-- gauth/poa/client.py: `find_capable_clients` against the check of one client.
use mathlib.Core.List.{lookup}
use gauth_py.Base.{
  ◌≡◌, refl, true, ◌&&◌, List, [], ◌∷◌, Option, inl, inr, String, String_discrete, Bool-cases,
  Option-cases, arith, elem, all, ◌⊎◌,
}
use gauth_py.Base.Members.{elem-Mem, all-Mem}
use gauth_py.Base.Dict.{contains}
use gauth_py.Core.Exceptions.{Result, Exception, ok, raise}
use gauth_py.Poa.{Client}
use gauth_py.Poa.Clients.{
  ClientManager, CapabilityType, CapabilityType_discrete, TrustLevel, has_capability,
  meets_constraints, is_capable, trusted, capable_among, find_capable_clients,
  check_capability_authorization,
}

abbrev Chosen :
    List CapabilityType → List String → ClientManager → List (String × Client) → String → Type 0
Chosen required functions m cs id =
    (is_capable required functions id m ≡ true) × (contains String_discrete id cs ≡ true)

contains-cons :
    (id j : String) (c : Client) (cs : List (String × Client))
    → contains String_discrete id cs ≡ true
    → contains String_discrete id ((j, c) ∷ cs) ≡ true
unfolding contains lookup
contains-cons id j c cs h = ground arith

contains-head :
    (id : String) (c : Client) (cs : List (String × Client))
    → contains String_discrete id ((id, c) ∷ cs) ≡ true
unfolding contains lookup
contains-head id c cs = ground arith

Result-cases :
    {A : Type 0} (r : Result A) → ((e : Exception) × (r ≡ raise e)) ⊎ ((a : A) × (r ≡ ok a))
Result-cases (raise e) = inl (e, refl)
Result-cases (ok a) = inr (a, refl)

-- Who is found has an entry and what is required.
among-Chosen :
    (required : List CapabilityType) (functions : List String) (minimum : Option TrustLevel)
    (m : ClientManager) (cs : List (String × Client)) (ids : List String) (id : String)
    → capable_among required functions minimum m cs ≡ ok ids
    → elem String_discrete id ids ≡ true
    → Chosen required functions m cs id
unfolding capable_among
among-Chosen required functions minimum m [] ids id e h = absurd (ground arith)
among-Chosen required functions minimum m ((j, c) ∷ cs) ids id e h =
    elim (Option-cases (trusted minimum c)) [
      | inl x ↦ absurd (ground arith)
      | inr (enough, x) ↦ elim (Bool-cases (enough && is_capable required functions j m)) [
        | inr out ↦
            let found = among-Chosen required functions minimum m cs ids id (ground arith) h in
            (found.0, contains-cons id j c cs found.1)
        | inl taken ↦ elim (Result-cases (capable_among required functions minimum m cs)) [
          | inl (f, y) ↦ absurd (ground arith)
          | inr (rest, y) ↦
              let same : j ∷ rest ≡ ids = ground arith in
              elim (String_discrete id j) [
                | yes p ↦ (ground arith, rw p (contains-head j c cs))
                | no n ↦
                    let later : elem String_discrete id rest ≡ true = ground arith in
                    let found = among-Chosen required functions minimum m cs rest id y later in
                    (found.0, contains-cons id j c cs found.1)
              ]
        ]
      ]
    ]

unconstrained : (constraints : List (String × String)) → meets_constraints [] constraints ≡ true
unfolding meets_constraints lookup
unconstrained [] = refl
unconstrained (e ∷ es) = let ih = unconstrained es in ground arith

capable-authorized :
    (required : List CapabilityType) (functions : List String) (m : ClientManager) (id : String)
    (c : CapabilityType)
    → is_capable required functions id m ≡ true
    → contains String_discrete id m.clients ≡ true
    → elem CapabilityType_discrete c required ≡ true
    → check_capability_authorization id c [] m ≡ true
unfolding is_capable check_capability_authorization contains
capable-authorized required functions m id c h k r =
    elim (Option-cases (lookup String_discrete id m.clients)) [
      | inl e ↦ absurd (ground arith)
      | inr (x, e) ↦ elim (Option-cases (lookup String_discrete id m.registrations)) [
        | inl e2 ↦ absurd (ground arith)
        | inr (g, e2) ↦ elim (Option-cases (lookup String_discrete id m.capabilities)) [
          | inl e3 ↦ absurd (ground arith)
          | inr (caps, e3) ↦
              let has : all (λ d. has_capability d caps) required ≡ true = ground arith in
              let one =
                all-Mem (λ d. has_capability d caps) required has c
                  (elem-Mem CapabilityType_discrete c required r) in
              let free = unconstrained caps.operational_constraints in ground arith
        ]
      ]
    ]

-- The clients that are found are authorized for each required capability, where no context
-- constrains them.
pub find_capable_clients-authorized :
    (required : List CapabilityType) (functions : List String) (minimum : Option TrustLevel)
    (m : ClientManager) (ids : List String) (id : String) (c : CapabilityType)
    → find_capable_clients required functions minimum m ≡ ok ids
    → elem String_discrete id ids ≡ true
    → elem CapabilityType_discrete c required ≡ true
    → check_capability_authorization id c [] m ≡ true
unfolding find_capable_clients
find_capable_clients-authorized required functions minimum m ids id c e h r =
    let chosen = among-Chosen required functions minimum m m.clients ids id e h in
    capable-authorized required functions m id c chosen.0 chosen.1 r
