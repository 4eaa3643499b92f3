-- ===== src/Resources/Sort/Order.antt =====
-- gauth/resources/manager.py: what it means that services stand in the order of their
-- dependencies, and that one leads to itself.
use mathlib.Core.List.{lookup}
use gauth_py.Base.{
  ◌≡◌, refl, sym, ◌∙◌, subst, Bool, true, false, List, [], ◌∷◌, ◌++◌, some, elem, arith,
}
use gauth_py.Base.Dict.{contains}
use gauth_py.Resources.{ServiceType, ServiceType_discrete, ServiceConfig}

abbrev pub K : Type 0
K = ServiceType

abbrev pub has : K → List K → Bool
has = elem ServiceType_discrete

-- The services of `before` and of `cs`, the last first.
abbrev pub seen : List K → List ServiceConfig → List K
seen before [] = before
seen before (c ∷ cs) = seen (c.kind ∷ before) cs

pub seen-append :
    (before : List K) (xs : List ServiceConfig) (c : ServiceConfig)
    → seen before (xs ++ c ∷ []) ≡ c.kind ∷ seen before xs
seen-append before [] c = refl
seen-append before (x ∷ xs) c = seen-append (x.kind ∷ before) xs c

module _ (m : List (K × ServiceConfig)) where
  -- `a` has a configuration that names `b` among the dependencies.
  abbrev pub DependsOn : K → K → Type 0
  DependsOn a b =
      (c : ServiceConfig) × ((lookup ServiceType_discrete a m ≡ some c)
        × (has b c.dependencies ≡ true))

  pub data Leads : K → K → Type 0 where
    one : {a b : K} → DependsOn a b → Leads a b
    more : {a b c : K} → Leads a b → DependsOn b c → Leads a c

  abbrev pub IsKnown : K → Type 0
  IsKnown t = contains ServiceType_discrete t m ≡ true

  -- All dependencies that have a configuration are in `before`.
  abbrev pub IsReady : List K → List K → Type 0
  IsReady before ds = (d : K) → has d ds ≡ true → IsKnown d → has d before ≡ true

  -- Each configuration of the list is the one of the map for its service, which stands neither in
  -- `before` nor earlier in the list, and what it depends on, as far as it is known, stands there.
  abbrev pub IsOrdered : List K → List ServiceConfig → Type 0
  IsOrdered before [] = Unit
  IsOrdered before (c ∷ cs) =
      ((has c.kind before ≡ false)
        × ((lookup ServiceType_discrete c.kind m ≡ some c) × IsReady before c.dependencies))
      × IsOrdered (c.kind ∷ before) cs

  pub IsOrdered-append :
      (before : List K) (xs : List ServiceConfig) (c : ServiceConfig)
      → IsOrdered before xs
      → has c.kind (seen before xs) ≡ false
      → lookup ServiceType_discrete c.kind m ≡ some c
      → IsReady (seen before xs) c.dependencies
      → IsOrdered before (xs ++ c ∷ [])
  IsOrdered-append before [] c o n e r = ((n, (e, r)), tt)
  IsOrdered-append before (x ∷ xs) c o n e r =
      (o.0, IsOrdered-append (x.kind ∷ before) xs c o.1 n e r)

  -- What is known and reached from a member is a member, and no member leads to itself.
  pub record IsClosed (before : List K) : Type 0 where
    pub reached : (a b : K) → has a before ≡ true → DependsOn a b → IsKnown b → has b before ≡ true
    pub no_loop : (a : K) → has a before ≡ true → ¬ (Leads a a)

  DependsOn-IsKnown : (a b : K) → DependsOn a b → IsKnown a
  unfolding contains
  DependsOn-IsKnown a b d = ground arith

  pub Leads-IsKnown : {a b : K} → Leads a b → IsKnown a
  Leads-IsKnown (one {a = a} {b = b} d) = DependsOn-IsKnown a b d
  Leads-IsKnown (more l d) = Leads-IsKnown l

  Leads-member :
      {before : List K} (h : IsClosed before) {a b : K}
      → has a before ≡ true
      → Leads a b
      → IsKnown b
      → has b before ≡ true
  Leads-member h e (one {a = a} {b = b} d) k = h.reached a b e d k
  Leads-member h e (more {b = b} {c = c} l d) k =
      h.reached b c (Leads-member h e l (DependsOn-IsKnown b c d)) d k

  module _ (before : List K) (closed : IsClosed before) (c : ServiceConfig)
      (absent : has c.kind before ≡ false) (stored : lookup ServiceType_discrete c.kind m ≡ some c)
      (ready : IsReady before c.dependencies) where
    next-member : (a b : K) → a ≡ c.kind → DependsOn a b → IsKnown b → has b before ≡ true
    next-member a b p (d, (e, n)) k =
        let same : some c ≡ some d =
          sym stored ∙ subst (λ x. lookup ServiceType_discrete x m ≡ some d) p e in
        ready b (cc (same, n)) k

    Leads-below : {a b : K} → a ≡ c.kind → Leads a b → IsKnown b → has b before ≡ true
    Leads-below p (one {a = a} {b = b} d) k = next-member a b p d k
    Leads-below p (more {b = b} {c = e} l d) k =
        closed.reached b e (Leads-below p l (DependsOn-IsKnown b e d)) d k

    cons-IsClosed : IsClosed (c.kind ∷ before)
    cons-IsClosed = record {
      reached = λ a b e d k. elim (ServiceType_discrete a c.kind) [
        | yes p ↦ let below = next-member a b p d k in ground arith
        | no n ↦ let below = closed.reached a b (ground arith) d k in ground arith
      ];
      no_loop = λ a e l. elim (ServiceType_discrete a c.kind) [
        | yes p ↦ let below = Leads-below p l (Leads-IsKnown l) in ground arith
        | no n ↦ closed.no_loop a (ground arith) l
      ];
    }

  pub seen-IsClosed :
      (before : List K) (cs : List ServiceConfig)
      → IsClosed before
      → IsOrdered before cs
      → IsClosed (seen before cs)
  seen-IsClosed before [] h o = h
  seen-IsClosed before (c ∷ cs) h o =
      seen-IsClosed (c.kind ∷ before) cs (cons-IsClosed before h c o.0.0 o.0.1.0 o.0.1.1) o.1

  pub nil-IsClosed : IsClosed []
  nil-IsClosed = record { reached = λ a b e d k. cc e; no_loop = λ a e l. cc e }
