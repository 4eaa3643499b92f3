-- ===== src/Resources/Sort/Visit.antt =====
-- gauth/resources/manager.py: what each `visit` of `_topological_sort` does to the search.
use mathlib.Core.List.{lookup}
use gauth_py.Base.{
  ℕ, zero, suc, ◌≤◌, ◌<◌, ◌≡◌, refl, sym, ap, ◌∙◌, subst, true, false, List, [], ◌∷◌, none, some,
  inl, inr, Bool-cases, Option-cases, if◌then◌else◌, arith,
}
use gauth_py.Base.Dict.{contains}
use gauth_py.Base.Sets.{discard, add_absent, discard-add}
use gauth_py.Resources.{ServiceType_discrete, ServiceConfig}
use gauth_py.Resources.Sort.{
  Search, Outcome, done, circular, out_of_fuel, each, enter, leave, finish, visit,
}
use gauth_py.Resources.Sort.Order.{
  K, has, seen, seen-append, Leads, one, more, IsKnown, IsOrdered, IsOrdered-append,
}

-- The services of the map that are not on the path.
abbrev pub fresh : List (K × ServiceConfig) → List K → ℕ
fresh [] path = 0
fresh ((k, c) ∷ m) path = if has k path then fresh m path else suc (fresh m path)

fresh-cons_le :
    (m : List (K × ServiceConfig)) (t : K) (path : List K) → fresh m (t ∷ path) ≤ fresh m path
fresh-cons_le [] t path = omega arith
fresh-cons_le ((k, c) ∷ m) t path = ground (arith, fresh-cons_le m t path)

fresh-cons_lt :
    (m : List (K × ServiceConfig)) (t : K) (path : List K) (c : ServiceConfig)
    → has t path ≡ false
    → lookup ServiceType_discrete t m ≡ some c
    → fresh m (t ∷ path) < fresh m path
unfolding lookup
fresh-cons_lt [] t path c h e = cc
fresh-cons_lt ((k, d) ∷ m) t path c h e = elim (ServiceType_discrete t k) [
  | yes p ↦ ground (arith, fresh-cons_le m t path)
  | no n ↦ ground (arith, fresh-cons_lt m t path c h)
]

module _ (m : List (K × ServiceConfig)) where
  -- The visited services are those of the result, which is in order.
  pub record IsSound (s : Search) : Type 0 where
    pub listed : s.visited ≡ seen [] s.result
    pub ordered : IsOrdered m [] s.result

  -- What is on the path leads to `t`.
  abbrev pub LeadsTo : List K → K → Type 0
  LeadsTo path t = (u : K) → has u path ≡ true → Leads m u t

  -- The path is as it was, nothing visited is forgotten, and nothing on the path is visited.
  pub record Extends (s s' : Search) : Type 0 where
    pub path : s'.temp_visited ≡ s.temp_visited
    pub grown : (u : K) → has u s.visited ≡ true → has u s'.visited ≡ true
    pub apart : (u : K) → has u s.temp_visited ≡ true → has u s'.visited ≡ has u s.visited
    pub sound : IsSound s'

  abbrev pub Visits : List K → Search → Outcome Search → Type 0
  Visits ts s (done s') =
      Extends s s' × ((t : K) → has t ts ≡ true → IsKnown m t → has t s'.visited ≡ true)
  Visits ts s (circular u) = Leads m u u
  Visits ts s out_of_fuel = ⊥

  pub Extends-rfl : (s : Search) → IsSound s → Extends s s
  Extends-rfl s h = record { path = refl; grown = λ u e. e; apart = λ u e. refl; sound = h }

  Extends-trans : {s t u : Search} → Extends s t → Extends t u → Extends s u
  Extends-trans {s = s} {t = t} {u = u} h k = record {
    path = k.path ∙ h.path;
    grown = λ x e. k.grown x (h.grown x e);
    apart = λ x e. k.apart x (cc (h.path, e)) ∙ h.apart x e;
    sound = k.sound;
  }

  Visits-cons :
      (t : K) (ts : List K) (s s' : Search) (o : Outcome Search)
      → Visits (t ∷ []) s (done s')
      → Visits ts s' o
      → Visits (t ∷ ts) s o
  Visits-cons t ts s s' (circular u) q r = r
  Visits-cons t ts s s' out_of_fuel q r = r
  Visits-cons t ts s s' (done s'') q r = (
    Extends-trans q.0 r.0,
    λ u e k. elim (ServiceType_discrete u t) [
      | yes same ↦ r.0.grown u (q.1 u (ground arith) k)
      | no other ↦ r.1 u (ground arith) k
    ],
  )

  pub and_then-Visits :
      (t : K) (ts : List K) (s : Search) (next : Search → Outcome Search) (o : Outcome Search)
      → Visits (t ∷ []) s o
      → ((s' : Search) → Extends s s' → Visits ts s' (next s'))
      → Visits
          (t ∷ ts)
          s
          (elim o [ done s' ↦ next s' | circular u ↦ circular u | out_of_fuel ↦ out_of_fuel ])
  and_then-Visits t ts s next (circular u) q r = q
  and_then-Visits t ts s next out_of_fuel q r = q
  and_then-Visits t ts s next (done s') q r = Visits-cons t ts s s' (next s') q (r s' q.0)

  each-Visits :
      (v : K → Search → Outcome Search) (path : List K)
      → ((t : K) (s : Search)
          → s.temp_visited ≡ path
          → IsSound s
          → LeadsTo path t
          → Visits (t ∷ []) s (v t s))
      → (ts : List K) (s : Search) → s.temp_visited ≡ path
      → IsSound s
      → ((t : K) → has t ts ≡ true → LeadsTo path t)
      → Visits ts s (each v ts s)
  unfolding each
  each-Visits v path rule [] s p h l = (Extends-rfl s h, λ t e k. cc e)
  each-Visits v path rule (t ∷ ts) s p h l =
      and_then-Visits t ts s (each v ts) (v t s) (rule t s p h (l t (ground arith)))
        (λ s' x. each-Visits v path rule ts s' (x.path ∙ p) x.sound (λ u e. l u (ground arith)))

  module _ (t : K) (s : Search) (off_path : has t s.temp_visited ≡ false) where
    enter-path : (enter t s).temp_visited ≡ t ∷ s.temp_visited
    unfolding enter
    enter-path = add_absent ServiceType_discrete t s.temp_visited off_path

    module _ (c : ServiceConfig) (kind : c.kind ≡ t)
        (stored : lookup ServiceType_discrete t m ≡ some c) (new : has t s.visited ≡ false)
        (s' : Search) (q : Visits c.dependencies (enter t s) (done s')) where
      still_new : has t s'.visited ≡ false
      unfolding enter
      still_new = q.0.apart t (rw enter-path (ground arith)) ∙ new

      finished : (leave t (finish c t s')).visited ≡ t ∷ s'.visited
      unfolding leave finish
      finished = add_absent ServiceType_discrete t s'.visited still_new

      finish-path : (leave t (finish c t s')).temp_visited ≡ s.temp_visited
      unfolding leave finish enter
      finish-path =
          ap (discard ServiceType_discrete t) q.0.path
          ∙ discard-add ServiceType_discrete t s.temp_visited off_path

      finish-IsSound : IsSound (leave t (finish c t s'))
      unfolding leave finish
      finish-IsSound =
          let absent : has c.kind (seen [] s'.result) ≡ false =
            cc (kind, still_new, q.0.sound.listed) in
          record {
            listed = cc (finished, q.0.sound.listed, kind, seen-append [] s'.result c);
            ordered =
                IsOrdered-append m [] s'.result c q.0.sound.ordered absent
                  (subst (λ x. lookup ServiceType_discrete x m ≡ some c) (sym kind) stored)
                  (λ d e k. cc (q.0.sound.listed, q.1 d e k));
          }

      finish-Extends : Extends s (leave t (finish c t s'))
      unfolding enter
      finish-Extends = record {
        path = finish-path;
        grown = λ u e. let old = q.0.grown u e in rw finished (ground arith);
        apart = λ u e.
            let same = q.0.apart u (rw enter-path (ground arith)) in rw finished (ground arith);
        sound = finish-IsSound;
      }

      finish-Visits : Visits (t ∷ []) s (done (leave t (finish c t s')))
      finish-Visits = (finish-Extends, λ u e k. rw finished (ground arith))

    close-Visits :
        (c : ServiceConfig)
        → c.kind ≡ t
        → lookup ServiceType_discrete t m ≡ some c
        → has t s.visited ≡ false
        → (o : Outcome Search) → Visits c.dependencies (enter t s) o
        → Visits (t ∷ []) s (elim o [
          | done s' ↦ done (leave t (finish c t s'))
          | circular u ↦ circular u
          | out_of_fuel ↦ out_of_fuel
        ])
    close-Visits c k e n (circular u) q = q
    close-Visits c k e n out_of_fuel q = q
    close-Visits c k e n (done s') q = finish-Visits c k e n s' q

    enter-IsSound : IsSound s → IsSound (enter t s)
    unfolding enter
    enter-IsSound h = record { listed = h.listed; ordered = h.ordered }

    skip-Visits :
        IsSound s
        → lookup ServiceType_discrete t m ≡ none
        → Visits (t ∷ []) s (done (leave t (enter t s)))
    unfolding leave enter contains
    skip-Visits h e = (
      record {
        path = discard-add ServiceType_discrete t s.temp_visited off_path;
        grown = λ u x. x;
        apart = λ u x. refl;
        sound = record { listed = h.listed; ordered = h.ordered };
      },
      λ u x k. elim (ServiceType_discrete u t) [
        | yes p ↦ let gone : lookup ServiceType_discrete u m ≡ none = rw p e in ground arith
        | no n ↦ ground arith
      ],
    )

    enter-LeadsTo :
        (c : ServiceConfig)
        → lookup ServiceType_discrete t m ≡ some c
        → LeadsTo s.temp_visited t
        → (d : K) → has d c.dependencies ≡ true
        → LeadsTo (t ∷ s.temp_visited) d
    enter-LeadsTo c e l d n u x = elim (ServiceType_discrete u t) [
      | yes p ↦ one (c, (subst (λ y. lookup ServiceType_discrete y m ≡ some c) (sym p) e, n))
      | no n' ↦ more (l u (ground arith)) (c, (e, n))
    ]

  module _
      (kinded : (t : K) (c : ServiceConfig)
        → lookup ServiceType_discrete t m ≡ some c
        → c.kind ≡ t) where
    -- With more fuel than there are known services off the path a visit ends: in a search that
    -- has visited `t`, if it is known, or with an error that names a service that leads to itself.
    pub visit-Visits :
        (fuel : ℕ) (t : K) (s : Search)
        → fresh m s.temp_visited < fuel
        → IsSound s
        → LeadsTo s.temp_visited t
        → Visits (t ∷ []) s (visit m fuel t s)
    unfolding visit
    visit-Visits zero t s f h l = absurd (omega arith)
    visit-Visits (suc fuel) t s f h l = elim (Bool-cases (has t s.temp_visited)) [
      | inl on ↦ rw on (l t on)
      | inr off ↦ rw off (elim (Bool-cases (has t s.visited)) [
        | inl old ↦ rw old (Extends-rfl s h, λ u x k. ground arith)
        | inr new ↦ rw new (elim (Option-cases (lookup ServiceType_discrete t m)) [
          | inl e ↦ rw e (skip-Visits t s off h e)
          | inr (c, e) ↦ rw e (
              close-Visits t s off c (kinded t c e) e new
                (each (visit m fuel) c.dependencies (enter t s))
                (each-Visits (visit m fuel) (t ∷ s.temp_visited)
                  (λ u r p i g.
                    visit-Visits fuel u r
                      (rw p (omega (arith, fresh-cons_lt m t s.temp_visited c off e))) i (rw p g))
                  c.dependencies (enter t s) (enter-path t s off) (enter-IsSound t s off h)
                  (enter-LeadsTo t s off c e l)))
        ])
      ])
    ]
