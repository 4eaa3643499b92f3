-- ===== src/Resources/Sort/Correct.antt =====
-- gauth/resources/manager.py: `_topological_sort` ends, sorts, and raises exactly on a cycle.
use mathlib.Core.List.{lookup}
use gauth_py.Base.{
  ℕ, suc, ◌+◌, ◌≤◌, ◌<◌, ◌≡◌, refl, ◌∙◌, subst, ◌≢◌, ◌↔◌, true, List, [], ◌∷◌, some, inl, inr,
  length, map, Bool-cases, if◌then◌else◌, arith,
}
use gauth_py.Base.Dict.{contains, insert, length-insert-le, lookup-insert}
use gauth_py.Resources.{ServiceType_discrete, ServiceConfig}
use gauth_py.Resources.Sort.{
  Search, Outcome, done, circular, out_of_fuel, visit, visit_all, topological_sort, add_configs,
  config_map, blank,
}
use gauth_py.Resources.Sort.Order.{
  K, has, seen, Leads, IsKnown, IsOrdered, Leads-IsKnown, seen-IsClosed, nil-IsClosed,
}
use gauth_py.Resources.Sort.Visit.{
  fresh, IsSound, Visits, visit-Visits, Extends-rfl, and_then-Visits,
}

abbrev Kinded : List (K × ServiceConfig) → Type 0
Kinded m = (t : K) (c : ServiceConfig) → lookup ServiceType_discrete t m ≡ some c → c.kind ≡ t

add_configs-Kinded :
    (cs : List ServiceConfig) (m : List (K × ServiceConfig)) → Kinded m → Kinded (add_configs cs m)
unfolding add_configs
add_configs-Kinded [] m h = h
add_configs-Kinded (c ∷ cs) m h =
    add_configs-Kinded cs (insert ServiceType_discrete c.kind c m) (λ t d e.
      let at_t = lookup-insert ServiceType_discrete c.kind t c m in
      elim (ServiceType_discrete t c.kind) [ yes p ↦ ground arith | no n ↦ h t d (ground arith) ])

length-add_configs_le :
    (cs : List ServiceConfig) (m : List (K × ServiceConfig))
    → length (add_configs cs m) ≤ length cs + length m
unfolding add_configs
length-add_configs_le [] m = omega arith
length-add_configs_le (c ∷ cs) m = omega (
  arith,
  length-add_configs_le cs (insert ServiceType_discrete c.kind c m),
  length-insert-le ServiceType_discrete c.kind c m,
)

fresh-le_length : (m : List (K × ServiceConfig)) → fresh m [] ≤ length m
fresh-le_length [] = omega arith
fresh-le_length ((k, c) ∷ m) = omega (arith, fresh-le_length m)

abbrev pub kinds : List ServiceConfig → List K
kinds = map (λ c. c.kind)

module _ (m : List (K × ServiceConfig)) (kinded : Kinded m) (fuel : ℕ)
    (enough : fresh m [] < fuel) where
  one-Visits :
      (c : ServiceConfig) (s : Search)
      → s.temp_visited ≡ []
      → IsSound m s
      → Visits m (c.kind ∷ []) s (if has c.kind s.visited then done s else visit m fuel c.kind s)
  one-Visits c s p h = elim (Bool-cases (has c.kind s.visited)) [
    | inl old ↦ rw old (Extends-rfl m s h, λ u x k. ground arith)
    | inr new ↦ rw new (visit-Visits m kinded fuel c.kind s (rw p enough) h (λ u x. cc (p, x)))
  ]

  visit_all-Visits :
      (cs : List ServiceConfig) (s : Search)
      → s.temp_visited ≡ []
      → IsSound m s
      → Visits m (kinds cs) s (visit_all m fuel cs s)
  unfolding visit_all
  visit_all-Visits [] s p h = (Extends-rfl m s h, λ u x k. cc x)
  visit_all-Visits (c ∷ cs) s p h =
      and_then-Visits m c.kind (kinds cs) s (visit_all m fuel cs)
        (if has c.kind s.visited then done s else visit m fuel c.kind s) (one-Visits c s p h)
        (λ s' x. visit_all-Visits cs s' (x.path ∙ p) x.sound)

has-seen :
    (t : K) (before : List K) (cs : List ServiceConfig)
    → has t (seen before cs) ≡ (if has t (kinds cs) then true else has t before)
has-seen t before [] = refl
has-seen t before (c ∷ cs) = elim (ServiceType_discrete t c.kind) [
  | yes p ↦ ground (arith, has-seen t (c.kind ∷ before) cs)
  | no n ↦ ground (arith, has-seen t (c.kind ∷ before) cs)
]

contains-add_configs :
    (t : K) (cs : List ServiceConfig) (m : List (K × ServiceConfig))
    → contains ServiceType_discrete t (add_configs cs m)
      ≡ (if has t (kinds cs) then true else contains ServiceType_discrete t m)
unfolding add_configs contains
contains-add_configs t [] m = refl
contains-add_configs t (c ∷ cs) m =
    let ih = contains-add_configs t cs (insert ServiceType_discrete c.kind c m) in
    let at_t = lookup-insert ServiceType_discrete c.kind t c m in
    elim (ServiceType_discrete t c.kind) [ yes p ↦ ground arith | no n ↦ ground arith ]

-- All members of a sorted list have a configuration.
IsOrdered-IsKnown :
    (m : List (K × ServiceConfig)) (before : List K) (cs : List ServiceConfig) (t : K)
    → IsOrdered m before cs
    → has t (kinds cs) ≡ true
    → IsKnown m t
unfolding contains
IsOrdered-IsKnown m before [] t o h = cc h
IsOrdered-IsKnown m before (c ∷ cs) t o h = elim (ServiceType_discrete t c.kind) [
  | yes p ↦ let e = o.0.1.0 in ground arith
  | no n ↦ IsOrdered-IsKnown m (c.kind ∷ before) cs t o.1 (ground arith)
]

module _ (configs : List ServiceConfig) where
  abbrev m : List (K × ServiceConfig)
  m = config_map configs

  config_map-Kinded : Kinded m
  unfolding lookup
  config_map-Kinded = add_configs-Kinded configs [] (λ t c e. cc e)

  enough : fresh m [] < suc (length configs)
  enough = omega (arith, fresh-le_length m, length-add_configs_le configs [])

  blank-IsSound : IsSound m blank
  blank-IsSound = record { listed = refl; ordered = tt }

  abbrev Answers : Outcome (List ServiceConfig) → Type 0
  Answers (done cs) = IsOrdered m [] cs × ((t : K) → has t (kinds cs) ≡ has t (kinds configs))
  Answers (circular u) = Leads m u u
  Answers out_of_fuel = ⊥

  done-Answers : (s : Search) → Visits m (kinds configs) blank (done s) → Answers (done s.result)
  unfolding contains lookup
  done-Answers s q = (
    q.0.sound.ordered,
    λ t.
        let ordered = has-seen t [] s.result in
        let known = contains-add_configs t configs [] in
        let listed = q.0.sound.listed in
        elim (Bool-cases (has t (kinds s.result))) [
          | inl old ↦
              let k = IsOrdered-IsKnown m [] s.result t q.0.sound.ordered old in ground arith
          | inr new ↦ elim (Bool-cases (has t (kinds configs))) [
            | inl given ↦ let v = q.1 t given (ground arith) in ground arith
            | inr not_given ↦ ground arith
          ]
        ],
  )

  topological_sort-Answers : Answers (topological_sort configs)
  unfolding topological_sort
  topological_sort-Answers = go _ (
      visit_all-Visits m config_map-Kinded (suc (length configs)) enough configs blank refl
        blank-IsSound)
    where
      go :
          (o : Outcome Search)
          → Visits m (kinds configs) blank o
          → Answers (elim o [
            | done s ↦ done s.result
            | circular t ↦ circular t
            | out_of_fuel ↦ out_of_fuel
          ])
      go (done s) q = done-Answers s q
      go (circular u) q = q
      go out_of_fuel q = q

  -- The recursion of the sort ends: its depth is at most the number of configurations and one.
  pub topological_sort_ends : topological_sort configs ≢ out_of_fuel
  topological_sort_ends e = subst Answers e topological_sort-Answers

  -- What the sort gives has each configured service once, with its last configuration, and after
  -- each of its dependencies that has a configuration.
  pub topological_sort-IsOrdered :
      (out : List ServiceConfig)
      → topological_sort configs ≡ done out
      → IsOrdered m [] out × ((t : K) → has t (kinds out) ≡ has t (kinds configs))
  topological_sort-IsOrdered out e = subst Answers e topological_sort-Answers

  known-seen :
      (t : K) (out : List ServiceConfig)
      → IsKnown m t
      → ((u : K) → has u (kinds out) ≡ has u (kinds configs))
      → has t (seen [] out) ≡ true
  unfolding contains lookup
  known-seen t out k same =
      ground (arith, has-seen t [] out, contains-add_configs t configs [], same t)

  -- The sort raises exactly if some service leads to itself by way of its dependencies.
  pub topological_sort_circular_iff :
      ((t : K) × (topological_sort configs ≡ circular t)) ↔ ((t : K) × Leads m t t)
  topological_sort_circular_iff = (
    (λ x. (x.0, subst Answers x.1 topological_sort-Answers)),
    (λ x. go x.0 x.1 (topological_sort configs) topological_sort-Answers refl),
  )
    where
      go :
          (t : K)
          → Leads m t t
          → (o : Outcome (List ServiceConfig)) → Answers o
          → topological_sort configs ≡ o
          → (u : K) × (topological_sort configs ≡ circular u)
      go t l (circular u) q e = (u, e)
      go t l out_of_fuel q e = absurd q
      go t l (done out) q e = absurd (
          (seen-IsClosed m [] out (nil-IsClosed m) q.0).no_loop t
            (known-seen t out (Leads-IsKnown m l) q.1) l)
