-- ===== src/Resources/Manager/Loading.antt =====
-- gauth/resources/manager.py: what `start` registers, and when services can be unregistered.
use mathlib.Core.List.{lookup}
use gauth_py.Base.{
  ℕ, ◌≡◌, refl, subst, Bool, true, List, [], ◌∷◌, none, some, if◌then◌else◌, arith, inl, inr,
  Bool-cases, All,
}
use gauth_py.Base.Dict.{insert, contains, lookup-insert}
use gauth_py.Resources.{ServiceType_discrete, ServiceConfig, save, load, list_configs}
use gauth_py.Resources.Sort.{
  done, circular, out_of_fuel, topological_sort, Outcome, add_configs, config_map,
}
use gauth_py.Resources.Sort.Order.{K, has, Leads, IsOrdered}
use gauth_py.Resources.Sort.Correct.{
  kinds, topological_sort_ends, topological_sort-IsOrdered, topological_sort_circular_iff,
}
use gauth_py.Resources.Manager.{
  ResourceManager, check_dependencies, validate_config, registered, new_state, register_service,
  register_all, load_configurations,
}
use gauth_py.Resources.Manager.Invariant.{contains-insert}

-- The configuration can be registered where `stored` says which dependencies the store has.
abbrev pub IsLoadable : (K → Bool) → ServiceConfig → Type 0
IsLoadable stored c =
    (validate_config c ≡ none) × ((d : K) → has d c.dependencies ≡ true → stored d ≡ true)

abbrev pub stored_in : ResourceManager → K → Bool
stored_in r d = contains ServiceType_discrete d r.config_store

abbrev pub is_registered : K → ResourceManager → Bool
is_registered t r = contains ServiceType_discrete t r.services

check_dependencies-none :
    (deps : List K) (r : ResourceManager)
    → ((d : K) → has d deps ≡ true → stored_in r d ≡ true)
    → check_dependencies deps r ≡ none
unfolding check_dependencies contains load
check_dependencies-none [] r h = refl
check_dependencies-none (dep ∷ deps) r h =
    let first = h dep (ground arith) in
    let rest = check_dependencies-none deps r (λ d e. h d (ground arith)) in ground arith

register_service-eq-registered :
    (c : ServiceConfig) (now : ℕ) (r : ResourceManager)
    → IsLoadable (stored_in r) c
    → register_service c now r ≡ (none, registered c now r)
unfolding register_service
register_service-eq-registered c now r h =
    rw (register_service, h.0, check_dependencies-none c.dependencies r h.1) refl

registered-keeps :
    (c : ServiceConfig) (now : ℕ) (r : ResourceManager) (t : K)
    → is_registered t r ≡ true
    → is_registered t (registered c now r) ≡ true
unfolding registered
registered-keeps c now r t h = ground (arith, contains-insert c.kind t (new_state c now) r.services)

registered-here :
    (c : ServiceConfig) (now : ℕ) (r : ResourceManager)
    → is_registered c.kind (registered c now r) ≡ true
unfolding registered
registered-here c now r = ground (arith, contains-insert c.kind c.kind (new_state c now) r.services)

registered-stored :
    (c : ServiceConfig) (now : ℕ) (r : ResourceManager) (t : K)
    → stored_in r t ≡ true
    → stored_in (registered c now r) t ≡ true
unfolding registered save
registered-stored c now r t h =
    ground (arith, contains-insert c.kind t (record c { updated_at = now }) r.config_store)

IsLoadable-mono :
    (r s : ResourceManager) (cs : List ServiceConfig)
    → ((t : K) → stored_in r t ≡ true → stored_in s t ≡ true)
    → All (IsLoadable (stored_in r)) cs
    → All (IsLoadable (stored_in s)) cs
IsLoadable-mono r s [] g h = tt
IsLoadable-mono r s (c ∷ cs) g h = ((h.0.0, λ d e. g d (h.0.1 d e)), IsLoadable-mono r s cs g h.1)

register_all-registers :
    (cs : List ServiceConfig) (now : ℕ) (r : ResourceManager) (t : K)
    → All (IsLoadable (stored_in r)) cs
    → (if is_registered t r then true else has t (kinds cs)) ≡ true
    → is_registered t (register_all cs now r) ≡ true
unfolding register_all
register_all-registers [] now r t h e = ground arith
register_all-registers (c ∷ cs) now r t h e =
    let next = IsLoadable-mono r (registered c now r) cs (registered-stored c now r) h.1 in
    rw (register_all, register_service-eq-registered c now r h.0)
      (register_all-registers cs now (registered c now r) t next
        (elim (Bool-cases (is_registered t r)) [
          | inl old ↦ rw (registered-keeps c now r t old) refl
          | inr new ↦ elim (ServiceType_discrete t c.kind) [
            | yes p ↦ let here = registered-here c now r in ground arith
            | no n ↦ elim (Bool-cases (is_registered t (registered c now r))) [
              | inl x ↦ ground arith
              | inr x ↦ ground arith
            ]
          ]
        ]))

-- What holds of all configurations holds of what the map keeps of them.
add_configs-All :
    (P : ServiceConfig → Type 0) (cs : List ServiceConfig) (m : List (K × ServiceConfig)) (t : K)
    (c : ServiceConfig)
    → All P cs
    → (lookup ServiceType_discrete t m ≡ some c → P c)
    → lookup ServiceType_discrete t (add_configs cs m) ≡ some c
    → P c
unfolding add_configs
add_configs-All P [] m t c h g e = g e
add_configs-All P (d ∷ cs) m t c h g e =
    add_configs-All P cs (insert ServiceType_discrete d.kind d m) t c h.1
      (λ x.
        let looked = lookup-insert ServiceType_discrete d.kind t d m in
        elim (ServiceType_discrete t d.kind) [
          | yes p ↦ let same : d ≡ c = ground arith in subst P same h.0
          | no n ↦ g (ground arith)
        ])
      e

IsOrdered-All :
    (P : ServiceConfig → Type 0) (m : List (K × ServiceConfig)) (before : List K)
    (cs : List ServiceConfig)
    → ((t : K) (c : ServiceConfig) → lookup ServiceType_discrete t m ≡ some c → P c)
    → IsOrdered m before cs
    → All P cs
IsOrdered-All P m before [] g o = tt
IsOrdered-All P m before (c ∷ cs) g o =
    (g c.kind c o.0.1.0, IsOrdered-All P m (c.kind ∷ before) cs g o.1)

module _ (now : ℕ) (r : ResourceManager) where
  abbrev configs : List ServiceConfig
  configs = list_configs r.config_store

  -- Over a store of valid configurations that has the dependencies of each and no service that
  -- leads to itself, loading raises nothing and registers every stored service.
  pub load_configurations-All :
      All (IsLoadable (stored_in r)) configs
      → ¬ ((t : K) × Leads (config_map configs) t t)
      → ((load_configurations now r).0 ≡ none)
        × ((t : K)
            → has t (kinds configs) ≡ true
            → is_registered t (load_configurations now r).1 ≡ true)
  unfolding load_configurations lookup
  load_configurations-All h n = go (topological_sort configs) refl
    where
      go :
          (o : Outcome (List ServiceConfig))
          → topological_sort configs ≡ o
          → ((load_configurations now r).0 ≡ none)
            × ((t : K)
                → has t (kinds configs) ≡ true
                → is_registered t (load_configurations now r).1 ≡ true)
      go (circular t) e = absurd (n ((topological_sort_circular_iff configs).0 (t, e)))
      go out_of_fuel e = absurd (topological_sort_ends configs e)
      go (done out) e =
          let (ordered, same) = topological_sort-IsOrdered configs out e in
          let loadable : All (IsLoadable (stored_in r)) out =
            IsOrdered-All (IsLoadable (stored_in r)) (config_map configs) [] out
              (λ t c x. add_configs-All (IsLoadable (stored_in r)) configs [] t c h (λ y. cc y) x)
              ordered in
          rw (load_configurations, e)
            (
              refl,
              λ t x.
                  register_all-registers out now r t loadable
                    (elim (Bool-cases (is_registered t r)) [
                      | inl y ↦ ground arith
                      | inr y ↦ let at_t = same t in ground arith
                    ]),
            )
