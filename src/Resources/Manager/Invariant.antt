-- ===== src/Resources/Manager/Invariant.antt =====
-- gauth/resources/manager.py: what every call of `ResourceManager` keeps.
use mathlib.Core.List.{lookup}
use gauth_py.Base.{
  ℕ, ◌≡◌, refl, sym, ◌∙◌, subst, Bool, true, false, List, [], ◌∷◌, Option, none, some, ite,
  if◌then◌else◌, not, arith, inl, inr, Option-cases,
}
use gauth_py.Base.Dict.{
  insert, contains, lookup-insert, lookup-insert_same, lookup-insert_other, lookup-remove,
}
use gauth_py.Resources.{ServiceType_discrete, ServiceConfig, save, delete, Configs}
use gauth_py.Resources.Sort.Order.{K, has}
use gauth_py.Resources.Manager.{
  ResourceManager, ManagerError, service_not_found, depended_on, ServiceState, neighbours,
  check_dependencies, validate_config, new_state, registered, register_service, unregistered,
  unregister_service,
}
use gauth_py.Resources.Manager.Links.{
  has-link, has-link_back, has-unlink, neighbours-remove, check_dependencies_lem,
}

-- What is known of the state `st` of the registered service `t`.
pub record IsServed (r : ResourceManager) (t : K) (st : ServiceState) : Type 0 where
  pub kind : st.config.kind ≡ t
  pub same_status : st.config.status ≡ st.status
  pub stored : lookup ServiceType_discrete t r.config_store ≡ some st.config
  pub linked :
      (d : K) → has d st.config.dependencies ≡ true → has d (neighbours t r.dependency_graph) ≡ true
  pub available :
      (d : K)
      → has d st.config.dependencies ≡ true
      → contains ServiceType_discrete d r.config_store ≡ true

-- The two graphs are each other's reverse, and each registered service has its configuration in
-- the store, its dependencies in the graph, and configurations for all of these in the store.
pub record IsConsistent (r : ResourceManager) : Type 0 where
  pub inverse :
      (a b : K)
      → has b (neighbours a r.dependency_graph) ≡ has a (neighbours b r.reverse_dependencies)
  pub served :
      (t : K) (st : ServiceState)
      → lookup ServiceType_discrete t r.services ≡ some st
      → IsServed r t st

abbrev pub Leaves : Option ManagerError × ResourceManager → Type 0
Leaves answer = IsConsistent answer.1

pub contains-insert :
    {V : Type 0} (k j : K) (v : V) (m : List (K × V))
    → contains ServiceType_discrete j (insert ServiceType_discrete k v m)
      ≡ ite (ServiceType_discrete j k) true (contains ServiceType_discrete j m)
unfolding contains
contains-insert k j v m = elim (ServiceType_discrete j k) [
  | yes p ↦ ground (arith, lookup-insert ServiceType_discrete k j v m)
  | no n ↦ ground (arith, lookup-insert ServiceType_discrete k j v m)
]

pub lookup-contains :
    {V : Type 0} (k : K) (v : V) (m : List (K × V))
    → lookup ServiceType_discrete k m ≡ some v
    → contains ServiceType_discrete k m ≡ true
unfolding contains
lookup-contains k v m e = ground arith

delete-other :
    (t a : K) (s : Configs)
    → ¬ (a ≡ t)
    → lookup ServiceType_discrete a (delete t s).1 ≡ lookup ServiceType_discrete a s
unfolding delete
delete-other t a s n = ground (arith, lookup-remove ServiceType_discrete t a s)

contains-delete_other :
    (t a : K) (s : Configs)
    → ¬ (a ≡ t)
    → contains ServiceType_discrete a (delete t s).1 ≡ contains ServiceType_discrete a s
unfolding contains
contains-delete_other t a s n = ground (arith, delete-other t a s n)

module _ (c : ServiceConfig) (now : ℕ) (r : ResourceManager) (h : IsConsistent r)
    (ok : check_dependencies c.dependencies r ≡ none) where
  dependency-stored :
      (d : K) → has d c.dependencies ≡ true → contains ServiceType_discrete d r.config_store ≡ true
  unfolding contains
  dependency-stored d e = elim (Option-cases (lookup ServiceType_discrete d r.services)) [
    | inl absent ↦ check_dependencies_lem c.dependencies r d ok e (ground arith)
    | inr (st, x) ↦ lookup-contains d st.config r.config_store (h.served d st x).stored
  ]

  still-stored :
      (d : K)
      → contains ServiceType_discrete d r.config_store ≡ true
      → contains ServiceType_discrete d (registered c now r).config_store ≡ true
  unfolding registered save
  still-stored d e =
      ground (arith, contains-insert c.kind d (record c { updated_at = now }) r.config_store)

  new-IsServed : IsServed (registered c now r) c.kind (new_state c now)
  unfolding registered save new_state
  new-IsServed = record {
    kind = refl;
    same_status = refl;
    stored =
        lookup-insert_same ServiceType_discrete c.kind (record c { updated_at = now })
          r.config_store;
    linked = λ d e. ground (
      arith,
      has-link c.kind c.dependencies (r.dependency_graph, r.reverse_dependencies) c.kind d,
    );
    available = λ d e. still-stored d (dependency-stored d e);
  }

  old-IsServed :
      (t : K) (st : ServiceState)
      → ¬ (t ≡ c.kind)
      → IsServed r t st
      → IsServed (registered c now r) t st
  unfolding registered save
  old-IsServed t st n o = record {
    kind = o.kind;
    same_status = o.same_status;
    stored =
        lookup-insert_other ServiceType_discrete c.kind t (record c { updated_at = now })
          r.config_store n
        ∙ o.stored;
    linked = λ d e.
        let old = o.linked d e in
        ground
          (arith, has-link c.kind c.dependencies (r.dependency_graph, r.reverse_dependencies) t d);
    available = λ d e. still-stored d (o.available d e);
  }

  registered-IsConsistent : IsConsistent (registered c now r)
  unfolding registered
  registered-IsConsistent = record {
    inverse = λ a b.
        has-link c.kind c.dependencies (r.dependency_graph, r.reverse_dependencies) a b
        ∙ rw (h.inverse a b) (
            sym (
              has-link_back c.kind c.dependencies (r.dependency_graph, r.reverse_dependencies) a
                b));
    served = λ t st e.
        let looked = lookup-insert ServiceType_discrete c.kind t (new_state c now) r.services in
        elim (ServiceType_discrete t c.kind) [
          | yes p ↦
              let same : new_state c now ≡ st = ground arith in
              subst (λ x. IsServed (registered c now r) x st) (sym p)
                (subst (IsServed (registered c now r) c.kind) same new-IsServed)
          | no n ↦ old-IsServed t st n (h.served t st (ground arith))
        ];
  }

pub register_service-IsConsistent :
    (c : ServiceConfig) (now : ℕ) (r : ResourceManager)
    → IsConsistent r
    → IsConsistent (register_service c now r).1
unfolding register_service
register_service-IsConsistent c now r h =
    go (validate_config c) (check_dependencies c.dependencies r) (registered-IsConsistent c now r h)
  where
    go :
        (v k : Option ManagerError)
        → (k ≡ none → IsConsistent (registered c now r))
        → Leaves (elim v [
          | some e ↦ (some e, r)
          | none ↦ elim k [ some e ↦ (some e, r) | none ↦ (none, registered c now r) ]
        ])
    go (some e) k f = h
    go none (some e) f = h
    go none none f = f refl

module _ (t : K) (r : ResourceManager) (h : IsConsistent r)
    (free : neighbours t r.reverse_dependencies ≡ []) where
  kept-IsServed :
      (a : K) (st : ServiceState) → ¬ (a ≡ t) → IsServed r a st → IsServed (unregistered t r) a st
  unfolding unregistered delete
  kept-IsServed a st n o = record {
    kind = o.kind;
    same_status = o.same_status;
    stored = delete-other t a r.config_store n ∙ o.stored;
    linked =
        λ d e. let old = o.linked d e in ground (arith, neighbours-remove t a r.dependency_graph);
    available = λ d e. elim (ServiceType_discrete d t) [
      | yes p ↦ let old = o.linked d e in let back = h.inverse a d in ground arith
      | no m ↦ contains-delete_other t d r.config_store m ∙ o.available d e
    ];
  }

  unregistered-IsConsistent : IsConsistent (unregistered t r)
  unfolding unregistered
  unregistered-IsConsistent = record {
    inverse = λ a b.
        let old = h.inverse a b in
        let removed = neighbours-remove t a r.dependency_graph in
        let unlinked = has-unlink t (neighbours t r.dependency_graph) r.reverse_dependencies a b in
        elim (ServiceType_discrete a t) [ yes p ↦ ground arith | no n ↦ ground arith ];
    served = λ a st e.
        let looked = lookup-remove ServiceType_discrete t a r.services in
        elim (ServiceType_discrete a t) [
          | yes p ↦ ground arith
          | no n ↦ kept-IsServed a st n (h.served a st (ground arith))
        ];
  }

pub unregister_service-IsConsistent :
    (t : K) (r : ResourceManager) → IsConsistent r → IsConsistent (unregister_service t r).1
unfolding unregister_service
unregister_service-IsConsistent t r h =
    go (contains ServiceType_discrete t r.services) (neighbours t r.reverse_dependencies)
      (unregistered-IsConsistent t r h)
  where
    go :
        (b : Bool) (ds : List K)
        → (ds ≡ [] → IsConsistent (unregistered t r))
        → Leaves (
            if not b then (some (service_not_found t), r) else elim ds [
              | [] ↦ (none, unregistered t r)
              | d ∷ ds ↦ (some (depended_on t (d ∷ ds)), r)
            ])
    go false ds f = h
    go true [] f = f refl
    go true (d ∷ ds) f = h
