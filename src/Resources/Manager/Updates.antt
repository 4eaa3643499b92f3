-- ===== src/Resources/Manager/Updates.antt =====
-- gauth/resources/manager.py: calls that only change the state of one service keep what
-- `IsConsistent` says, and so does every run of calls.
use mathlib.Core.List.{lookup}
use gauth_py.Base.{
  ℕ, ◌≡◌, refl, sym, ◌∙◌, subst, Bool, true, false, List, [], ◌∷◌, none, some, arith, inl, inr,
  Bool-cases, Option-cases,
}
use gauth_py.Base.Dict.{insert, contains, lookup-insert, lookup-insert_same, lookup-insert_other}
use gauth_py.Base.Sets.{get_set}
use gauth_py.Resources.{
  ServiceType_discrete, ServiceStatus, ServiceConfig, ServiceMetrics, save, Configs, unhealthy,
}
use gauth_py.Resources.Sort.{done, circular, out_of_fuel, topological_sort, Outcome}
use gauth_py.Resources.Sort.Order.{K, has}
use gauth_py.Resources.Manager.{
  ResourceManager, ServiceState, init, register_all, load_configurations, start, stop,
  circular_dependency, recursion_error, list_configs, register_service,
}
use gauth_py.Resources.Manager.Status.{
  with_status, update_service_status, status_of, has_status, with_metrics, update_metrics, is_stale,
  check_all, perform_health_checks, Call, register, unregister, update_status, measure, monitor,
  begin, halt, serve, serve_all,
}
use gauth_py.Resources.Manager.Invariant.{
  IsServed, Leaves, IsConsistent, register_service-IsConsistent, unregister_service-IsConsistent,
}

-- `r'` differs from `r` in the state of `t` at most, whose dependencies are what they were.
record Rewrites (t : K) (st st' : ServiceState) (r r' : ResourceManager) : Type 0 where
  graph : r'.dependency_graph ≡ r.dependency_graph
  reverse : r'.reverse_dependencies ≡ r.reverse_dependencies
  services : r'.services ≡ insert ServiceType_discrete t st' r.services
  here : lookup ServiceType_discrete t r'.config_store ≡ some st'.config
  there :
      (a : K)
      → ¬ (a ≡ t)
      → lookup ServiceType_discrete a r'.config_store ≡ lookup ServiceType_discrete a r.config_store
  kind : st'.config.kind ≡ t
  deps : st'.config.dependencies ≡ st.config.dependencies
  same_status : st'.config.status ≡ st'.status

module _ (t : K) (st st' : ServiceState) (r r' : ResourceManager) (h : IsConsistent r)
    (e : lookup ServiceType_discrete t r.services ≡ some st) (w : Rewrites t st st' r r') where
  still-stored :
      (d : K)
      → contains ServiceType_discrete d r.config_store ≡ true
      → contains ServiceType_discrete d r'.config_store ≡ true
  unfolding contains
  still-stored d x = elim (ServiceType_discrete d t) [
    | yes p ↦ let here = w.here in ground arith
    | no n ↦ let there = w.there d n in ground arith
  ]

  here-IsServed : IsServed r' t st'
  here-IsServed =
      let old = h.served t st e in
      record {
        kind = w.kind;
        same_status = w.same_status;
        stored = w.here;
        linked = λ d x. rw w.graph (old.linked d (subst (λ l. has d l ≡ true) w.deps x));
        available = λ d x. still-stored d (old.available d (subst (λ l. has d l ≡ true) w.deps x));
      }

  there-IsServed : (a : K) (s : ServiceState) → ¬ (a ≡ t) → IsServed r a s → IsServed r' a s
  there-IsServed a s n o = record {
    kind = o.kind;
    same_status = o.same_status;
    stored = w.there a n ∙ o.stored;
    linked = λ d x. rw w.graph (o.linked d x);
    available = λ d x. still-stored d (o.available d x);
  }

  Rewrites-IsConsistent : IsConsistent r'
  Rewrites-IsConsistent = record {
    inverse = λ a b. rw (w.graph, w.reverse) (h.inverse a b);
    served = λ a s x.
        let looked = lookup-insert ServiceType_discrete t a st' r.services in
        let services = w.services in
        elim (ServiceType_discrete a t) [
          | yes p ↦
              let same : st' ≡ s = ground arith in
              subst (λ y. IsServed r' y s) (sym p) (subst (IsServed r' t) same here-IsServed)
          | no n ↦ there-IsServed a s n (h.served a s (ground arith))
        ];
  }

module _ (t : K) (st : ServiceState) (r : ResourceManager) (h : IsConsistent r)
    (e : lookup ServiceType_discrete t r.services ≡ some st) where
  abbrev restated : ServiceStatus → ℕ → ResourceManager
  restated status now = record r {
    services = insert ServiceType_discrete t (with_status status now st) r.services;
    config_store = save (with_status status now st).config now r.config_store;
  }

  restated-IsConsistent : (status : ServiceStatus) (now : ℕ) → IsConsistent (restated status now)
  unfolding with_status save
  restated-IsConsistent status now =
      let kind = (h.served t st e).kind in
      let saved : ServiceConfig = record st.config { status = status; updated_at = now } in
      Rewrites-IsConsistent t st (with_status status now st) r (restated status now) h e (record {
        graph = refl;
        reverse = refl;
        services = refl;
        here =
            subst
              (λ x.
                lookup ServiceType_discrete x
                  (insert ServiceType_discrete st.config.kind saved r.config_store)
                ≡ some saved)
              kind (lookup-insert_same ServiceType_discrete st.config.kind saved r.config_store);
        there = λ a n.
            lookup-insert_other ServiceType_discrete st.config.kind a saved r.config_store
              (λ p. n (p ∙ kind));
        kind = kind;
        deps = refl;
        same_status = refl;
      })

  abbrev measured : ServiceMetrics → ℕ → ResourceManager
  measured metrics now = record r {
    services = insert ServiceType_discrete t (with_metrics metrics now st) r.services;
  }

  measured-IsConsistent : (metrics : ServiceMetrics) (now : ℕ) → IsConsistent (measured metrics now)
  unfolding with_metrics
  measured-IsConsistent metrics now =
      let old = h.served t st e in
      Rewrites-IsConsistent t st (with_metrics metrics now st) r (measured metrics now) h e
        (record {
          graph = refl;
          reverse = refl;
          services = refl;
          here = old.stored;
          there = λ a n. refl;
          kind = old.kind;
          deps = refl;
          same_status = old.same_status;
        })

pub update_service_status-IsConsistent :
    (t : K) (status : ServiceStatus) (now : ℕ) (r : ResourceManager)
    → IsConsistent r
    → IsConsistent (update_service_status t status now r).1
unfolding update_service_status
update_service_status-IsConsistent t status now r h =
    elim (Option-cases (lookup ServiceType_discrete t r.services)) [
      | inl e ↦ rw (update_service_status, e) h
      | inr (st, e) ↦ rw (update_service_status, e) (restated-IsConsistent t st r h e status now)
    ]

update_metrics-IsConsistent :
    (t : K) (metrics : ServiceMetrics) (now : ℕ) (r : ResourceManager)
    → IsConsistent r
    → IsConsistent (update_metrics t metrics now r).1
unfolding update_metrics
update_metrics-IsConsistent t metrics now r h =
    elim (Option-cases (lookup ServiceType_discrete t r.services)) [
      | inl e ↦ rw (update_metrics, e) h
      | inr (st, e) ↦
          let kept = measured-IsConsistent t st r h e metrics now in
          elim (Bool-cases (has_status (status_of metrics) st)) [
            | inl same ↦ rw (update_metrics, e, same) kept
            | inr other ↦
                rw (update_metrics, e, other)
                  (update_service_status-IsConsistent t (status_of metrics) now
                    (measured t st r h e metrics now) kept)
          ]
    ]

check_all-IsConsistent :
    (rest : List (K × ServiceState)) (now : ℕ) (r : ResourceManager)
    → IsConsistent r
    → IsConsistent (check_all rest now r)
unfolding check_all
check_all-IsConsistent [] now r h = h
check_all-IsConsistent ((t, st) ∷ rest) now r h = elim (Bool-cases (is_stale st now)) [
  | inl stale ↦ rw stale (
      check_all-IsConsistent rest now (update_service_status t unhealthy now r).1
        (update_service_status-IsConsistent t unhealthy now r h))
  | inr fresh ↦ rw fresh (check_all-IsConsistent rest now r h)
]

register_all-IsConsistent :
    (cs : List ServiceConfig) (now : ℕ) (r : ResourceManager)
    → IsConsistent r
    → IsConsistent (register_all cs now r)
unfolding register_all
register_all-IsConsistent [] now r h = h
register_all-IsConsistent (c ∷ cs) now r h =
    register_all-IsConsistent cs now (register_service c now r).1
      (register_service-IsConsistent c now r h)

load_configurations-IsConsistent :
    (now : ℕ) (r : ResourceManager) → IsConsistent r → IsConsistent (load_configurations now r).1
unfolding load_configurations
load_configurations-IsConsistent now r h = go (topological_sort (list_configs r.config_store))
  where
    go :
        (o : Outcome (List ServiceConfig))
        → Leaves (elim o [
          | done cs ↦ (none, register_all cs now r)
          | circular t ↦ (some (circular_dependency t), r)
          | out_of_fuel ↦ (some recursion_error, r)
        ])
    go (done cs) = register_all-IsConsistent cs now r h
    go (circular t) = h
    go out_of_fuel = h

running-IsConsistent :
    (b : Bool) (r : ResourceManager) → IsConsistent r → IsConsistent (record r { running = b })
running-IsConsistent b r h = record {
  inverse = h.inverse;
  served = λ t st e.
      let s = h.served t st e in
      record {
        kind = s.kind;
        same_status = s.same_status;
        stored = s.stored;
        linked = s.linked;
        available = s.available;
      };
}

serve-IsConsistent :
    (call : Call) (now : ℕ) (r : ResourceManager) → IsConsistent r → IsConsistent (serve call now r)
unfolding serve start stop perform_health_checks
serve-IsConsistent (register c) now r h = register_service-IsConsistent c now r h
serve-IsConsistent (unregister t) now r h = unregister_service-IsConsistent t r h
serve-IsConsistent (update_status t status) now r h =
    update_service_status-IsConsistent t status now r h
serve-IsConsistent (measure t metrics) now r h = update_metrics-IsConsistent t metrics now r h
serve-IsConsistent monitor now r h = check_all-IsConsistent r.services now r h
serve-IsConsistent begin now r h =
    load_configurations-IsConsistent now (record r { running = true })
      (running-IsConsistent true r h)
serve-IsConsistent halt now r h = running-IsConsistent false r h

serve_all-IsConsistent :
    (calls : List (Call × ℕ)) (r : ResourceManager)
    → IsConsistent r
    → IsConsistent (serve_all calls r)
unfolding serve_all
serve_all-IsConsistent [] r h = h
serve_all-IsConsistent ((call, now) ∷ calls) r h =
    serve_all-IsConsistent calls (serve call now r) (serve-IsConsistent call now r h)

-- After any calls on a new manager, over any store, each registered service has the same
-- configuration and status in the store, each of its dependencies has a configuration in the store
-- and is in the graph, and the two graphs are each other's reverse.
pub serve_all-init-IsConsistent :
    (calls : List (Call × ℕ)) (config_store : Configs)
    → IsConsistent (serve_all calls (init config_store))
unfolding init lookup get_set
serve_all-init-IsConsistent calls config_store =
    serve_all-IsConsistent calls (init config_store)
      (record { inverse = λ a b. refl; served = λ t st e. cc e })
