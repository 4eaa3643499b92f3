-- ===== src/Resources/Tests.antt =====
-- Runs of the sort and of the manager, and the theorems at concrete inputs.
use gauth_py.Resources.Manager.{validate_config}
use gauth_py.Base.Dict.{contains}
use mathlib.Core.List.{lookup}
use gauth_py.Base.{ℕ, ◌≡◌, ◌≢◌, ◌↔◌, refl, true, false, List, [], ◌∷◌, none, some, All}
use gauth_py.Base.Int.{pos}
use gauth_py.Base.Dict.{IsDict}
use gauth_py.Resources.{
  ServiceType, auth, user, order, payment, inventory, ServiceType_discrete, ServiceStatus, healthy,
  unhealthy, ServiceConfig, ServiceMetrics, Configs, save, list_configs,
}
use gauth_py.Resources.Sort.{
  visit, add_configs, topological_sort, done, circular, out_of_fuel, config_map,
}
use gauth_py.Resources.Sort.Order.{K, has, Leads, IsOrdered}
use gauth_py.Resources.Sort.Correct.{
  kinds, topological_sort_ends, topological_sort-IsOrdered, topological_sort_circular_iff,
}
use gauth_py.Resources.Manager.{
  ResourceManager, ServiceState, new_state, init, unregister_service, load_configurations,
  depended_on, neighbours,
}
use gauth_py.Resources.Manager.Status.{Call, register, serve_all}
use gauth_py.Resources.Manager.Invariant.{IsConsistent}
use gauth_py.Resources.Manager.Updates.{serve_all-init-IsConsistent}
use gauth_py.Resources.Manager.Loading.{
  IsLoadable, stored_in, is_registered, load_configurations-All,
}
use gauth_py.Resources.Manager.Removal.{unregister_service_iff}

abbrev config : ServiceType → List ServiceType → ServiceConfig
config t deps = record {
  kind = t;
  name = "service";
  version = "1.0.0";
  dependencies = deps;
  status = healthy;
  circuit_breaker = record {
    error_threshold = 10;
    reset_timeout = 30_000_000;
    half_open_calls = 5;
  };
  rate_limit = record { requests_per_second = 100_000; burst_size = 20; window_size = 60 };
  bulkhead = record { max_concurrent = 10; queue_size = 100 };
  retry = record { max_attempts = 3; backoff_base = 1_000_000; max_backoff = 30_000_000 };
  max_concurrency = pos 100;
  timeout = pos 30_000_000;
  tags = [];
  created_at = 0;
  updated_at = 0;
}

abbrev shop : List ServiceConfig
shop =
    config order (payment ∷ user ∷ [])
    ∷ config payment (auth ∷ [])
    ∷ config user (auth ∷ [])
    ∷ config auth []
    ∷ []

abbrev ring : List ServiceConfig
ring = config order (payment ∷ []) ∷ config payment (order ∷ []) ∷ []

shop_sorted :
    topological_sort shop
    ≡ done (
        config auth []
        ∷ config payment (auth ∷ [])
        ∷ config user (auth ∷ [])
        ∷ config order (payment ∷ user ∷ [])
        ∷ [])
unfolding topological_sort visit add_configs ServiceType_discrete
shop_sorted = refl

ring_circular : topological_sort ring ≡ circular order
unfolding topological_sort visit add_configs ServiceType_discrete
ring_circular = refl

abbrev sorted_shop : List ServiceConfig
sorted_shop =
    config auth []
    ∷ config payment (auth ∷ [])
    ∷ config user (auth ∷ [])
    ∷ config order (payment ∷ user ∷ [])
    ∷ []

topological_sort_ends_example : topological_sort ring ≢ out_of_fuel
topological_sort_ends_example = topological_sort_ends ring

topological_sort-IsOrdered_example :
    IsOrdered (config_map shop) [] sorted_shop
    × ((t : K) → has t (kinds sorted_shop) ≡ has t (kinds shop))
topological_sort-IsOrdered_example = topological_sort-IsOrdered shop sorted_shop shop_sorted

topological_sort_circular_iff_example :
    ((t : K) × (topological_sort ring ≡ circular t)) ↔ ((t : K) × Leads (config_map ring) t t)
topological_sort_circular_iff_example = topological_sort_circular_iff ring

abbrev disk : Configs
disk = (payment, config payment (auth ∷ [])) ∷ (auth, config auth []) ∷ []

disk_sorted :
    topological_sort (list_configs disk) ≡ done (config auth [] ∷ config payment (auth ∷ []) ∷ [])
unfolding topological_sort list_configs gauth_py.Resources.Sort.visit
    gauth_py.Resources.Sort.add_configs ServiceType_discrete
disk_sorted = refl

disk_acyclic : ¬ ((t : K) × Leads (config_map (list_configs disk)) t t)
disk_acyclic x = cc (disk_sorted, ((topological_sort_circular_iff (list_configs disk)).1 x).1)

needs_auth : (d : ServiceType) → has d (auth ∷ []) ≡ true → stored_in (init disk) d ≡ true
unfolding ServiceType_discrete contains init
needs_auth auth e = refl
needs_auth user e = cc e
needs_auth order e = cc e
needs_auth payment e = refl
needs_auth inventory e = cc e

disk-IsLoadable : All (IsLoadable (stored_in (init disk))) (list_configs disk)
unfolding list_configs validate_config
disk-IsLoadable = ((refl, needs_auth), ((refl, λ d e. cc e), tt))

load_configurations-All_example :
    ((load_configurations 7 (init disk)).0 ≡ none)
    × ((t : K)
        → has t (kinds (list_configs disk)) ≡ true
        → is_registered t (load_configurations 7 (init disk)).1 ≡ true)
unfolding init
load_configurations-All_example = load_configurations-All 7 (init disk) disk-IsLoadable disk_acyclic

-- A service is registered with a dependency and again without it.
abbrev calls : List (Call × ℕ)
calls =
    (register (config auth []), 1)
    ∷ (register (config payment (auth ∷ [])), 2)
    ∷ (register (config payment []), 3)
    ∷ []

serve_all-init-IsConsistent_example : IsConsistent (serve_all calls (init []))
serve_all-init-IsConsistent_example = serve_all-init-IsConsistent calls []

-- The old edge remains: nothing depends on `auth` any more, and yet it cannot be unregistered.
stale_edge :
    (unregister_service auth (serve_all calls (init []))).0 ≡ some (depended_on auth (payment ∷ []))
unfolding unregister_service serve_all init ServiceType_discrete
stale_edge = refl

unregister_service_iff_example :
    ((unregister_service payment (serve_all calls (init []))).0 ≡ none) ↔ (
      (is_registered payment (serve_all calls (init [])) ≡ true)
      × ((a : K) → has payment (neighbours a (serve_all calls (init [])).dependency_graph) ≡ false))
unregister_service_iff_example =
    unregister_service_iff payment (serve_all calls (init []))
      (serve_all-init-IsConsistent calls [])

payment_removed : (unregister_service payment (serve_all calls (init []))).0 ≡ none
unfolding unregister_service serve_all init ServiceType_discrete
payment_removed = refl

abbrev watched : ResourceManager
watched = serve_all ((register (config auth []), 1) ∷ []) (init [])

abbrev auth_state : ServiceState
auth_state = new_state (config auth []) 1

watched_IsDict : IsDict ServiceType_discrete watched.services
unfolding serve_all init
watched_IsDict = (refl, tt)

watched_auth : lookup ServiceType_discrete auth watched.services ≡ some auth_state
unfolding lookup serve_all init ServiceType_discrete
watched_auth = refl
