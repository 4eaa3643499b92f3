-- ===== src/Resources/Manager.antt =====
-- gauth/resources/manager.py: `ResourceManager` over the store in memory. The state of a service
-- and the store hold the same configuration object, so what a call writes into the one is written
-- into both. One reading of the clock stands for those of one call. The monitoring task only
-- calls `perform_health_checks`.
pub mod Status
pub mod Links
pub mod Invariant
pub mod Updates
pub mod Loading
pub mod Removal
pub mod Monitoring
use mathlib.Core.List.{lookup}
use gauth_py.Base.{
  ℕ, Bool, true, false, not, List, [], ◌∷◌, map, Option, none, some, String, truthy, ltb, ite,
  length, keep, if◌then◌else◌, elem,
}
use gauth_py.Base.Int.{ℤ, ltb_ℤ, pos}
use gauth_py.Base.Dict.{insert, remove, contains, values}
use gauth_py.Base.Sets.{get_set, add_at, discard_at}
use gauth_py.Resources.{
  ServiceType, ServiceType_discrete, ServiceStatus, healthy, degraded, unhealthy,
  ServiceStatus_discrete, ServiceConfig, ServiceMetrics, is_healthy, is_degraded, Configs, load,
  save, list_configs, delete,
}
use gauth_py.Resources.Sort.{done, circular, out_of_fuel, topological_sort}

pub data ManagerError : Type 0 where
  service_not_found : ServiceType → ManagerError
  configuration_error : String → ManagerError
  dependency_not_found : ServiceType → ManagerError
  depended_on : ServiceType → List ServiceType → ManagerError
  circular_dependency : ServiceType → ManagerError
  recursion_error : ManagerError

pub record ServiceState : Type 0 where
  pub config : ServiceConfig
  pub metrics : ServiceMetrics
  pub last_update : ℕ
  pub last_check : ℕ
  pub dependents : List ServiceType
  pub status : ServiceStatus

abbrev pub Graph : Type 0
Graph = List (ServiceType × List ServiceType)

pub record ResourceManager : Type 0 where
  pub config_store : Configs
  pub services : List (ServiceType × ServiceState)
  pub dependency_graph : Graph
  pub reverse_dependencies : Graph
  pub running : Bool

-- What a method answers: nothing, or an exception.
abbrev pub Method : Type 0
Method = ResourceManager → Option ManagerError × ResourceManager

unfoldable pub init : Configs → ResourceManager
init config_store = record {
  config_store = config_store;
  services = [];
  dependency_graph = [];
  reverse_dependencies = [];
  running = false;
}

abbrev pub neighbours : ServiceType → Graph → List ServiceType
neighbours = get_set ServiceType_discrete ServiceType_discrete

-- The default of the field `metrics`.
unfoldable pub no_metrics : ℕ → ServiceMetrics
no_metrics now = record {
  total_requests = 0;
  successful_calls = 0;
  failed_calls = 0;
  average_latency = 0;
  p95_latency = 0;
  p99_latency = 0;
  circuit_state = "closed";
  error_rate = 0;
  last_failure_time = none;
  current_rate = 0;
  rejected_requests = 0;
  active_requests = 0;
  queued_requests = 0;
  resource_usage = 0;
  last_updated = now;
}

unfoldable pub validate_config : ServiceConfig → Option ManagerError
unfolding truthy
validate_config c =
    if not (truthy c.name)
    then some (configuration_error "Service name cannot be empty")
    else if not (truthy c.version)
    then some (configuration_error "Service version cannot be empty")
    else if not (ltb_ℤ (pos 0) c.max_concurrency)
    then some (configuration_error "Max concurrency must be positive")
    else if not (ltb_ℤ (pos 0) c.timeout)
    then some (configuration_error "Timeout must be positive")
    else none

unfoldable pub check_dependencies : List ServiceType → ResourceManager → Option ManagerError
unfolding contains load
check_dependencies [] r = none
check_dependencies (dep ∷ deps) r =
    let rest = check_dependencies deps r in
    if contains ServiceType_discrete dep r.services
    then rest
    else elim (load dep r.config_store) [ none ↦ some (dependency_not_found dep) | some _ ↦ rest ]

-- `for dep in config.dependencies: ...add(...)`.
unfoldable pub link : ServiceType → List ServiceType → Graph × Graph → Graph × Graph
unfolding add_at
link t [] g = g
link t (dep ∷ deps) g = link t deps (
  add_at ServiceType_discrete ServiceType_discrete t dep g.0,
  add_at ServiceType_discrete ServiceType_discrete dep t g.1,
)

-- The new state; saving the configuration writes its time.
unfoldable pub new_state : ServiceConfig → ℕ → ServiceState
unfolding no_metrics
new_state c now = record {
  config = record c { updated_at = now };
  metrics = no_metrics now;
  last_update = now;
  last_check = now;
  dependents = [];
  status = c.status;
}

unfoldable pub registered : ServiceConfig → ℕ → ResourceManager → ResourceManager
unfolding insert link save new_state
registered c now r =
    let graphs = link c.kind c.dependencies (r.dependency_graph, r.reverse_dependencies) in
    record r {
      config_store = save c now r.config_store;
      services = insert ServiceType_discrete c.kind (new_state c now) r.services;
      dependency_graph = graphs.0;
      reverse_dependencies = graphs.1;
    }

unfoldable pub register_service : ServiceConfig → ℕ → Method
unfolding validate_config check_dependencies registered
register_service c now r = elim (validate_config c) [
  | some e ↦ (some e, r)
  | none ↦ elim (check_dependencies c.dependencies r) [
    | some e ↦ (some e, r)
    | none ↦ (none, registered c now r)
  ]
]

-- `for dep in ...: self._reverse_dependencies[dep].discard(service_type)`.
unfoldable pub unlink : ServiceType → List ServiceType → Graph → Graph
unfolding discard_at
unlink t [] g = g
unlink t (dep ∷ deps) g =
    unlink t deps (discard_at ServiceType_discrete ServiceType_discrete dep t g)

unfoldable pub unregistered : ServiceType → ResourceManager → ResourceManager
unfolding remove unlink get_set delete
unregistered t r = record r {
  config_store = (delete t r.config_store).1;
  services = remove ServiceType_discrete t r.services;
  dependency_graph = remove ServiceType_discrete t r.dependency_graph;
  reverse_dependencies = unlink t (neighbours t r.dependency_graph) r.reverse_dependencies;
}

unfoldable pub unregister_service : ServiceType → Method
unfolding contains get_set unregistered
unregister_service t r =
    if not (contains ServiceType_discrete t r.services)
    then (some (service_not_found t), r)
    else elim (neighbours t r.reverse_dependencies) [
      | [] ↦ (none, unregistered t r)
      | d ∷ ds ↦ (some (depended_on t (d ∷ ds)), r)
    ]

-- The loop over the sorted configurations, which logs what fails.
unfoldable pub register_all : List ServiceConfig → ℕ → ResourceManager → ResourceManager
unfolding register_service
register_all [] now r = r
register_all (c ∷ cs) now r = register_all cs now (register_service c now r).1

unfoldable pub load_configurations : ℕ → Method
unfolding topological_sort list_configs register_all
load_configurations now r = elim (topological_sort (list_configs r.config_store)) [
  | done sorted_configs ↦ (none, register_all sorted_configs now r)
  | circular t ↦ (some (circular_dependency t), r)
  | out_of_fuel ↦ (some recursion_error, r)
]

unfoldable pub start : ℕ → Method
unfolding load_configurations
start now r = load_configurations now (record r { running = true })

unfoldable pub stop : ResourceManager → ResourceManager
stop r = record r { running = false }

unfoldable pub list_services : ResourceManager → List ServiceState
list_services r = values r.services

unfoldable pub get_dependency_graph : ResourceManager → Graph
get_dependency_graph r = r.dependency_graph

unfoldable pub get_service_dependencies : ServiceType → ResourceManager → List ServiceType
unfolding get_set
get_service_dependencies t r = neighbours t r.dependency_graph

unfoldable pub get_service_dependents : ServiceType → ResourceManager → List ServiceType
unfolding get_set
get_service_dependents t r = neighbours t r.reverse_dependencies
