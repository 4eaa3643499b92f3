-- ===== src/Resources/Manager/Status.antt =====
-- gauth/resources/manager.py: the calls of `ResourceManager` that read and write the status of
-- services, and its history of calls.
use mathlib.Core.List.{lookup}
use gauth_py.Base.{
  ℕ, ◌+◌, Bool, true, false, List, [], ◌∷◌, Option, none, some, String, ltb, ite, length, keep,
  if◌then◌else◌,
}
use gauth_py.Base.Dict.{insert}
use gauth_py.Resources.{
  ServiceType, ServiceType_discrete, ServiceStatus, healthy, degraded, unhealthy,
  ServiceStatus_discrete, ServiceConfig, ServiceMetrics, is_healthy, is_degraded, save,
}
use gauth_py.Resources.Manager.{
  ResourceManager, ServiceState, service_not_found, Method, register_service, unregister_service,
  start, stop, list_services,
}

unfoldable pub get_service : ServiceType → ResourceManager → Option ServiceState
unfolding lookup
get_service t r = lookup ServiceType_discrete t r.services

-- `state.status = status` and the two lines below it, with the time that saving writes.
unfoldable pub with_status : ServiceStatus → ℕ → ServiceState → ServiceState
with_status status now st = record st {
  config = record st.config { status = status; updated_at = now };
  last_update = now;
  status = status;
}

unfoldable pub update_service_status : ServiceType → ServiceStatus → ℕ → Method
unfolding lookup insert save with_status
update_service_status t status now r = elim (lookup ServiceType_discrete t r.services) [
  | none ↦ (some (service_not_found t), r)
  | some st ↦ (
    none,
    record r {
      services = insert ServiceType_discrete t (with_status status now st) r.services;
      config_store = save (with_status status now st).config now r.config_store;
    },
  )
]

unfoldable pub status_of : ServiceMetrics → ServiceStatus
unfolding is_healthy is_degraded
status_of metrics =
    if is_healthy metrics then healthy else if is_degraded metrics then degraded else unhealthy

unfoldable pub has_status : ServiceStatus → ServiceState → Bool
unfolding ServiceStatus_discrete
has_status status st = ite (ServiceStatus_discrete st.status status) true false

unfoldable pub with_metrics : ServiceMetrics → ℕ → ServiceState → ServiceState
with_metrics metrics now st = record st { metrics = metrics; last_check = now }

unfoldable pub update_metrics : ServiceType → ServiceMetrics → ℕ → Method
unfolding lookup insert with_metrics status_of has_status update_service_status
update_metrics t metrics now r = elim (lookup ServiceType_discrete t r.services) [
  | none ↦ (some (service_not_found t), r)
  | some st ↦
      let measured = record r {
        services = insert ServiceType_discrete t (with_metrics metrics now st) r.services;
      } in
      if has_status (status_of metrics) st
      then (none, measured)
      else update_service_status t (status_of metrics) now measured
]

pub record Health : Type 0 where
  pub overall_status : String
  pub total_services : ℕ
  pub healthy_services : ℕ
  pub degraded_services : ℕ
  pub unhealthy_services : ℕ

unfoldable pub count_status : ServiceStatus → List ServiceState → ℕ
unfolding has_status
count_status status services = length (keep (has_status status) services)

unfoldable pub health_check : ResourceManager → Health
unfolding list_services count_status
health_check r = record {
  overall_status =
      if ltb 0 (count_status unhealthy (list_services r))
      then "unhealthy"
      else if ltb 0 (count_status degraded (list_services r))
      then "degraded"
      else "healthy";
  total_services = length (list_services r);
  healthy_services = count_status healthy (list_services r);
  degraded_services = count_status degraded (list_services r);
  unhealthy_services = count_status unhealthy (list_services r);
}

-- No update for five minutes, and not yet marked.
unfoldable pub is_stale : ServiceState → ℕ → Bool
unfolding has_status
is_stale st now =
    if ltb (st.last_check + 300_000_000) now
    then if has_status unhealthy st then false else true
    else false

-- The loop over the services as they were at the start.
unfoldable pub check_all : List (ServiceType × ServiceState) → ℕ → ResourceManager → ResourceManager
unfolding is_stale update_service_status
check_all [] now r = r
check_all ((t, st) ∷ rest) now r =
    check_all rest now (if is_stale st now then (update_service_status t unhealthy now r).1 else r)

unfoldable pub perform_health_checks : ℕ → ResourceManager → ResourceManager
unfolding check_all
perform_health_checks now r = check_all r.services now r

-- A call on the manager.
pub data Call : Type 0 where
  register : ServiceConfig → Call
  unregister : ServiceType → Call
  update_status : ServiceType → ServiceStatus → Call
  measure : ServiceType → ServiceMetrics → Call
  monitor : Call
  begin : Call
  halt : Call

-- What a call leaves, also when it raises.
unfoldable pub serve : Call → ℕ → ResourceManager → ResourceManager
unfolding register_service unregister_service update_service_status update_metrics
    perform_health_checks start stop
serve (register c) now r = (register_service c now r).1
serve (unregister t) now r = (unregister_service t r).1
serve (update_status t status) now r = (update_service_status t status now r).1
serve (measure t metrics) now r = (update_metrics t metrics now r).1
serve monitor now r = perform_health_checks now r
serve begin now r = (start now r).1
serve halt now r = stop r

unfoldable pub serve_all : List (Call × ℕ) → ResourceManager → ResourceManager
unfolding serve
serve_all [] r = r
serve_all ((call, now) ∷ calls) r = serve_all calls (serve call now r)
