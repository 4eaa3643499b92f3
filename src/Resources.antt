-- ===== src/Resources.antt =====
-- gauth/resources/types.py and manager.py: the services, their configurations and metrics, and
-- the store of configurations in memory. Rates are counted in thousandths and compared exactly,
-- where the source has floats; durations are microseconds.
pub mod Sort
pub mod Manager
mod Tests
use mathlib.Core.List.{lookup}
use gauth_py.Base.{
  ℕ, ◌+◌, ◌*◌, Bool, true, false, not, ◌&&◌, ◌||◌, List, [], ◌∷◌, Option, none, some, String,
  String_discrete, ltb, leb, ◌==◌, ite, if◌then◌else◌,
}
use gauth_py.Base.Int.{ℤ}
use gauth_py.Base.Dict.{insert, remove, contains, values}

pub data ServiceType : Type 0 where
  auth user order payment inventory : ServiceType

unfoldable pub ServiceType_discrete : Discrete ServiceType
ServiceType_discrete = hlevel

pub data ServiceStatus : Type 0 where
  healthy degraded unhealthy maintenance : ServiceStatus

unfoldable pub ServiceStatus_discrete : Discrete ServiceStatus
ServiceStatus_discrete = hlevel

pub record CircuitBreakerConfig : Type 0 where
  pub error_threshold : ℕ
  pub reset_timeout : ℕ
  pub half_open_calls : ℕ

pub record RateLimitConfig : Type 0 where
  pub requests_per_second : ℕ
  pub burst_size : ℕ
  pub window_size : ℕ

pub record BulkheadConfig : Type 0 where
  pub max_concurrent : ℕ
  pub queue_size : ℕ

pub record RetryConfig : Type 0 where
  pub max_attempts : ℕ
  pub backoff_base : ℕ
  pub max_backoff : ℕ

-- The source's field `type` is `kind` here.
pub record ServiceConfig : Type 0 where
  pub kind : ServiceType
  pub name : String
  pub version : String
  pub dependencies : List ServiceType
  pub status : ServiceStatus
  pub circuit_breaker : CircuitBreakerConfig
  pub rate_limit : RateLimitConfig
  pub bulkhead : BulkheadConfig
  pub retry : RetryConfig
  pub max_concurrency : ℤ
  pub timeout : ℤ
  pub tags : List (String × String)
  pub created_at : ℕ
  pub updated_at : ℕ

pub record ServiceMetrics : Type 0 where
  pub total_requests : ℕ
  pub successful_calls : ℕ
  pub failed_calls : ℕ
  pub average_latency : ℕ
  pub p95_latency : ℕ
  pub p99_latency : ℕ
  pub circuit_state : String
  pub error_rate : ℕ
  pub last_failure_time : Option ℕ
  pub current_rate : ℕ
  pub rejected_requests : ℕ
  pub active_requests : ℕ
  pub queued_requests : ℕ
  pub resource_usage : ℕ
  pub last_updated : ℕ

unfoldable pub is_text : String → String → Bool
unfolding String_discrete
is_text s t = ite (String_discrete s t) true false

-- `success_rate() >= percent`, without the division.
unfoldable pub success_at_least : ℕ → ServiceMetrics → Bool
success_at_least percent m = leb (percent * m.total_requests) (100 * m.successful_calls)

unfoldable pub is_healthy : ServiceMetrics → Bool
unfolding success_at_least is_text
is_healthy m =
    if m.total_requests == 0
    then true
    else success_at_least 95 m
      && (ltb m.error_rate 50 && (is_text m.circuit_state "closed" && ltb m.resource_usage 800))

unfoldable pub is_degraded : ServiceMetrics → Bool
unfolding success_at_least is_text
is_degraded m =
    if m.total_requests == 0
    then false
    else (success_at_least 85 m && not (success_at_least 95 m))
      || ((leb 50 m.error_rate && ltb m.error_rate 100)
          || (is_text m.circuit_state "half-open"
              || (leb 800 m.resource_usage && ltb m.resource_usage 900)))

-- `MemoryConfigStore`, less its watchers, who are told of each saved configuration.
abbrev pub Configs : Type 0
Configs = List (ServiceType × ServiceConfig)

unfoldable pub load : ServiceType → Configs → Option ServiceConfig
load service_type s = lookup ServiceType_discrete service_type s

unfoldable pub save : ServiceConfig → ℕ → Configs → Configs
unfolding insert
save c now s = insert ServiceType_discrete c.kind (record c { updated_at = now }) s

unfoldable pub list_configs : Configs → List ServiceConfig
list_configs s = values s

unfoldable pub delete : ServiceType → Configs → Bool × Configs
delete service_type s =
    if contains ServiceType_discrete service_type s
    then (true, remove ServiceType_discrete service_type s)
    else (false, s)
