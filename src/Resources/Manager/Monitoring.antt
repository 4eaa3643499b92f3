-- ===== src/Resources/Manager/Monitoring.antt =====
-- gauth/resources/manager.py: what the periodic check marks, and what the health check reports.
use mathlib.Core.List.{lookup}
use gauth_py.Base.{
  ℕ, ◌+◌, ◌<◌, ◌≡◌, refl, ap, ◌∙◌, true, List, [], ◌∷◌, Option, none, some, ite, if_pos, if_neg,
  if◌then◌else◌, arith, inl, inr, Bool-cases, Option-cases, ltb,
}
use gauth_py.Base.Dict.{values, IsDict, lookup-insert}
use gauth_py.Resources.{ServiceType_discrete, ServiceStatus, ServiceStatus_discrete, unhealthy}
use gauth_py.Resources.Sort.Order.{K}
use gauth_py.Resources.Manager.{ResourceManager, ServiceState, list_services}
use gauth_py.Resources.Manager.Status.{
  with_status, update_service_status, has_status, is_stale, check_all, perform_health_checks,
  count_status, health_check,
}

-- What the check makes of a state.
abbrev pub checked : ℕ → ServiceState → ServiceState
checked now st = if is_stale st now then with_status unhealthy now st else st

abbrev pub checked_all : ℕ → Option ServiceState → Option ServiceState
checked_all now none = none
checked_all now (some st) = some (checked now st)

lookup-update_service_status :
    (t a : K) (status : ServiceStatus) (now : ℕ) (r : ResourceManager) (st : ServiceState)
    → lookup ServiceType_discrete t r.services ≡ some st
    → lookup ServiceType_discrete a (update_service_status t status now r).1.services
      ≡ ite
          (ServiceType_discrete a t)
          (some (with_status status now st))
          (lookup ServiceType_discrete a r.services)
unfolding update_service_status
lookup-update_service_status t a status now r st e =
    rw (update_service_status, e)
      (lookup-insert ServiceType_discrete t a (with_status status now st) r.services)

abbrev visit_one : K → ServiceState → ℕ → ResourceManager → ResourceManager
visit_one t st now r = if is_stale st now then (update_service_status t unhealthy now r).1 else r

lookup-visit_one :
    (t a : K) (st : ServiceState) (now : ℕ) (r : ResourceManager)
    → lookup ServiceType_discrete t r.services ≡ some st
    → lookup ServiceType_discrete a (visit_one t st now r).services
      ≡ ite
          (ServiceType_discrete a t)
          (some (checked now st))
          (lookup ServiceType_discrete a r.services)
lookup-visit_one t a st now r e = elim (Bool-cases (is_stale st now)) [
  | inl stale ↦ rw stale (lookup-update_service_status t a unhealthy now r st e)
  | inr fresh ↦
      rw fresh (elim (ServiceType_discrete a t) [ yes p ↦ ground arith | no n ↦ ground arith ])
]

lookup-check_all :
    (rest : List (K × ServiceState)) (now : ℕ) (r : ResourceManager) (a : K)
    → IsDict ServiceType_discrete rest
    → ((t : K) (st : ServiceState)
        → lookup ServiceType_discrete t rest ≡ some st
        → lookup ServiceType_discrete t r.services ≡ some st)
    → lookup ServiceType_discrete a (check_all rest now r).services
      ≡ elim (lookup ServiceType_discrete a rest) [
        | none ↦ lookup ServiceType_discrete a r.services
        | some st ↦ some (checked now st)
      ]
unfolding check_all lookup
lookup-check_all [] now r a d h = refl
lookup-check_all ((t, st) ∷ rest) now r a d h =
    let here : lookup ServiceType_discrete t r.services ≡ some st =
      h t st (if_pos (ServiceType_discrete t t) refl _ _) in
    let one = lookup-visit_one t a st now r here in
    let ih = lookup-check_all rest now (visit_one t st now r) a d.1 (λ u s e.
      elim (ServiceType_discrete u t) [
        | yes p ↦ ground arith
        | no n ↦
            let moved = lookup-visit_one t u st now r here in
            let old = h u s (if_neg (ServiceType_discrete u t) n _ _ ∙ e) in ground arith
      ]) in
    elim (ServiceType_discrete a t) [
      | yes p ↦ let gone : lookup ServiceType_discrete a rest ≡ none = rw p d.0 in ground arith
      | no n ↦ ground arith
    ]

-- The periodic check marks exactly the services that are stale at its time, and changes no other.
pub lookup-perform_health_checks :
    (now : ℕ) (r : ResourceManager) (t : K)
    → IsDict ServiceType_discrete r.services
    → lookup ServiceType_discrete t (perform_health_checks now r).services
      ≡ checked_all now (lookup ServiceType_discrete t r.services)
unfolding perform_health_checks
lookup-perform_health_checks now r t d =
    elim (Option-cases (lookup ServiceType_discrete t r.services)) [
      | inl e ↦ ground (arith, lookup-check_all r.services now r t d (λ u s x. x))
      | inr (st, e) ↦ ground (arith, lookup-check_all r.services now r t d (λ u s x. x))
    ]

count_status-lookup :
    (m : List (K × ServiceState)) (t : K) (st : ServiceState) (status : ServiceStatus)
    → lookup ServiceType_discrete t m ≡ some st
    → has_status status st ≡ true
    → 0 < count_status status (values m)
unfolding count_status lookup
count_status-lookup [] t st status e h = cc e
count_status-lookup ((u, s) ∷ m) t st status e h = elim (ServiceType_discrete t u) [
  | yes p ↦ ground arith
  | no n ↦ let ih = count_status-lookup m t st status (ground arith) h in ground arith
]

checked-unhealthy :
    (now : ℕ) (st : ServiceState)
    → ltb (st.last_check + 300_000_000) now ≡ true
    → has_status unhealthy (checked now st) ≡ true
unfolding is_stale has_status with_status
checked-unhealthy now st h = elim (ServiceStatus_discrete st.status unhealthy) [
  | yes p ↦ ground arith
  | no n ↦ ground arith
]

-- If some service was last checked more than five minutes ago, then after the periodic check the
-- health check reports `unhealthy`.
pub health_check-perform_health_checks :
    (now : ℕ) (r : ResourceManager) (t : K) (st : ServiceState)
    → IsDict ServiceType_discrete r.services
    → lookup ServiceType_discrete t r.services ≡ some st
    → st.last_check + 300_000_000 < now
    → (health_check (perform_health_checks now r)).overall_status ≡ "unhealthy"
unfolding health_check list_services
health_check-perform_health_checks now r t st d e h =
    let after : lookup ServiceType_discrete t (perform_health_checks now r).services
        ≡ some (checked now st) =
      lookup-perform_health_checks now r t d ∙ ap (checked_all now) e in
    let counted =
      count_status-lookup (perform_health_checks now r).services t (checked now st) unhealthy after
        (checked-unhealthy now st (ground arith)) in
    ground arith
