-- ===== src/Resources/Manager/Removal.antt =====
-- gauth/resources/manager.py: when `unregister_service` succeeds, and what it leaves.
use mathlib.Core.List.{lookup}
use gauth_py.Base.{
  ◌≡◌, refl, sym, ◌∙◌, ◌↔◌, true, false, List, [], ◌∷◌, none, ite, arith, inl, inr, Bool-cases,
}
use gauth_py.Base.Dict.{contains, lookup-remove}
use gauth_py.Resources.{ServiceType_discrete, Configs, delete}
use gauth_py.Resources.Sort.Order.{K, has}
use gauth_py.Resources.Manager.{ResourceManager, neighbours, unregister_service, unregistered}
use gauth_py.Resources.Manager.Invariant.{IsConsistent}
use gauth_py.Resources.Manager.Loading.{is_registered}

nil-has : (ds : List K) → ((a : K) → has a ds ≡ false) → ds ≡ []
nil-has [] h = refl
nil-has (d ∷ ds) h = let first = h d in ground arith

-- In a consistent manager a service can be unregistered exactly if it is registered and stands
-- among the dependencies of no service in the graph.
pub unregister_service_iff :
    (t : K) (r : ResourceManager)
    → IsConsistent r
    → ((unregister_service t r).0 ≡ none)
      ↔ ((is_registered t r ≡ true) × ((a : K) → has t (neighbours a r.dependency_graph) ≡ false))
unfolding unregister_service
unregister_service_iff t r h = (
  (λ e. elim (Bool-cases (is_registered t r)) [
    | inr f ↦ ground arith
    | inl y ↦
        let free : neighbours t r.reverse_dependencies ≡ [] = ground arith in
        (y, λ a. let back = h.inverse a t in ground arith)
  ]),
  (λ x.
      let free : neighbours t r.reverse_dependencies ≡ [] =
        nil-has (neighbours t r.reverse_dependencies) (λ a. sym (h.inverse a t) ∙ x.1 a) in
      rw (unregister_service, x.0, free) refl),
)

unregister_service-eq-unregistered :
    (t : K) (r : ResourceManager)
    → (unregister_service t r).0 ≡ none
    → (unregister_service t r).1 ≡ unregistered t r
unfolding unregister_service
unregister_service-eq-unregistered t r e = elim (Bool-cases (is_registered t r)) [
  | inr f ↦ ground arith
  | inl y ↦ ground arith
]

lookup-delete :
    (t a : K) (s : Configs)
    → lookup ServiceType_discrete a (delete t s).1
      ≡ ite (ServiceType_discrete a t) none (lookup ServiceType_discrete a s)
unfolding delete contains
lookup-delete t a s = ground (arith, lookup-remove ServiceType_discrete t a s)

-- A service that was unregistered is neither registered nor stored, and for no other service has
-- the state or the stored configuration changed.
pub unregister_service_removes :
    (t a : K) (r : ResourceManager)
    → (unregister_service t r).0 ≡ none
    → (lookup ServiceType_discrete a (unregister_service t r).1.services
        ≡ ite (ServiceType_discrete a t) none (lookup ServiceType_discrete a r.services))
      × (lookup ServiceType_discrete a (unregister_service t r).1.config_store
          ≡ ite (ServiceType_discrete a t) none (lookup ServiceType_discrete a r.config_store))
unfolding unregistered
unregister_service_removes t a r e =
    rw (unregister_service-eq-unregistered t r e)
      (lookup-remove ServiceType_discrete t a r.services, lookup-delete t a r.config_store)
