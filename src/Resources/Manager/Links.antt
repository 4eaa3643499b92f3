-- ===== src/Resources/Manager/Links.antt =====
-- gauth/resources/manager.py: what linking and unlinking a service does to the two graphs.
use gauth_py.Base.{◌≡◌, true, false, List, [], ◌∷◌, none, ite, if◌then◌else◌, arith}
use gauth_py.Base.Dict.{remove, contains, lookup-remove}
use gauth_py.Base.Sets.{get_set, add_at, discard_at, elem-add_at, elem-discard_at}
use gauth_py.Resources.{ServiceType_discrete, load}
use gauth_py.Resources.Sort.Order.{K, has}
use gauth_py.Resources.Manager.{
  Graph, ResourceManager, neighbours, link, unlink, check_dependencies,
}

pub has-link :
    (t : K) (deps : List K) (g : Graph × Graph) (a b : K)
    → has b (neighbours a (link t deps g).0)
      ≡ ite
          (ServiceType_discrete a t)
          (if has b deps then true else has b (neighbours a g.0))
          (has b (neighbours a g.0))
unfolding link
has-link t [] g a b = ground arith
has-link t (dep ∷ deps) g a b =
    let added = elem-add_at ServiceType_discrete ServiceType_discrete t a dep b g.0 in
    let ih =
      has-link t deps
        (
          add_at ServiceType_discrete ServiceType_discrete t dep g.0,
          add_at ServiceType_discrete ServiceType_discrete dep t g.1,
        )
        a b in
    elim (ServiceType_discrete a t) [
      | yes p ↦ elim (ServiceType_discrete b dep) [ yes q ↦ ground arith | no n ↦ ground arith ]
      | no n ↦ ground arith
    ]

pub has-link_back :
    (t : K) (deps : List K) (g : Graph × Graph) (a b : K)
    → has a (neighbours b (link t deps g).1)
      ≡ ite
          (ServiceType_discrete a t)
          (if has b deps then true else has a (neighbours b g.1))
          (has a (neighbours b g.1))
unfolding link
has-link_back t [] g a b = ground arith
has-link_back t (dep ∷ deps) g a b =
    let added = elem-add_at ServiceType_discrete ServiceType_discrete dep b t a g.1 in
    let ih =
      has-link_back t deps
        (
          add_at ServiceType_discrete ServiceType_discrete t dep g.0,
          add_at ServiceType_discrete ServiceType_discrete dep t g.1,
        )
        a b in
    elim (ServiceType_discrete a t) [
      | yes p ↦ elim (ServiceType_discrete b dep) [ yes q ↦ ground arith | no n ↦ ground arith ]
      | no n ↦ elim (ServiceType_discrete b dep) [ yes q ↦ ground arith | no n' ↦ ground arith ]
    ]

pub has-unlink :
    (t : K) (deps : List K) (g : Graph) (a b : K)
    → has a (neighbours b (unlink t deps g))
      ≡ ite
          (ServiceType_discrete a t)
          (if has b deps then false else has a (neighbours b g))
          (has a (neighbours b g))
unfolding unlink
has-unlink t [] g a b = ground arith
has-unlink t (dep ∷ deps) g a b =
    let taken = elem-discard_at ServiceType_discrete ServiceType_discrete dep b t a g in
    let ih = has-unlink t deps (discard_at ServiceType_discrete ServiceType_discrete dep t g) a b in
    elim (ServiceType_discrete a t) [
      | yes p ↦ elim (ServiceType_discrete b dep) [ yes q ↦ ground arith | no n ↦ ground arith ]
      | no n ↦ elim (ServiceType_discrete b dep) [ yes q ↦ ground arith | no n' ↦ ground arith ]
    ]

pub neighbours-remove :
    (t a : K) (g : Graph)
    → neighbours a (remove ServiceType_discrete t g)
      ≡ ite (ServiceType_discrete a t) [] (neighbours a g)
unfolding get_set
neighbours-remove t a g = elim (ServiceType_discrete a t) [
  | yes p ↦ ground (arith, lookup-remove ServiceType_discrete t a g)
  | no n ↦ ground (arith, lookup-remove ServiceType_discrete t a g)
]

-- A dependency that passes the check and is not registered has a stored configuration.
pub check_dependencies_lem :
    (deps : List K) (r : ResourceManager) (d : K)
    → check_dependencies deps r ≡ none
    → has d deps ≡ true
    → contains ServiceType_discrete d r.services ≡ false
    → contains ServiceType_discrete d r.config_store ≡ true
unfolding check_dependencies contains load
check_dependencies_lem [] r d h e n = cc e
check_dependencies_lem (dep ∷ deps) r d h e n = elim (ServiceType_discrete d dep) [
  | yes p ↦ ground arith
  | no q ↦ check_dependencies_lem deps r d (ground arith) (ground arith) n
]
