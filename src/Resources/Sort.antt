-- ===== src/Resources/Sort.antt =====
-- gauth/resources/manager.py: `_topological_sort`, a depth-first search. Each nested `visit` puts
-- one more service on the path, so `suc (length configs)` is fuel enough.
pub mod Order
pub mod Visit
pub mod Correct
use mathlib.Core.List.{lookup}
use gauth_py.Base.{ℕ, zero, suc, List, [], ◌∷◌, ◌++◌, none, some, length, elem, if◌then◌else◌}
use gauth_py.Base.Dict.{insert}
use gauth_py.Base.Sets.{add, discard}
use gauth_py.Resources.{ServiceType, ServiceType_discrete, ServiceConfig}

-- What the nested function `visit` writes.
pub record Search : Type 0 where
  pub visited : List ServiceType
  pub temp_visited : List ServiceType
  pub result : List ServiceConfig

-- `circular t` is the DependencyError that names `t`.
pub data Outcome (A : Type 0) : Type 0 where
  done : A → Outcome A
  circular : ServiceType → Outcome A
  out_of_fuel : Outcome A

-- `{config.type: config for config in configs}`.
unfoldable pub add_configs :
    List ServiceConfig → List (ServiceType × ServiceConfig) → List (ServiceType × ServiceConfig)
unfolding insert
add_configs [] m = m
add_configs (c ∷ cs) m = add_configs cs (insert ServiceType_discrete c.kind c m)

abbrev pub config_map : List ServiceConfig → List (ServiceType × ServiceConfig)
config_map configs = add_configs configs []

-- `for t in ts: v(t)`, where `v` may raise.
unfoldable pub each :
    (ServiceType → Search → Outcome Search) → List ServiceType → Search → Outcome Search
each v [] s = done s
each v (t ∷ ts) s = elim (v t s) [
  | done s' ↦ each v ts s'
  | circular u ↦ circular u
  | out_of_fuel ↦ out_of_fuel
]

unfoldable pub enter : ServiceType → Search → Search
unfolding add
enter t s = record s { temp_visited = add ServiceType_discrete t s.temp_visited }

unfoldable pub leave : ServiceType → Search → Search
unfolding discard
leave t s = record s { temp_visited = discard ServiceType_discrete t s.temp_visited }

unfoldable pub finish : ServiceConfig → ServiceType → Search → Search
unfolding add
finish c t s = record s {
  visited = add ServiceType_discrete t s.visited;
  result = s.result ++ c ∷ [];
}

module _ (m : List (ServiceType × ServiceConfig)) where
  unfoldable pub visit : ℕ → ServiceType → Search → Outcome Search
  unfolding lookup each enter leave finish
  visit zero t s = out_of_fuel
  visit (suc fuel) t s =
      let onwards : Outcome Search = elim (lookup ServiceType_discrete t m) [
        | none ↦ done (leave t (enter t s))
        | some c ↦ elim (each (visit fuel) c.dependencies (enter t s)) [
          | done s' ↦ done (leave t (finish c t s'))
          | circular u ↦ circular u
          | out_of_fuel ↦ out_of_fuel
        ]
      ] in
      if elem ServiceType_discrete t s.temp_visited
      then circular t
      else if elem ServiceType_discrete t s.visited
      then done s
      else onwards

  -- The loop over the configurations.
  unfoldable pub visit_all : ℕ → List ServiceConfig → Search → Outcome Search
  visit_all fuel [] s = done s
  visit_all fuel (c ∷ cs) s =
      elim (if elem ServiceType_discrete c.kind s.visited then done s else visit fuel c.kind s) [
        | done s' ↦ visit_all fuel cs s'
        | circular u ↦ circular u
        | out_of_fuel ↦ out_of_fuel
      ]

abbrev pub blank : Search
blank = record { visited = []; temp_visited = []; result = [] }

unfoldable pub topological_sort : List ServiceConfig → Outcome (List ServiceConfig)
unfolding visit_all
topological_sort configs =
    elim (visit_all (config_map configs) (suc (length configs)) configs blank) [
      | done s ↦ done s.result
      | circular t ↦ circular t
      | out_of_fuel ↦ out_of_fuel
    ]
