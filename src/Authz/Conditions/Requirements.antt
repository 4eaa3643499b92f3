-- ===== src/Authz/Conditions/Requirements.antt =====
-- What the conditions on time, roles and attributes ask for.
use mathlib.Core.List.{Mem, lookup}
use gauth_py.Base.{ℕ, ◌<◌, ◌≡◌, ◌↔◌, true, false, List, some, String, String_discrete, arith, all}
use gauth_py.Base.Members.{all-elem_iff, all-Mem, Mem-all}
use gauth_py.Authz.Types.{AccessRequest}
use gauth_py.Authz.Conditions.{in_range, evaluate_role, has_attribute, evaluate_attribute}

-- A range whose end is before its start passes midnight: it lets in every time of the day but those
-- strictly between its end and its start.
pub in_range_overnight :
    (start_time end_time t : ℕ)
    → end_time < start_time
    → (in_range (some start_time) (some end_time) t ≡ false) ↔ ((end_time < t) × (t < start_time))
unfolding in_range
in_range_overnight start_time end_time t h = (λ e. ground arith, λ e. ground arith)

has_attribute_iff :
    (attributes : List (String × String)) (e : String × String)
    → (has_attribute attributes e ≡ true) ↔ (lookup String_discrete e.0 attributes ≡ some e.1)
unfolding has_attribute
has_attribute_iff attributes (k, v) = (λ h. ground arith, λ h. ground arith)

-- The attributes of an object that are required of it.
abbrev pub Requires : List (String × String) → List (String × String) → Type 0
Requires required attributes =
    (e : String × String) → Mem e required → lookup String_discrete e.0 attributes ≡ some e.1

all-has_attribute_iff :
    (required attributes : List (String × String))
    → (all (has_attribute attributes) required ≡ true) ↔ Requires required attributes
all-has_attribute_iff required attributes = (
  λ h e m. (has_attribute_iff attributes e).0 (all-Mem (has_attribute attributes) required h e m),
  λ h.
      Mem-all (has_attribute attributes) required
        (λ e m. (has_attribute_iff attributes e).1 (h e m)),
)

-- An attribute condition holds exactly if the subject, the resource and the action have each the
-- required value under each required key.
pub evaluate_attribute_iff :
    (ss rs xs : List (String × String)) (req : AccessRequest)
    → (evaluate_attribute ss rs xs req ≡ true) ↔ (
        Requires ss req.subject.attributes
        × (Requires rs req.resource.attributes × Requires xs req.action.attributes))
unfolding evaluate_attribute
evaluate_attribute_iff ss rs xs req =
    let s = all-has_attribute_iff ss req.subject.attributes in
    let r = all-has_attribute_iff rs req.resource.attributes in
    let x = all-has_attribute_iff xs req.action.attributes in
    (
      λ h. (s.0 (ground arith), (r.0 (ground arith), x.0 (ground arith))),
      λ h. ground (arith, s.1 h.0, r.1 h.1.0, x.1 h.1.1),
    )

-- A role condition that requires all roles holds exactly if the subject has every one of them.
pub evaluate_role_iff :
    (roles : List String) (req : AccessRequest)
    → (evaluate_role roles true req ≡ true) ↔ ((r : String) → Mem r roles → Mem r req.subject.roles)
unfolding evaluate_role
evaluate_role_iff roles req = all-elem_iff String_discrete roles req.subject.roles
