-- ===== src/Base/Sets.antt =====
-- A Python `set`: a list that holds each member once. Its order is of no account.
use mathlib.Core.Path.{◌≡◌, refl}
use mathlib.Core.Logic.{inl, inr, ite}
use mathlib.Core.Bool.{true, false}
use mathlib.Core.List.{List, [], ◌∷◌}
use native.Mathlib.Omega.{arith}
use gauth_py.Base.Tests.{if◌then◌else◌, Bool-cases}
use mathlib.Core.List.{lookup}
use mathlib.Core.Option.{none, some}
use gauth_py.Base.Lists.{elem}
use gauth_py.Base.Dict.{insert, lookup-insert}

module _ {A : Type 0} (dec : Discrete A) where
  -- `s.add(a)`.
  unfoldable pub add : A → List A → List A
  add a s = if elem dec a s then s else a ∷ s

  -- `s.discard(a)`.
  unfoldable pub discard : A → List A → List A
  discard a [] = []
  discard a (x ∷ s) = let rest = discard a s in ite (dec a x) rest (x ∷ rest)

  pub elem-add : (a b : A) (s : List A) → elem dec b (add a s) ≡ ite (dec b a) true (elem dec b s)
  unfolding add
  elem-add a b s = elim (Bool-cases (elem dec a s)) [
    | inl t ↦ elim (dec b a) [ yes e ↦ ground arith | no n ↦ ground arith ]
    | inr f ↦ elim (dec b a) [ yes e ↦ ground arith | no n ↦ ground arith ]
  ]

  pub elem-discard :
      (a b : A) (s : List A) → elem dec b (discard a s) ≡ ite (dec b a) false (elem dec b s)
  unfolding discard
  elem-discard a b [] = ground arith
  elem-discard a b (x ∷ s) = elim (dec b a) [
    | yes e ↦ ground (arith, elem-discard a b s)
    | no n ↦ ground (arith, elem-discard a b s)
  ]

  pub add_absent : (a : A) (s : List A) → elem dec a s ≡ false → add a s ≡ a ∷ s
  unfolding add
  add_absent a s h = ground arith

  pub discard_absent : (a : A) (s : List A) → elem dec a s ≡ false → discard a s ≡ s
  unfolding discard
  discard_absent a [] h = refl
  discard_absent a (x ∷ s) h = ground (arith, discard_absent a s)

  -- To put in what is not there and take it out again changes nothing.
  pub discard-add : (a : A) (s : List A) → elem dec a s ≡ false → discard a (add a s) ≡ s
  unfolding discard
  discard-add a s h = rw (add_absent a s h) (ground (arith, discard_absent a s h))

-- A `defaultdict(set)`, read by `d.get(k, set())` and written by `d[k].add(a)` and
-- `d[k].discard(a)`, which both put in a missing key.
module _ {K A : Type 0} (dec : Discrete K) (dec_a : Discrete A) where
  unfoldable pub get_set : K → List (K × List A) → List A
  get_set k d = elim (lookup dec k d) [ none ↦ [] | some s ↦ s ]

  unfoldable pub add_at : K → A → List (K × List A) → List (K × List A)
  unfolding get_set add insert
  add_at k a d = insert dec k (add dec_a a (get_set k d)) d

  unfoldable pub discard_at : K → A → List (K × List A) → List (K × List A)
  unfolding get_set discard insert
  discard_at k a d = insert dec k (discard dec_a a (get_set k d)) d

  pub elem-add_at :
      (k j : K) (a b : A) (d : List (K × List A))
      → elem dec_a b (get_set j (add_at k a d))
        ≡ ite
            (dec j k)
            (ite (dec_a b a) true (elem dec_a b (get_set j d)))
            (elem dec_a b (get_set j d))
  unfolding add_at get_set
  elem-add_at k j a b d = elim (dec j k) [
    | yes p ↦ ground (
      arith,
      lookup-insert dec k j (add dec_a a (get_set k d)) d,
      elem-add dec_a a b (get_set k d),
    )
    | no n ↦ ground (arith, lookup-insert dec k j (add dec_a a (get_set k d)) d)
  ]

  pub elem-discard_at :
      (k j : K) (a b : A) (d : List (K × List A))
      → elem dec_a b (get_set j (discard_at k a d))
        ≡ ite
            (dec j k)
            (ite (dec_a b a) false (elem dec_a b (get_set j d)))
            (elem dec_a b (get_set j d))
  unfolding discard_at get_set
  elem-discard_at k j a b d = elim (dec j k) [
    | yes p ↦ ground (
      arith,
      lookup-insert dec k j (discard dec_a a (get_set k d)) d,
      elem-discard dec_a a b (get_set k d),
    )
    | no n ↦ ground (arith, lookup-insert dec k j (discard dec_a a (get_set k d)) d)
  ]
