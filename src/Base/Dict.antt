-- ===== src/Base/Dict.antt =====
-- A Python `dict`: an association list in insertion order, each key once. Lookups are the
-- library's `lookup`.
use Prim.Native.Nat.{suc, ◌≤◌}
use mathlib.Core.List.{List, [], ◌∷◌, map, lookup}
use mathlib.Core.Logic.{ite, if_pos, if_neg, inl, inr}
use mathlib.Core.Bool.{Bool, true, false, not}
use mathlib.Core.Option.{none, some}
use mathlib.Core.Path.{◌≡◌, refl, ap, ◌∙◌}
use native.Mathlib.Omega.{arith}
use gauth_py.Base.Tests.{Bool-cases, if◌then◌else◌}
use gauth_py.Base.Lists.{length, keep, elem}

module _ {ℓ} {K V : Type ℓ} where
  abbrev pub keys : List (K × V) → List K
  keys = map (λ e. e.0)

  abbrev pub values : List (K × V) → List V
  values = map (λ e. e.1)

module _ {ℓ} {K V : Type ℓ} (dec : Discrete K) where
  -- `d[k] = v`: an old key keeps its place.
  unfoldable pub insert : K → V → List (K × V) → List (K × V)
  insert k v [] = (k, v) ∷ []
  insert k v ((j, w) ∷ m) = ite (dec k j) ((j, v) ∷ m) ((j, w) ∷ insert k v m)

  -- `del d[k]`.
  unfoldable pub remove : K → List (K × V) → List (K × V)
  remove k [] = []
  remove k ((j, w) ∷ m) = let rest = remove k m in ite (dec k j) rest ((j, w) ∷ rest)

  -- `k in d`.
  unfoldable pub contains : K → List (K × V) → Bool
  unfolding lookup
  contains k m = elim (lookup dec k m) [ none ↦ false | some _ ↦ true ]

  -- `for k in ks: del d[k]`.
  unfoldable pub remove_all : List K → List (K × V) → List (K × V)
  unfolding remove
  remove_all [] m = m
  remove_all (k ∷ ks) m = remove_all ks (remove k m)

  -- No key stands twice.
  abbrev pub IsDict : List (K × V) → Type ℓ
  IsDict [] = Unit
  IsDict ((k, v) ∷ m) = (lookup dec k m ≡ none) × IsDict m

  pub lookup-insert :
      (k j : K) (v : V) (m : List (K × V))
      → lookup dec j (insert k v m) ≡ ite (dec j k) (some v) (lookup dec j m)
  unfolding lookup insert
  lookup-insert k j v [] = refl
  lookup-insert k j v ((i, w) ∷ m) = ground (arith, lookup-insert k j v m)

  pub lookup-insert_same : (k : K) (v : V) (m : List (K × V)) → lookup dec k (insert k v m) ≡ some v
  lookup-insert_same k v m = lookup-insert k k v m ∙ if_pos (dec k k) refl _ _

  pub lookup-insert_other :
      (k j : K) (v : V) (m : List (K × V))
      → ¬ (j ≡ k)
      → lookup dec j (insert k v m) ≡ lookup dec j m
  lookup-insert_other k j v m n = lookup-insert k j v m ∙ if_neg (dec j k) n _ _

  pub lookup-remove :
      (k j : K) (m : List (K × V)) → lookup dec j (remove k m) ≡ ite (dec j k) none (lookup dec j m)
  unfolding lookup remove
  lookup-remove k j [] = ground arith
  lookup-remove k j ((i, w) ∷ m) = ground (arith, lookup-remove k j m)

  pub insert-IsDict : (k : K) (v : V) (m : List (K × V)) → IsDict m → IsDict (insert k v m)
  unfolding insert lookup
  insert-IsDict k v [] h = ground arith
  insert-IsDict k v ((j, w) ∷ m) h = elim (dec k j) [
    | yes p ↦ rw (if_pos _ p) h
    | no p ↦ rw (if_neg _ p) (ground (arith, lookup-insert k j v m), insert-IsDict k v m h.1)
  ]

  pub remove-IsDict : (k : K) (m : List (K × V)) → IsDict m → IsDict (remove k m)
  unfolding remove
  remove-IsDict k [] h = h
  remove-IsDict k ((j, w) ∷ m) h = elim (dec k j) [
    | yes p ↦ rw (if_pos _ p) (remove-IsDict k m h.1)
    | no p ↦ rw (if_neg _ p) (ground (arith, lookup-remove k j m), remove-IsDict k m h.1)
  ]

  pub remove_absent : (k : K) (m : List (K × V)) → lookup dec k m ≡ none → remove k m ≡ m
  unfolding lookup remove
  remove_absent k [] h = refl
  remove_absent k ((j, w) ∷ m) h = ground (arith, remove_absent k m)

  pub length-remove-le : (k : K) (m : List (K × V)) → length (remove k m) ≤ length m
  unfolding remove
  length-remove-le k [] = omega arith
  length-remove-le k ((j, w) ∷ m) = ground (arith, length-remove-le k m)

  pub length-insert-le : (k : K) (v : V) (m : List (K × V)) → length (insert k v m) ≤ suc (length m)
  unfolding insert
  length-insert-le k v [] = omega arith
  length-insert-le k v ((j, w) ∷ m) = ground (arith, length-insert-le k v m)

  remove-cons_self : (k : K) (v : V) (m : List (K × V)) → remove k ((k, v) ∷ m) ≡ remove k m
  unfolding remove
  remove-cons_self k v m = if_pos (dec k k) refl _ _

  remove_all-cons :
      (ks : List K) (k : K) (v : V) (m : List (K × V))
      → elem dec k ks ≡ false
      → remove_all ks ((k, v) ∷ m) ≡ (k, v) ∷ remove_all ks m
  unfolding remove_all
  remove_all-cons [] k v m h = refl
  remove_all-cons (j ∷ ks) k v m h = elim (dec j k) [
    | yes p ↦ ground arith
    | no p ↦ rw (if_neg _ p) (remove_all-cons ks k v (remove j m) (ground arith))
  ]

  elem-keys-keep :
      (p : K × V → Bool) (k : K) (m : List (K × V))
      → lookup dec k m ≡ none
      → elem dec k (keys (keep p m)) ≡ false
  unfolding lookup
  elem-keys-keep p k [] h = refl
  elem-keys-keep p k (e ∷ m) h = ground (arith, elem-keys-keep p k m)

  -- To collect the keys of the entries that pass a test and then delete them one by one leaves
  -- the entries that fail it, in their order.
  pub remove_all-keep :
      (p : K × V → Bool) (m : List (K × V))
      → IsDict m
      → remove_all (keys (keep p m)) m ≡ keep (λ e. not (p e)) m
  unfolding remove_all
  remove_all-keep p [] h = refl
  remove_all-keep p ((k, v) ∷ m) h = elim (Bool-cases (p (k, v))) [
    | inl t ↦ rw t (
        ap (remove_all (keys (keep p m))) (remove-cons_self k v m ∙ remove_absent k m h.0)
        ∙ remove_all-keep p m h.1)
    | inr f ↦ rw f (
        remove_all-cons (keys (keep p m)) k v m (elem-keys-keep p k m h.0)
        ∙ ap (◌∷◌ (k, v)) (remove_all-keep p m h.1))
  ]

  pub lookup-keep :
      (p : K × V → Bool) (k : K) (m : List (K × V))
      → IsDict m
      → lookup dec k (keep p m)
        ≡ elim (lookup dec k m) [ none ↦ none | some v ↦ if p (k, v) then some v else none ]
  unfolding lookup
  lookup-keep p k [] h = refl
  lookup-keep p k ((j, w) ∷ m) h = elim (dec k j) [
    | yes e ↦ ground (arith, lookup-keep p k m h.1)
    | no n ↦ ground (arith, lookup-keep p k m h.1)
  ]

  -- A scan of the keys alone needs no distinct keys.
  pub lookup-remove_all :
      (ks : List K) (j : K) (m : List (K × V))
      → lookup dec j (remove_all ks m) ≡ (if elem dec j ks then none else lookup dec j m)
  unfolding remove_all
  lookup-remove_all [] j m = refl
  lookup-remove_all (k ∷ ks) j m = elim (dec j k) [
    | yes e ↦ ground (arith, lookup-remove_all ks j (remove k m), lookup-remove k j m)
    | no n ↦ ground (arith, lookup-remove_all ks j (remove k m), lookup-remove k j m)
  ]

  pub remove_all-IsDict : (ks : List K) (m : List (K × V)) → IsDict m → IsDict (remove_all ks m)
  unfolding remove_all
  remove_all-IsDict [] m h = h
  remove_all-IsDict (k ∷ ks) m h = remove_all-IsDict ks (remove k m) (remove-IsDict k m h)
