-- ===== src/Base/Members.antt =====
-- Boolean scans of a list against the library's membership.
use mathlib.Core.Path.{◌≡◌, refl}
use mathlib.Core.Logic.{◌↔◌, inl, inr}
use mathlib.Core.Logic.Or
use mathlib.Core.Bool.{Bool, true, Bool-set, Bool-discrete}
use mathlib.Core.List.{
  List, [], ◌∷◌, Mem, filter, mem-filter, mem-cons, mem-cons_self, mem-cons_of_mem, not-mem-nil,
}
use native.Mathlib.Omega.{arith}
use gauth_py.Base.Tests.{Bool-cases}
use gauth_py.Base.Lists.{all, elem, keep, All}

module _ {ℓ} {A : Type ℓ} where
  pub elem-Mem : (dec : Discrete A) (a : A) (xs : List A) → elem dec a xs ≡ true → Mem a xs
  elem-Mem dec a [] h = cc
  elem-Mem dec a (x ∷ xs) h = elim (dec a x) [
    | yes p ↦ rw p mem-cons_self
    | no p ↦ mem-cons_of_mem x (elem-Mem dec a xs (ground arith))
  ]

  pub Mem-elem : (dec : Discrete A) (a : A) (xs : List A) → Mem a xs → elem dec a xs ≡ true
  Mem-elem dec a [] m = absurd (not-mem-nil m)
  Mem-elem dec a (x ∷ xs) m =
      Or.elim (Bool-set _ _) (mem-cons.0 m) (λ e. ground arith)
        (λ t. let ih = Mem-elem dec a xs t in ground arith)

  pub all-Mem : (p : A → Bool) (xs : List A) → all p xs ≡ true → (a : A) → Mem a xs → p a ≡ true
  all-Mem p [] h a m = absurd (not-mem-nil m)
  all-Mem p (x ∷ xs) h a m =
      Or.elim (Bool-set _ _) (mem-cons.0 m) (λ e. ground arith)
        (λ t. let ih = all-Mem p xs (ground arith) a t in ih)

  pub Mem-all : (p : A → Bool) (xs : List A) → ((a : A) → Mem a xs → p a ≡ true) → all p xs ≡ true
  Mem-all p [] h = refl
  Mem-all p (x ∷ xs) h =
      ground (arith, h x mem-cons_self, Mem-all p xs (λ a m. h a (mem-cons_of_mem x m)))

-- `all(s in have for s in need)` says that every member of the one is a member of the other.
pub all-elem_iff {ℓ} :
    {A : Type ℓ} (dec : Discrete A) (need have : List A)
    → (all (λ s. elem dec s have) need ≡ true) ↔ ((s : A) → Mem s need → Mem s have)
all-elem_iff dec need have = (
  (λ h s m. elem-Mem dec s have (all-Mem (λ t. elem dec t have) need h s m)),
  (λ h. Mem-all _ need (λ s m. Mem-elem dec s have (h s m))),
)

keep-filter {ℓ} :
    {A : Type ℓ} (p : A → Bool) (xs : List A)
    → keep p xs ≡ filter (λ a. Bool-discrete (p a) true) xs
keep-filter p [] = refl
keep-filter p (x ∷ xs) = ground (arith, keep-filter p xs)

-- A filtered list has the members that pass the test.
pub keep-Mem_iff {ℓ} :
    {A : Type ℓ} (p : A → Bool) (a : A) (xs : List A)
    → Mem a (keep p xs) ↔ (Mem a xs × (p a ≡ true))
keep-Mem_iff p a xs = rw (keep-filter p xs) (mem-filter (λ a. Bool-discrete (p a) true))

-- What holds of the members that pass a test holds of all of a filtered list.
pub keep-All {ℓ κ} :
    {A : Type ℓ} (P : A → Type κ) (p : A → Bool) (xs : List A)
    → ((a : A) → Mem a xs → p a ≡ true → P a)
    → All P (keep p xs)
keep-All P p [] h = tt
keep-All P p (x ∷ xs) h = elim (Bool-cases (p x)) [
  | inl t ↦ rw t (h x mem-cons_self t, keep-All P p xs (λ a m. h a (mem-cons_of_mem x m)))
  | inr f ↦ rw f (keep-All P p xs (λ a m. h a (mem-cons_of_mem x m)))
]
