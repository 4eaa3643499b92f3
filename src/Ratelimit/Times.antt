-- ===== src/Ratelimit/Times.antt =====
-- Calls made one after another, under a clock that is not set back.
use gauth_py.Base.{ℕ, ◌*◌, ◌≤◌, List, [], ◌∷◌, arith}

-- The times stand in order, none before the first bound and none after the second.
abbrev pub Ordered {ℓ} : {A : Type ℓ} → (A → ℕ) → ℕ → List A → ℕ → Type 0
Ordered at start [] end = start ≤ end
Ordered at start (x ∷ xs) end = (start ≤ at x) × Ordered at (at x) xs end

pub Ordered-le {ℓ} :
    {A : Type ℓ} (at : A → ℕ) (start end : ℕ) (xs : List A) → Ordered at start xs end → start ≤ end
Ordered-le at start end [] h = h
Ordered-le at start end (x ∷ xs) h = omega (arith, Ordered-le at (at x) end xs h.1)

pub mul_mono : (a b c : ℕ) → a ≤ b → a * c ≤ b * c
mul_mono a b c h = grind arith
