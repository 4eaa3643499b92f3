-- ===== src/Core/Exceptions.antt =====
-- The exceptions of gauth/core/types.py and the built-in ones that the code raises, with the text
-- that `str(e)` gives, and the two ways in which a call ends.
use gauth_py.Base.{Bool, true, false, String}

pub data Exception : Type 0 where
  authorization_error token_error validation_error : String → Exception
  rate_limit_error transaction_error value_error : String → Exception
  other_error : String → Exception

unfoldable pub message : Exception → String
message (authorization_error m) = m
message (token_error m) = m
message (validation_error m) = m
message (rate_limit_error m) = m
message (transaction_error m) = m
message (value_error m) = m
message (other_error m) = m

pub data Result (A : Type 0) : Type 0 where
  ok : A → Result A
  raise : Exception → Result A

-- A call on an object in state `S`: what was written before a raise stays written.
abbrev pub Act : Type 0 → Type 0 → Type 0
Act S A = S → Result A × S

module _ {S : Type 0} where
  abbrev pub pure : {A : Type 0} → A → Act S A
  pure a s = (ok a, s)

  abbrev pub throw : {A : Type 0} → Exception → Act S A
  throw e s = (raise e, s)

  -- `if b: raise e`.
  abbrev pub raise_if : Bool → Exception → Act S (Unit {0})
  raise_if true e s = (raise e, s)
  raise_if false e s = (ok tt, s)

  -- `try: m  except Exception as e: handler(e)`.
  abbrev pub catch : {A : Type 0} → Act S A → (Exception → Act S A) → Act S A
  catch m handler s = let (r, t) = m s in elim r [ ok a ↦ (ok a, t) | raise e ↦ handler e t ]

  infixl 5 ◌>>=◌ ◌>>◌
  abbrev pub ◌>>=◌ : {A B : Type 0} → Act S A → (A → Act S B) → Act S B
  ◌>>=◌ m f s = let (r, t) = m s in elim r [ ok a ↦ f a t | raise e ↦ (raise e, t) ]

  abbrev pub ◌>>◌ : {A B : Type 0} → Act S A → Act S B → Act S B
  m >> k = m >>= λ _. k
