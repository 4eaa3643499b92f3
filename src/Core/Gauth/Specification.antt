-- ===== src/Core/Gauth/Specification.antt =====
-- What `GAuth` relies on in the documented contracts of `TokenStore` and `AuditLogger`: a store is
-- a map from token strings, and neither raises.
use gauth_py.Base.{Bool, true, false, Option, none, some, String, String_discrete, ◌≡◌, ite}
use gauth_py.Core.Types.{AccessToken, AuditEvent}
use gauth_py.Core.Exceptions.{ok}
use gauth_py.Core.Interfaces.{TokenStore, AuditLogger}

abbrev pub is_some : {A : Type 0} → Option A → Bool
is_some none = false
is_some (some _) = true

pub record IsTokenStore (ts : TokenStore) : Type 0 where
  pub view : ts.Tokens → String → Option AccessToken
  pub stored : String → AccessToken → ts.Tokens → ts.Tokens
  pub deleted : String → ts.Tokens → ts.Tokens
  pub get_lem : (t : String) (s : ts.Tokens) → ts.get t s ≡ (ok (view s t), s)
  pub store_lem :
      (t : String) (a : AccessToken) (s : ts.Tokens) → ts.store t a s ≡ (ok tt, stored t a s)
  pub delete_lem :
      (t : String) (s : ts.Tokens) → ts.delete t s ≡ (ok (is_some (view s t)), deleted t s)
  pub view-stored :
      (t j : String) (a : AccessToken) (s : ts.Tokens)
      → view (stored t a s) j ≡ ite (String_discrete j t) (some a) (view s j)
  pub view-deleted :
      (t j : String) (s : ts.Tokens)
      → view (deleted t s) j ≡ ite (String_discrete j t) none (view s j)

pub record IsAuditLogger (al : AuditLogger) : Type 0 where
  pub logged : AuditEvent → al.Log → al.Log
  pub log_lem : (e : AuditEvent) (l : al.Log) → al.log e l ≡ (ok tt, logged e l)
