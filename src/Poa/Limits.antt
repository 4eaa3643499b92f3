-- ===== src/Poa/Limits.antt =====
-- gauth/poa/authorization.py: limits of money in the checks of transactions.
use gauth_py.Base.{ℕ, ◌≡◌, true, false, List, Option, some, inl, inr, String, Option-cases, arith}
use gauth_py.Base.Int.{ℤ, ◌≤ℤ◌}
use gauth_py.Poa.{PowerOfAttorney, GeographicRegion, IndustrySector}
use gauth_py.Poa.Manager.{
  AuthorizationManager, find_valid, transaction, check_authorization, allows, allows_transaction,
  over_limit,
}

over_limit_mono :
    (limits : List (String × ℤ)) (kind : String) (a b : ℤ)
    → b ≤ℤ a
    → over_limit limits kind (some a) ≡ false
    → over_limit limits kind (some b) ≡ false
unfolding over_limit
over_limit_mono limits kind a b h e = ground arith

allows_transaction_mono :
    (p : PowerOfAttorney) (kind : String) (a b : ℤ) (region : Option GeographicRegion)
    (sector : Option IndustrySector)
    → b ≤ℤ a
    → allows_transaction p kind (some a) region sector ≡ true
    → allows_transaction p kind (some b) region sector ≡ true
unfolding allows_transaction
allows_transaction_mono p kind a b region sector h e =
    ground (arith, over_limit_mono p.restrictions.monetary_limits kind a b h)

-- A transaction that is authorized is authorized for every smaller amount.
pub check_authorization_mono :
    (poa_id kind : String) (a b : ℤ) (region : Option GeographicRegion)
    (sector : Option IndustrySector) (now : ℕ) (m : AuthorizationManager)
    → b ≤ℤ a
    → check_authorization (transaction kind (some a) region sector) poa_id now m ≡ true
    → check_authorization (transaction kind (some b) region sector) poa_id now m ≡ true
unfolding check_authorization allows
check_authorization_mono poa_id kind a b region sector now m h e =
    elim (Option-cases (find_valid poa_id now m)) [
      | inl x ↦ absurd (ground arith)
      | inr (p, x) ↦ ground (arith, allows_transaction_mono p kind a b region sector h)
    ]
