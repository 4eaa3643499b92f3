-- ===== src/Poa/Clients/Tests.antt =====
-- Tests of the manager of clients, and the theorems at concrete inputs.
use gauth_py.Poa.Clients.{CapabilityType_discrete}
use gauth_py.Base.{ℕ, ◌≡◌, refl, true, false, List, [], ◌∷◌, none, some, String_discrete, elem}
use gauth_py.Core.Exceptions.{ok, raise, value_error}
use gauth_py.Poa.{Client}
use gauth_py.Poa.Clients.{
  CapabilityType_discrete, init, high, analysis, trading, decision_making,
  check_capability_authorization, find_capable_clients, suspend_client,
}
use gauth_py.Poa.Clients.Capable.{find_capable_clients-authorized}
use gauth_py.Poa.Clients.Suspension.{
  Call, registers, verifies, trusts, suspends, cleans, serve_all, suspend_client-final,
}

abbrev bot : Client
bot = record {
  id = "bot";
  name = "Bot";
  kind = "ai_system";
  capabilities = [];
  certifications = [];
  verification_status = "pending";
  trust_level = "basic";
  operational_constraints = [];
}

abbrev calls : List (Call × ℕ)
calls = (registers bot "root" none, 1) ∷ (verifies "bot" "seen", 2) ∷ (trusts "bot" high, 3) ∷ []

authorized : check_capability_authorization "bot" analysis [] (serve_all calls init) ≡ true
unfolding check_capability_authorization serve_all String_discrete CapabilityType_discrete
authorized = refl

not_a_trader : check_capability_authorization "bot" trading [] (serve_all calls init) ≡ false
unfolding check_capability_authorization serve_all String_discrete CapabilityType_discrete
not_a_trader = refl

found :
    find_capable_clients (analysis ∷ decision_making ∷ []) [] (some high) (serve_all calls init)
    ≡ ok ("bot" ∷ [])
unfolding find_capable_clients serve_all String_discrete CapabilityType_discrete
found = refl

unknown_level :
    find_capable_clients [] []
      (some high)
      (serve_all ((registers (record bot { trust_level = "vip" }) "root" none, 1) ∷ []) init)
    ≡ raise (value_error "not a valid TrustLevel")
unfolding find_capable_clients serve_all String_discrete
unknown_level = refl

suspended_refused :
    check_capability_authorization "bot" analysis []
      (serve_all ((suspends "bot" "root" "abuse", 4) ∷ []) (serve_all calls init))
    ≡ false
unfolding check_capability_authorization serve_all String_discrete
suspended_refused = refl

suspend_succeeds : (suspend_client "bot" "root" "abuse" (serve_all calls init)).0 ≡ true
unfolding suspend_client serve_all String_discrete
suspend_succeeds = refl

suspend_client-final_example :
    check_capability_authorization "bot" analysis [] (
      serve_all
        ((trusts "bot" high, 5) ∷ (registers bot "root" none, 6) ∷ (cleans, 7) ∷ [])
        (suspend_client "bot" "root" "abuse" (serve_all calls init)).1)
    ≡ false
suspend_client-final_example =
    suspend_client-final "bot" "root" "abuse" (serve_all calls init)
      ((trusts "bot" high, 5) ∷ (registers bot "root" none, 6) ∷ (cleans, 7) ∷ []) analysis []
      suspend_succeeds (tt, (tt, (tt, tt)))

bot_found : elem String_discrete "bot" ("bot" ∷ []) ≡ true
unfolding String_discrete
bot_found = refl

decision_required :
    elem CapabilityType_discrete decision_making (analysis ∷ decision_making ∷ []) ≡ true
unfolding CapabilityType_discrete
decision_required = refl

find_capable_clients-authorized_example :
    check_capability_authorization "bot" decision_making [] (serve_all calls init) ≡ true
find_capable_clients-authorized_example =
    find_capable_clients-authorized (analysis ∷ decision_making ∷ []) [] (some high)
      (serve_all calls init) ("bot" ∷ []) "bot" decision_making found bot_found decision_required
