-- ===== src/Audit/Tests.antt =====
-- Runs of the in-memory audit logger.
use gauth_py.Base.{ℕ, ◌≡◌, List, [], ◌∷◌, none, String}
use gauth_py.Core.Types.{AuditEvent}
use gauth_py.Audit.{init}
use gauth_py.Audit.Memory.{log_all, log_all-last}

abbrev event : String → ℕ → AuditEvent
event event_type time = record {
  event_id = "e";
  event_type = event_type;
  client_id = "c";
  timestamp = time;
  details = [];
  principal = none;
  resource = none;
}

abbrev events : List AuditEvent
events = event "token_issued" 1 ∷ event "transaction" 2 ∷ event "token_revoked" 3 ∷ []

log_all-last_example :
    (log_all events (init 2)).events ≡ event "transaction" 2 ∷ event "token_revoked" 3 ∷ []
log_all-last_example = log_all-last 2 events
