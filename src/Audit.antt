-- ===== src/Audit.antt =====
-- gauth/audit/logger.py: `MemoryAuditLogger`. Its `deque(maxlen=…)` drops the oldest event when
-- it is full.
pub mod Memory
mod Tests
use gauth_py.Base.{
  ℕ, ◌+◌, Bool, true, false, not, ◌&&◌, List, [], ◌∷◌, ◌++◌, Option, none, some, String,
  String_discrete, truthy, ite, ltb, length, drop, keep, if◌then◌else◌,
}
use gauth_py.Core.Types.{AuditEvent}
use gauth_py.Core.Exceptions.{Act, ok}

pub record MemoryAuditLogger : Type 0 where
  pub max_entries : ℕ
  pub events : List AuditEvent

unfoldable pub init : ℕ → MemoryAuditLogger
init max_entries = record { max_entries = max_entries; events = [] }

-- `deque.append` under a `maxlen`.
unfoldable pub append_bounded : ℕ → List AuditEvent → AuditEvent → List AuditEvent
append_bounded maxlen events e =
    let longer = events ++ e ∷ [] in if ltb maxlen (length longer) then drop 1 longer else longer

unfoldable pub log : AuditEvent → Act MemoryAuditLogger (Unit {0})
unfolding append_bounded
log e l = (ok tt, record l { events = append_bounded l.max_entries l.events e })

-- `if wanted and actual != wanted: continue`; an absent or empty filter passes everything.
unfoldable pub text_passes : Option String → String → Bool
unfolding truthy
text_passes none actual = true
text_passes (some wanted) actual =
    if truthy wanted then ite (String_discrete actual wanted) true false else true

unfoldable pub starts_after : Option ℕ → ℕ → Bool
starts_after none time = true
starts_after (some start_time) time = not (ltb time start_time)

unfoldable pub ends_before : Option ℕ → ℕ → Bool
ends_before none time = true
ends_before (some end_time) time = not (ltb end_time time)

unfoldable pub get_events :
    Option String → Option String → Option ℕ → Option ℕ → MemoryAuditLogger → List AuditEvent
unfolding text_passes starts_after ends_before
get_events client_id event_type start_time end_time l =
    keep
      (λ e.
        text_passes client_id e.client_id
        && (text_passes event_type e.event_type
            && (starts_after start_time e.timestamp && ends_before end_time e.timestamp)))
      l.events
