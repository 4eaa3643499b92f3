-- ===== src/Events.antt =====
-- gauth/events/events.py: `EventBus`. A step of the bus runs from one wait to the next: a call of a
-- method, or the loop from where it goes on to the handler that it awaits next. What the receivers
-- do is outside: a step gives the receivers that it calls with the event. Their exceptions are
-- caught one by one, so each is called. A handler may call the bus while it is awaited, as any
-- other task may; the functions, which the loop calls in one go, do not. Times are microseconds.
pub mod Delivery
pub mod Silence
mod Tests
use mathlib.Core.List.{lookup}
use gauth_py.Base.{
  ℕ, ◌+◌, Bool, true, false, List, [], ◌∷◌, ◌++◌, drop, map, Option, none, some, String, ite,
  if◌then◌else◌,
}
use gauth_py.Base.Dict.{insert, contains}

pub data EventType : Type 0 where
  service_started service_stopped service_error : EventType
  auth_request auth_grant auth_denied : EventType
  authz_request authz_granted authz_denied : EventType
  token_issued token_validated token_expired token_revoked : EventType
  transaction_start transaction_success transaction_failure : EventType
  rate_limit_exceeded audit_log_created error_occurred : EventType

unfoldable pub EventType_discrete : Discrete EventType
EventType_discrete = hlevel

pub data EventAction : Type 0 where
  create update delete validate grant deny revoke expire login logout access process : EventAction

-- The source's field `type` is `kind` here; metadata values are texts.
pub record Event : Type 0 where
  pub id : String
  pub kind : EventType
  pub action : EventAction
  pub subject : String
  pub resource : String
  pub timestamp : ℕ
  pub metadata : List (String × String)
  pub source : String

-- The receivers of `H` are the handlers and the functions, `dec` tells two handlers apart.
module _ {H : Type 0} (dec : Discrete H) where
  abbrev pub Receivers : Type 0
  Receivers = List (EventType × List H)

  unfoldable pub receivers_of : EventType → Receivers → List H
  unfolding lookup
  receivers_of event_type m = elim (lookup EventType_discrete event_type m) [
    | none ↦ []
    | some hs ↦ hs
  ]

  -- `if event_type not in m: m[event_type] = []`, and the `append` after it.
  unfoldable pub append_to : EventType → H → Receivers → Receivers
  unfolding receivers_of insert
  append_to event_type h m =
      insert EventType_discrete event_type (receivers_of event_type m ++ h ∷ []) m

  -- `list.remove`, whose ValueError is caught.
  unfoldable pub remove_first : H → List H → List H
  remove_first h [] = []
  remove_first h (x ∷ xs) = let rest = remove_first h xs in ite (dec h x) xs (x ∷ rest)

  -- `dispatching` is where the loop `_processor_task` stands: the event that it dispatches and the
  -- index of the next handler, while it awaits the handler before.
  pub record EventBus : Type 0 where
    pub handlers : Receivers
    pub subscribers : Receivers
    pub running : Bool
    pub event_queue : List Event
    pub dispatching : Option (Event × ℕ)

  abbrev pub init : EventBus
  init = record {
    handlers = [];
    subscribers = [];
    running = false;
    event_queue = [];
    dispatching = none;
  }

  unfoldable pub start : EventBus → EventBus
  start b = record b { running = true }

  -- The loop is cancelled, also where it awaits a handler.
  unfoldable pub stop : EventBus → EventBus
  stop b = if b.running then record b { running = false; dispatching = none } else b

  unfoldable pub subscribe : EventType → H → EventBus → EventBus
  unfolding append_to
  subscribe event_type h b = record b { handlers = append_to event_type h b.handlers }

  unfoldable pub subscribe_function : EventType → H → EventBus → EventBus
  unfolding append_to
  subscribe_function event_type f b = record b {
    subscribers = append_to event_type f b.subscribers;
  }

  unfoldable pub unsubscribe : EventType → H → EventBus → EventBus
  unfolding contains insert remove_first receivers_of
  unsubscribe event_type h b =
      if contains EventType_discrete event_type b.handlers
      then record b {
        handlers =
            insert EventType_discrete event_type
              (remove_first h (receivers_of event_type b.handlers)) b.handlers;
      }
      else b

  -- It starts the bus if that does not run.
  unfoldable pub publish : Event → EventBus → EventBus
  publish e b = record b { running = true; event_queue = b.event_queue ++ e ∷ [] }

  -- One call of each receiver with the event, in order.
  abbrev pub deliveries : Event → List H → List (H × Event)
  deliveries e = map (λ h. (h, e))

  -- The dispatch from the handler with index `i` to where it awaits that handler, or to its end,
  -- where the functions are called.
  unfoldable pub dispatch_event : Event → ℕ → EventBus → List (H × Event) × EventBus
  unfolding receivers_of
  dispatch_event e i b = elim (drop i (receivers_of e.kind b.handlers)) [
    | h ∷ _ ↦ ((h, e) ∷ [], record b { dispatching = some (e, i + 1) })
    | [] ↦ (deliveries e (receivers_of e.kind b.subscribers), record b { dispatching = none })
  ]

  -- The loop goes on: with the dispatch that it is in, or with the next event.
  unfoldable pub process_event : EventBus → List (H × Event) × EventBus
  unfolding dispatch_event
  process_event b =
      if b.running
      then elim b.dispatching [
        | some (e, i) ↦ dispatch_event e i b
        | none ↦ elim b.event_queue [
          | [] ↦ ([], b)
          | e ∷ rest ↦ dispatch_event e 0 (record b { event_queue = rest })
        ]
      ]
      else ([], b)

  pub data Call : Type 0 where
    starts stops processes : Call
    subscribes unsubscribes : EventType → H → Call
    subscribes_function : EventType → H → Call
    publishes : Event → Call

  -- The receivers that are called, and the bus after it.
  unfoldable pub serve : Call → EventBus → List (H × Event) × EventBus
  unfolding start stop subscribe unsubscribe subscribe_function publish process_event
  serve starts b = ([], start b)
  serve stops b = ([], stop b)
  serve processes b = process_event b
  serve (subscribes t h) b = ([], subscribe t h b)
  serve (unsubscribes t h) b = ([], unsubscribe t h b)
  serve (subscribes_function t h) b = ([], subscribe_function t h b)
  serve (publishes e) b = ([], publish e b)

  unfoldable pub serve_all : List Call → EventBus → List (H × Event) × EventBus
  unfolding serve
  serve_all [] b = ([], b)
  serve_all (call ∷ calls) b =
      let (heard, b') = serve call b in
      let (later, b'') = serve_all calls b' in (heard ++ later, b'')
