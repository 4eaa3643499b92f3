-- ===== src/Events/Tests.antt =====
-- Runs of the event bus, and the theorems at concrete inputs.
use gauth_py.Events.{EventType_discrete}
use native.Mathlib.Decide.{ℕ_discrete}
use gauth_py.Base.{◌≤◌, ◌≡◌, refl, List, [], ◌∷◌, String, arith}
use gauth_py.Events.{
  Event, EventType, token_issued, token_revoked, grant, EventBus, init, unsubscribe, receivers_of,
  Call, stops, processes, subscribes, unsubscribes, subscribes_function, publishes, serve_all,
}
use gauth_py.Events.Silence.{count, heard, unsubscribe-final}

abbrev event : String → EventType → Event
event id kind = record {
  id = id;
  kind = kind;
  action = grant;
  subject = "alice";
  resource = "token";
  timestamp = 1;
  metadata = [];
  source = "gauth";
}

abbrev calls : List (Call ℕ_discrete)
calls =
    subscribes token_issued 1
    ∷ subscribes_function token_issued 2
    ∷ publishes (event "a" token_issued)
    ∷ publishes (event "b" token_revoked)
    ∷ processes
    ∷ stops
    ∷ processes
    ∷ publishes (event "c" token_issued)
    ∷ []

abbrev bus : EventBus ℕ_discrete
bus = (serve_all ℕ_discrete calls (init ℕ_discrete)).1

waits : bus.event_queue ≡ event "b" token_revoked ∷ event "c" token_issued ∷ []
unfolding serve_all EventType_discrete
waits = refl

-- The loop was stopped where it awaited the handler, so the function is not called.
called : (serve_all ℕ_discrete calls (init ℕ_discrete)).0 ≡ (1, event "a" token_issued) ∷ []
unfolding serve_all EventType_discrete
called = refl

-- The first of two handlers unsubscribes while it handles the event, and the second is passed over.
passed_over :
    (serve_all ℕ_discrete
      (subscribes token_issued 1
        ∷ subscribes token_issued 2
        ∷ publishes (event "a" token_issued)
        ∷ processes
        ∷ unsubscribes token_issued 1
        ∷ processes
        ∷ [])
      (init ℕ_discrete)).0
    ≡ (1, event "a" token_issued) ∷ []
unfolding serve_all EventType_discrete ℕ_discrete
passed_over = refl

abbrev steady : List (Call ℕ_discrete)
steady = publishes (event "d" token_issued) ∷ processes ∷ processes ∷ []

abbrev later : List (Call ℕ_discrete)
later = processes ∷ processes ∷ []

one_subscription : count ℕ_discrete 1 (receivers_of ℕ_discrete token_issued bus.handlers) ≤ 1
unfolding count receivers_of serve_all EventType_discrete ℕ_discrete
one_subscription = omega arith

no_function : count ℕ_discrete 1 (receivers_of ℕ_discrete token_issued bus.subscribers) ≡ 0
unfolding count receivers_of serve_all EventType_discrete ℕ_discrete
no_function = refl

unsubscribe-final_example :
    heard ℕ_discrete 1 token_issued
      (serve_all ℕ_discrete later (unsubscribe ℕ_discrete token_issued 1 bus)).0
    ≡ []
unsubscribe-final_example =
    unsubscribe-final ℕ_discrete 1 token_issued later bus one_subscription no_function
      (tt, (tt, tt))
