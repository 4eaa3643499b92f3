-- ===== src/Events/Delivery.antt =====
-- gauth/events/events.py: what reaches the receivers, and in which order.
use mathlib.Core.List.{append_assoc, append-nil}
use gauth_py.Base.{
  ℕ, zero, suc, ◌+◌, ◌≡◌, refl, sym, ap, ◌∙◌, Bool, true, false, Option, none, some, List, [], ◌∷◌,
  ◌++◌, drop, length, if◌then◌else◌, All, arith,
}
use gauth_py.Events.{
  Event, EventBus, Receivers, receivers_of, deliveries, start, publish, dispatch_event,
  process_event, Call, starts, stops, processes, subscribes, unsubscribes, subscribes_function,
  publishes, serve, serve_all,
}

module _ {H : Type 0} (dec : Discrete H) where
  -- Each receiver of the event, in the order of subscription, the functions last.
  abbrev pub to_all : Receivers dec → Receivers dec → Event → List (H × Event)
  to_all hs fs e =
      deliveries dec e (receivers_of dec e.kind hs) ++ deliveries dec e (receivers_of dec e.kind fs)

  abbrev pub all_to_all : Receivers dec → Receivers dec → List Event → List (H × Event)
  all_to_all hs fs [] = []
  all_to_all hs fs (e ∷ es) = to_all hs fs e ++ all_to_all hs fs es

  -- What the dispatch in progress has left to do.
  abbrev pub left_over : Receivers dec → Receivers dec → Option (Event × ℕ) → List (H × Event)
  left_over hs fs none = []
  left_over hs fs (some (e, i)) =
      deliveries dec e (drop i (receivers_of dec e.kind hs))
      ++ deliveries dec e (receivers_of dec e.kind fs)

  -- What is still to be done.
  abbrev pub due : EventBus dec → List (H × Event)
  due b =
      left_over b.handlers b.subscribers b.dispatching
      ++ all_to_all b.handlers b.subscribers b.event_queue

  -- The events that the calls publish.
  abbrev pub published : List (Call dec) → List Event
  published [] = []
  published (publishes e ∷ calls) = e ∷ published calls
  published (_ ∷ calls) = published calls

  -- The call neither stops the bus nor changes who receives.
  abbrev pub Steady : Call dec → Type 0
  Steady starts = Unit
  Steady processes = Unit
  Steady (publishes e) = Unit
  Steady _ = ⊥

  all_to_all-append :
      (hs fs : Receivers dec) (xs ys : List Event)
      → all_to_all hs fs (xs ++ ys) ≡ all_to_all hs fs xs ++ all_to_all hs fs ys
  all_to_all-append hs fs [] ys = refl
  all_to_all-append hs fs (x ∷ xs) ys =
      ap (λ l. to_all hs fs x ++ l) (all_to_all-append hs fs xs ys)
      ∙ sym (append_assoc (to_all hs fs x) (all_to_all hs fs xs) (all_to_all hs fs ys))

  drop-next : (i : ℕ) (x : H) (xs hs : List H) → drop i hs ≡ x ∷ xs → drop (i + 1) hs ≡ xs
  drop-next zero x xs [] p = absurd cc
  drop-next zero x xs (y ∷ hs) p = cc
  drop-next (suc i) x xs [] p = absurd cc
  drop-next (suc i) x xs (y ∷ hs) p =
      let e : suc i + 1 ≡ suc (i + 1) = omega arith in rw e (drop-next i x xs hs p)

  -- A step does what comes first of what is due.
  record IsStep (b : EventBus dec) (r : List (H × Event) × EventBus dec) : Type 0 where
    done : r.0 ++ due r.1 ≡ due b
    same_handlers : r.1.handlers ≡ b.handlers
    same_functions : r.1.subscribers ≡ b.subscribers

  dispatch_event-done :
      (e : Event) (i : ℕ) (b : EventBus dec)
      → IsStep (record b { dispatching = some (e, i) }) (dispatch_event dec e i b)
  unfolding dispatch_event
  dispatch_event-done e i b = go (drop i (receivers_of dec e.kind b.handlers)) refl
    where
      waits : List (H × Event)
      waits = all_to_all b.handlers b.subscribers b.event_queue

      go :
          (l : List H)
          → drop i (receivers_of dec e.kind b.handlers) ≡ l
          → IsStep
              (record b { dispatching = some (e, i) })
              (elim l [
                | x ∷ _ ↦ ((x, e) ∷ [], record b { dispatching = some (e, i + 1) })
                | [] ↦ (
                  deliveries dec e (receivers_of dec e.kind b.subscribers),
                  record b { dispatching = none },
                )
              ])
      go [] p = record { done = rw p refl; same_handlers = refl; same_functions = refl }
      go (x ∷ xs) p = record {
        done = rw (p, drop-next i x xs (receivers_of dec e.kind b.handlers) p) refl;
        same_handlers = refl;
        same_functions = refl;
      }

  process_event-done : (b : EventBus dec) → IsStep b (process_event dec b)
  unfolding process_event
  process_event-done b = go b.running b.dispatching b.event_queue refl refl
    where
      go :
          (r : Bool) (o : Option (Event × ℕ)) (q : List Event)
          → b.dispatching ≡ o
          → b.event_queue ≡ q
          → IsStep b (
              if r
              then elim o [
                | some (e, i) ↦ dispatch_event dec e i b
                | none ↦ elim q [
                  | [] ↦ ([], b)
                  | e ∷ rest ↦ dispatch_event dec e 0 (record b { event_queue = rest })
                ]
              ]
              else ([], b))
      go false o q d w = record { done = refl; same_handlers = refl; same_functions = refl }
      go true (some (e, i)) q d w =
          let s = dispatch_event-done e i b in
          record {
            done = s.done ∙ rw d refl;
            same_handlers = s.same_handlers;
            same_functions = s.same_functions;
          }
      go true none [] d w = record { done = refl; same_handlers = refl; same_functions = refl }
      go true none (e ∷ rest) d w =
          let s = dispatch_event-done e 0 (record b { event_queue = rest }) in
          record {
            done = s.done ∙ rw (d, w) refl;
            same_handlers = s.same_handlers;
            same_functions = s.same_functions;
          }

  due-publish :
      (e : Event) (b : EventBus dec)
      → due (publish dec e b) ≡ due b ++ all_to_all b.handlers b.subscribers (e ∷ [])
  unfolding publish
  due-publish e b =
      let left = left_over b.handlers b.subscribers b.dispatching in
      ap (λ l. left ++ l) (all_to_all-append b.handlers b.subscribers b.event_queue (e ∷ []))
      ∙ sym (
          append_assoc left (all_to_all b.handlers b.subscribers b.event_queue)
            (all_to_all b.handlers b.subscribers (e ∷ [])))

  -- What was called and what is due, after calls that neither stop the bus nor change who receives.
  in_order :
      (calls : List (Call dec)) (b : EventBus dec)
      → All Steady calls
      → (serve_all dec calls b).0 ++ due (serve_all dec calls b).1
        ≡ due b ++ all_to_all b.handlers b.subscribers (published calls)
  unfolding serve_all serve start publish
  in_order [] b a = sym (append-nil (due b))
  in_order (starts ∷ calls) b a = in_order calls (start dec b) a.1
  in_order (stops ∷ calls) b a = absurd a.0
  in_order (subscribes t h ∷ calls) b a = absurd a.0
  in_order (unsubscribes t h ∷ calls) b a = absurd a.0
  in_order (subscribes_function t h ∷ calls) b a = absurd a.0
  in_order (publishes e ∷ calls) b a =
      let rest = all_to_all b.handlers b.subscribers (published calls) in
      let now = to_all b.handlers b.subscribers e in
      in_order calls (publish dec e b) a.1
      ∙ ap (λ l. l ++ rest) (due-publish e b)
      ∙ append_assoc (due b) (now ++ []) rest
      ∙ ap (λ l. due b ++ l) (append_assoc now [] rest)
  in_order (processes ∷ calls) b a =
      let s = process_event-done b in
      let r = process_event dec b in
      append_assoc r.0 (serve_all dec calls r.1).0 (due (serve_all dec calls r.1).1)
      ∙ ap (λ l. r.0 ++ l) (in_order calls r.1 a.1)
      ∙ sym (append_assoc r.0 (due r.1) (all_to_all r.1.handlers r.1.subscribers (published calls)))
      ∙ rw (s.done, s.same_handlers, s.same_functions) refl

  -- The rounds of the loop that what is due takes.
  abbrev pub work_on : Receivers dec → List Event → ℕ
  work_on hs [] = 0
  work_on hs (e ∷ es) = length (receivers_of dec e.kind hs) + 1 + work_on hs es

  abbrev pub work_left : Receivers dec → Option (Event × ℕ) → ℕ
  work_left hs none = 0
  work_left hs (some (e, i)) = length (drop i (receivers_of dec e.kind hs)) + 1

  abbrev pub work : EventBus dec → ℕ
  work b = work_left b.handlers b.dispatching + work_on b.handlers b.event_queue

  abbrev pub rounds : ℕ → List (Call dec)
  rounds zero = []
  rounds (suc n) = processes ∷ rounds n
