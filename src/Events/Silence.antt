-- ===== src/Events/Silence.antt =====
-- gauth/events/events.py: a handler that unsubscribed is not called again.
use gauth_py.Base.{
  ℕ, zero, suc, ◌+◌, Option, none, some, ◌≤◌, ◌≡◌, refl, sym, ap, subst, ◌∙◌, Bool, true, false,
  List, [], ◌∷◌, ◌++◌, drop, inl, inr, ite, if_pos, if_neg, if◌then◌else◌, Bool-cases, arith, keep,
  All,
}
use gauth_py.Base.Dict.{contains, insert, lookup-insert}
use gauth_py.Events.{
  Event, EventType, EventType_discrete, EventBus, Receivers, receivers_of, append_to, remove_first,
  deliveries, start, stop, subscribe, subscribe_function, unsubscribe, publish, dispatch_event,
  process_event, Call, starts, stops, processes, subscribes, unsubscribes, subscribes_function,
  publishes, serve, serve_all,
}

module _ {H : Type 0} (dec : Discrete H) where
  unfoldable pub count : H → List H → ℕ
  count h [] = 0
  count h (x ∷ xs) = ite (dec h x) (suc (count h xs)) (count h xs)

  remove_first-gone : (h : H) (xs : List H) → count h xs ≤ 1 → count h (remove_first dec h xs) ≡ 0
  unfolding count remove_first
  remove_first-gone h [] l = refl
  remove_first-gone h (x ∷ xs) l = ground (arith, remove_first-gone h xs)

  remove_first-count_zero :
      (h x : H) (xs : List H) → count h xs ≡ 0 → count h (remove_first dec x xs) ≡ 0
  unfolding count remove_first
  remove_first-count_zero h x [] l = refl
  remove_first-count_zero h x (y ∷ xs) l = elim (dec x y) [
    | yes p ↦ rw (if_pos _ p) (ground arith)
    | no n ↦ rw (if_neg _ n) (ground (arith, remove_first-count_zero h x xs))
  ]

  count-append : (h : H) (xs ys : List H) → count h (xs ++ ys) ≡ count h xs + count h ys
  unfolding count
  count-append h [] ys = omega arith
  count-append h (x ∷ xs) ys = ground (arith, count-append h xs ys)

  receivers_of-insert :
      (t u : EventType) (hs : List H) (m : Receivers dec)
      → receivers_of dec u (insert EventType_discrete t hs m)
        ≡ ite (EventType_discrete u t) hs (receivers_of dec u m)
  unfolding receivers_of
  receivers_of-insert t u hs m = elim (EventType_discrete u t) [
    | yes p ↦ ground (arith, lookup-insert EventType_discrete t u hs m)
    | no n ↦ ground (arith, lookup-insert EventType_discrete t u hs m)
  ]

  unfoldable pub concerns : H → EventType → H × Event → Bool
  concerns h t d = ite (dec h d.0) (ite (EventType_discrete d.1.kind t) true false) false

  -- The calls of `h` with events of the type `t`.
  abbrev pub heard : H → EventType → List (H × Event) → List (H × Event)
  heard h t = keep (concerns h t)

  heard-append :
      (h : H) (t : EventType) (xs ys : List (H × Event))
      → heard h t (xs ++ ys) ≡ heard h t xs ++ heard h t ys
  heard-append h t [] ys = refl
  heard-append h t (x ∷ xs) ys = elim (Bool-cases (concerns h t x)) [
    | inl y ↦ rw y (ap (◌∷◌ x) (heard-append h t xs ys))
    | inr n ↦ rw n (heard-append h t xs ys)
  ]

  concerns-other_kind :
      (h x : H) (t : EventType) (e : Event) → ¬ (e.kind ≡ t) → concerns h t (x, e) ≡ false
  unfolding concerns
  concerns-other_kind h x t e n = elim (dec h x) [ yes p ↦ ground arith | no m ↦ ground arith ]

  concerns-other : (h x : H) (t : EventType) (e : Event) → ¬ (h ≡ x) → concerns h t (x, e) ≡ false
  unfolding concerns
  concerns-other h x t e n = if_neg (dec h x) n _ _

  heard-other_kind :
      (h : H) (t : EventType) (e : Event) (hs : List H)
      → ¬ (e.kind ≡ t)
      → heard h t (deliveries dec e hs) ≡ []
  heard-other_kind h t e [] n = refl
  heard-other_kind h t e (x ∷ hs) n =
      rw (concerns-other_kind h x t e n) (heard-other_kind h t e hs n)

  heard-absent :
      (h : H) (t : EventType) (e : Event) (hs : List H)
      → count h hs ≡ 0
      → heard h t (deliveries dec e hs) ≡ []
  unfolding count
  heard-absent h t e [] l = refl
  heard-absent h t e (x ∷ hs) l = elim (dec h x) [
    | yes p ↦ absurd (ground arith)
    | no n ↦ rw (concerns-other h x t e n) (heard-absent h t e hs (ground arith))
  ]

  -- `h` is neither a handler nor a function for the type `t`.
  record IsSilent (h : H) (t : EventType) (b : EventBus dec) : Type 0 where
    no_handler : count h (receivers_of dec t b.handlers) ≡ 0
    no_function : count h (receivers_of dec t b.subscribers) ≡ 0

  heard-deliveries :
      (h : H) (t : EventType) (e : Event) (m : Receivers dec)
      → count h (receivers_of dec t m) ≡ 0
      → heard h t (deliveries dec e (receivers_of dec e.kind m)) ≡ []
  heard-deliveries h t e m z = elim (EventType_discrete e.kind t) [
    | yes p ↦
        heard-absent h t e (receivers_of dec e.kind m)
          (subst (λ k. count h (receivers_of dec k m) ≡ 0) (sym p) z)
    | no n ↦ heard-other_kind h t e (receivers_of dec e.kind m) n
  ]

  -- No step of the dispatch calls `h` for the type `t`.
  drop-silent :
      (h x : H) (t : EventType) (e : Event) (i : ℕ) (xs hs : List H)
      → drop i hs ≡ x ∷ xs
      → heard h t (deliveries dec e hs) ≡ []
      → heard h t ((x, e) ∷ []) ≡ []
  drop-silent h x t e zero xs [] p z = absurd cc
  drop-silent h x t e zero xs (y ∷ hs) p z =
      let same : y ≡ x = ground arith in
      elim (Bool-cases (concerns h t (y, e))) [
        | inl c ↦ absurd (ground arith)
        | inr c ↦ ground arith
      ]
  drop-silent h x t e (suc i) xs [] p z = absurd cc
  drop-silent h x t e (suc i) xs (y ∷ hs) p z = elim (Bool-cases (concerns h t (y, e))) [
    | inl c ↦ absurd (ground arith)
    | inr c ↦ drop-silent h x t e i xs hs p (ground arith)
  ]

  append_to-silent :
      (h x : H) (t u : EventType) (m : Receivers dec)
      → ¬ ((u ≡ t) × (x ≡ h))
      → count h (receivers_of dec t m) ≡ 0
      → count h (receivers_of dec t (append_to dec u x m)) ≡ 0
  unfolding append_to count
  append_to-silent h x t u m n z =
      let after = receivers_of-insert u t (receivers_of dec u m ++ x ∷ []) m in
      elim (EventType_discrete t u) [
        | no k ↦ ground arith
        | yes p ↦
            let sum = count-append h (receivers_of dec u m) (x ∷ []) in
            elim (dec h x) [ yes q ↦ absurd (n (sym p, sym q)) | no k ↦ ground arith ]
      ]

  unsubscribe-IsSilent :
      (h x : H) (t u : EventType) (b : EventBus dec)
      → IsSilent h t b
      → IsSilent h t (unsubscribe dec u x b)
  unfolding unsubscribe
  unsubscribe-IsSilent h x t u b s = elim (Bool-cases (contains EventType_discrete u b.handlers)) [
    | inr n ↦ rw (unsubscribe, n) s
    | inl y ↦
        rw (unsubscribe, y)
          (record {
            no_handler =
                let after =
                  receivers_of-insert u t (remove_first dec x (receivers_of dec u b.handlers))
                    b.handlers in
                let old = s.no_handler in
                elim (EventType_discrete t u) [
                  | no k ↦ ground arith
                  | yes p ↦
                      ground (arith, remove_first-count_zero h x (receivers_of dec u b.handlers))
                ];
            no_function = s.no_function;
          })
  ]

  absent-count :
      (h : H) (t : EventType) (m : Receivers dec)
      → contains EventType_discrete t m ≡ false
      → count h (receivers_of dec t m) ≡ 0
  unfolding contains receivers_of count
  absent-count h t m n = ground arith

  unsubscribed-IsSilent :
      (h : H) (t : EventType) (b : EventBus dec)
      → count h (receivers_of dec t b.handlers) ≤ 1
      → count h (receivers_of dec t b.subscribers) ≡ 0
      → IsSilent h t (unsubscribe dec t h b)
  unfolding unsubscribe
  unsubscribed-IsSilent h t b l z = elim (Bool-cases (contains EventType_discrete t b.handlers)) [
    | inr n ↦
        rw (unsubscribe, n) (record { no_handler = absent-count h t b.handlers n; no_function = z })
    | inl y ↦
        rw (unsubscribe, y)
          (record {
            no_handler =
                let after =
                  receivers_of-insert t t (remove_first dec h (receivers_of dec t b.handlers))
                    b.handlers in
                let gone = remove_first-gone h (receivers_of dec t b.handlers) l in ground arith;
            no_function = z;
          })
  ]

  -- The call does not subscribe `h` to the type `t`.
  abbrev pub Spares : H → EventType → Call dec → Type 0
  Spares h t (subscribes u x) = ¬ ((u ≡ t) × (x ≡ h))
  Spares h t (subscribes_function u x) = ¬ ((u ≡ t) × (x ≡ h))
  Spares h t starts = Unit
  Spares h t stops = Unit
  Spares h t processes = Unit
  Spares h t (unsubscribes u x) = Unit
  Spares h t (publishes e) = Unit

  -- Nothing was heard, and it stays so.
  IsQuiet : H → EventType → List (H × Event) × EventBus dec → Type 0
  IsQuiet h t r = (heard h t r.0 ≡ []) × IsSilent h t r.1

  moved-IsSilent :
      (h : H) (t : EventType) (q : List Event) (o : Option (Event × ℕ)) (r : Bool)
      (b : EventBus dec)
      → IsSilent h t b
      → IsSilent h t (record b { event_queue = q; dispatching = o; running = r })
  moved-IsSilent h t q o r b s = record { no_handler = s.no_handler; no_function = s.no_function }

  dispatch_event-IsQuiet :
      (h : H) (t : EventType) (e : Event) (i : ℕ) (b : EventBus dec)
      → IsSilent h t b
      → IsQuiet h t (dispatch_event dec e i b)
  unfolding dispatch_event IsQuiet
  dispatch_event-IsQuiet h t e i b s = go (drop i (receivers_of dec e.kind b.handlers)) refl
    where
      go :
          (l : List H)
          → drop i (receivers_of dec e.kind b.handlers) ≡ l
          → IsQuiet h t (elim l [
            | x ∷ _ ↦ ((x, e) ∷ [], record b { dispatching = some (e, i + 1) })
            | [] ↦ (
              deliveries dec e (receivers_of dec e.kind b.subscribers),
              record b { dispatching = none },
            )
          ])
      go [] p = (
        heard-deliveries h t e b.subscribers s.no_function,
        moved-IsSilent h t b.event_queue none b.running b s,
      )
      go (x ∷ xs) p = (
        drop-silent h x t e i xs (receivers_of dec e.kind b.handlers) p
            (heard-deliveries h t e b.handlers s.no_handler),
        moved-IsSilent h t b.event_queue (some (e, i + 1)) b.running b s,
      )

  process_event-IsQuiet :
      (h : H) (t : EventType) (b : EventBus dec)
      → IsSilent h t b
      → IsQuiet h t (process_event dec b)
  unfolding process_event IsQuiet
  process_event-IsQuiet h t b s = go b.running b.dispatching b.event_queue
    where
      go :
          (r : Bool) (o : Option (Event × ℕ)) (q : List Event)
          → IsQuiet h t (
              if r
              then elim o [
                | some (e, i) ↦ dispatch_event dec e i b
                | none ↦ elim q [
                  | [] ↦ ([], b)
                  | e ∷ rest ↦ dispatch_event dec e 0 (record b { event_queue = rest })
                ]
              ]
              else ([], b))
      go false o q = (refl, s)
      go true (some (e, i)) q = dispatch_event-IsQuiet h t e i b s
      go true none [] = (refl, s)
      go true none (e ∷ rest) =
          dispatch_event-IsQuiet h t e 0 (record b { event_queue = rest })
            (moved-IsSilent h t rest b.dispatching b.running b s)

  stop-IsSilent :
      (h : H) (t : EventType) (b : EventBus dec) → IsSilent h t b → IsSilent h t (stop dec b)
  unfolding stop
  stop-IsSilent h t b s = go b.running
    where
      go :
          (r : Bool)
          → IsSilent h t (if r then record b { running = false; dispatching = none } else b)
      go true = moved-IsSilent h t b.event_queue none false b s
      go false = s

  serve-IsQuiet :
      (h : H) (t : EventType) (call : Call dec) (b : EventBus dec)
      → Spares h t call
      → IsSilent h t b
      → IsQuiet h t (serve dec call b)
  unfolding serve start publish subscribe subscribe_function IsQuiet
  serve-IsQuiet h t starts b n s = (refl, moved-IsSilent h t b.event_queue b.dispatching true b s)
  serve-IsQuiet h t stops b n s = (refl, stop-IsSilent h t b s)
  serve-IsQuiet h t processes b n s = process_event-IsQuiet h t b s
  serve-IsQuiet h t (publishes e) b n s =
      (refl, moved-IsSilent h t (b.event_queue ++ e ∷ []) b.dispatching true b s)
  serve-IsQuiet h t (subscribes u x) b n s = (
    refl,
    record {
      no_handler = append_to-silent h x t u b.handlers n s.no_handler;
      no_function = s.no_function;
    },
  )
  serve-IsQuiet h t (subscribes_function u x) b n s = (
    refl,
    record {
      no_handler = s.no_handler;
      no_function = append_to-silent h x t u b.subscribers n s.no_function;
    },
  )
  serve-IsQuiet h t (unsubscribes u x) b n s = (refl, unsubscribe-IsSilent h x t u b s)

  serve_all-heard :
      (h : H) (t : EventType) (calls : List (Call dec)) (b : EventBus dec)
      → All (Spares h t) calls
      → IsSilent h t b
      → heard h t (serve_all dec calls b).0 ≡ []
  unfolding serve_all IsQuiet
  serve_all-heard h t [] b n s = refl
  serve_all-heard h t (call ∷ calls) b n s =
      let (nothing, silent) = serve-IsQuiet h t call b n.0 s in
      let r = serve dec call b in
      heard-append h t r.0 (serve_all dec calls r.1).0
      ∙ rw (nothing, serve_all-heard h t calls r.1 n.1 silent) refl

  -- A handler that was subscribed to a type once at most, and not as a function, and unsubscribes
  -- from it is not called with an event of that type again, until it is subscribed to it anew;
  -- this holds also in the middle of a dispatch.
  pub unsubscribe-final :
      (h : H) (t : EventType) (calls : List (Call dec)) (b : EventBus dec)
      → count h (receivers_of dec t b.handlers) ≤ 1
      → count h (receivers_of dec t b.subscribers) ≡ 0
      → All (Spares h t) calls
      → heard h t (serve_all dec calls (unsubscribe dec t h b)).0 ≡ []
  unsubscribe-final h t calls b l z n =
      serve_all-heard h t calls (unsubscribe dec t h b) n (unsubscribed-IsSilent h t b l z)
