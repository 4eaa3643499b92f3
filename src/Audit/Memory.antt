-- ===== src/Audit/Memory.antt =====
-- What a logger holds after a history, and what a query finds.
use mathlib.Core.List.{Mem, append-nil, append_assoc}
use gauth_py.Base.{
  ℕ, zero, suc, ◌+◌, ◌-◌, ◌≤◌, ◌≡◌, ◌↔◌, refl, sym, ap, subst, ◌∙◌, Bool, true, ◌&&◌, List, [], ◌∷◌,
  ◌++◌, Option, none, some, String, truthy, ltb, length, drop, arith, length-append, length-drop,
  Bool-cases, inl, inr,
}
use gauth_py.Base.Members.{keep-Mem_iff}
use gauth_py.Core.Types.{AuditEvent}
use gauth_py.Core.Interfaces.{AuditLogger}
use gauth_py.Core.Exceptions.{ok}
use gauth_py.Core.Gauth.Specification.{IsAuditLogger}
use gauth_py.Audit.{
  MemoryAuditLogger, init, append_bounded, log, get_events, text_passes, starts_after, ends_before,
}

abbrev pub memory_audit_logger : AuditLogger
memory_audit_logger = record { Log = MemoryAuditLogger; log = log }

log-memory : (e : AuditEvent) (l : MemoryAuditLogger) → log e l ≡ (ok tt, (log e l).1)
unfolding log
log-memory e l = refl

pub memory-IsAuditLogger : IsAuditLogger memory_audit_logger
memory-IsAuditLogger = record { logged = λ e l. (log e l).1; log_lem = log-memory }

-- A history of calls of `log`, oldest first.
pub log_all : List AuditEvent → MemoryAuditLogger → MemoryAuditLogger
unfolding log
log_all [] l = l
log_all (e ∷ es) l = log_all es (log e l).1

-- The last `n` of a list.
abbrev pub last : ℕ → List AuditEvent → List AuditEvent
last n es = drop (length es - n) es

drop-append :
    (n : ℕ) (xs ys : List AuditEvent) → n ≤ length xs → drop n (xs ++ ys) ≡ drop n xs ++ ys
drop-append zero xs ys h = refl
drop-append (suc n) [] ys h = absurd (omega arith)
drop-append (suc n) (x ∷ xs) ys h = drop-append n xs ys (omega arith)

drop-nil : (m : ℕ) → drop {A = AuditEvent} m [] ≡ []
drop-nil zero = refl
drop-nil (suc m) = refl

drop-drop : (m n : ℕ) (xs : List AuditEvent) → drop m (drop n xs) ≡ drop (n + m) xs
drop-drop m zero xs = ap (λ k. drop k xs) (omega arith)
drop-drop m (suc n) [] = drop-nil m ∙ sym (drop-nil (suc n + m))
drop-drop m (suc n) (x ∷ xs) =
    drop-drop m n xs
    ∙ ap (λ k. drop k (x ∷ xs)) (let e : suc (n + m) ≡ suc n + m = omega arith in e)

append_bounded-last :
    (n : ℕ) (es : List AuditEvent) (e : AuditEvent)
    → append_bounded n (last n es) e ≡ last n (es ++ e ∷ [])
unfolding append_bounded
append_bounded-last n es e =
    let k = length es - n in
    let longer : last n es ++ e ∷ [] ≡ drop k (es ++ e ∷ []) =
      sym (drop-append k es (e ∷ []) (omega arith)) in
    let len : length (es ++ e ∷ []) ≡ length es + 1 = length-append es (e ∷ []) in
    let len' : length (last n es ++ e ∷ []) ≡ length es - k + 1 =
      omega (arith, length-append (last n es) (e ∷ []), length-drop k es) in
    elim (Bool-cases (ltb n (length (last n es ++ e ∷ [])))) [
      | inl t ↦ rw t (
          ap (drop 1) longer
          ∙ drop-drop 1 k (es ++ e ∷ [])
          ∙ ap (λ i. drop i (es ++ e ∷ [])) (ground arith))
      | inr f ↦ rw f (longer ∙ ap (λ i. drop i (es ++ e ∷ [])) (ground arith))
    ]

log_from :
    (n : ℕ) (past es : List AuditEvent)
    → (log_all es (record { max_entries = n; events = last n past })).events ≡ last n (past ++ es)
unfolding log_all log
log_from n past [] = rw append-nil
log_from n past (e ∷ es) =
    ap (λ xs. (log_all es (record { max_entries = n; events = xs })).events)
      (append_bounded-last n past e)
    ∙ log_from n (past ++ e ∷ []) es
    ∙ ap (last n) (append_assoc past (e ∷ []) es)

-- After any history a logger holds its last `max_entries` events, in the order they were logged.
pub log_all-last : (n : ℕ) (es : List AuditEvent) → (log_all es (init n)).events ≡ last n es
unfolding init
log_all-last n es =
    ap (λ xs. (log_all es (record { max_entries = n; events = xs })).events)
      (sym (drop-nil (0 - n)))
    ∙ log_from n [] es

-- The events that a filter lets through.
abbrev pub TextWanted : Option String → String → Type 0
TextWanted none actual = Unit {0}
TextWanted (some wanted) actual = truthy wanted ≡ true → actual ≡ wanted

abbrev pub NotBefore : Option ℕ → ℕ → Type 0
NotBefore none time = Unit {0}
NotBefore (some start_time) time = start_time ≤ time

abbrev pub NotAfter : Option ℕ → ℕ → Type 0
NotAfter none time = Unit {0}
NotAfter (some end_time) time = time ≤ end_time

text_passes_iff : (o : Option String) (t : String) → (text_passes o t ≡ true) ↔ TextWanted o t
unfolding text_passes
text_passes_iff none t = (λ h. tt, λ h. refl)
text_passes_iff (some wanted) t = (
  λ h k. ground arith,
  λ h. elim (Bool-cases (truthy wanted)) [ inl k ↦ let e = h k in ground arith | inr k ↦ rw k ],
)

starts_after_iff : (o : Option ℕ) (t : ℕ) → (starts_after o t ≡ true) ↔ NotBefore o t
unfolding starts_after
starts_after_iff none t = (λ h. tt, λ h. refl)
starts_after_iff (some s) t = (λ h. ground arith, λ h. ground arith)

ends_before_iff : (o : Option ℕ) (t : ℕ) → (ends_before o t ≡ true) ↔ NotAfter o t
unfolding ends_before
ends_before_iff none t = (λ h. tt, λ h. refl)
ends_before_iff (some s) t = (λ h. ground arith, λ h. ground arith)

and_iff : (a b : Bool) → (a && b ≡ true) ↔ ((a ≡ true) × (b ≡ true))
and_iff a b = (λ h. ground arith, λ h. ground arith)

module _ (client_id event_type : Option String) (start_time end_time : Option ℕ)
    (e : AuditEvent) where
  Wanted : Type 0
  Wanted =
      TextWanted client_id e.client_id
      × (TextWanted event_type e.event_type
          × (NotBefore start_time e.timestamp × NotAfter end_time e.timestamp))

  passes_iff :
      (text_passes client_id e.client_id
          && (text_passes event_type e.event_type
              && (starts_after start_time e.timestamp && ends_before end_time e.timestamp))
        ≡ true)
      ↔ Wanted
  unfolding Wanted
  passes_iff = (
    λ h.
        let a = (and_iff _ _).0 h in
        let b = (and_iff _ _).0 a.1 in
        let c = (and_iff _ _).0 b.1 in
        (
          (text_passes_iff _ _).0 a.0,
          (
            (text_passes_iff _ _).0 b.0,
            ((starts_after_iff _ _).0 c.0, (ends_before_iff _ _).0 c.1),
          ),
        ),
    λ w. (and_iff _ _).1 (
      (text_passes_iff _ _).1 w.0,
      (and_iff _ _).1 (
        (text_passes_iff _ _).1 w.1.0,
        (and_iff _ _).1 ((starts_after_iff _ _).1 w.1.1.0, (ends_before_iff _ _).1 w.1.1.1),
      ),
    ),
  )

-- A query on a logger after a history finds exactly those of the last `max_entries` events that
-- have the wanted client and type, where these are given and not empty, and a time stamp within
-- the bounds that are given, both included.
pub mem-get_events_iff :
    (n : ℕ) (es : List AuditEvent) (client_id event_type : Option String)
    (start_time end_time : Option ℕ) (e : AuditEvent)
    → Mem e (get_events client_id event_type start_time end_time (log_all es (init n))) ↔ (
        Mem e (last n es)
        × (TextWanted client_id e.client_id
            × (TextWanted event_type e.event_type
                × (NotBefore start_time e.timestamp × NotAfter end_time e.timestamp))))
unfolding get_events Wanted
mem-get_events_iff n es client_id event_type start_time end_time e =
    let k = keep-Mem_iff _ e (log_all es (init n)).events in
    let w = passes_iff client_id event_type start_time end_time e in
    (
      λ m. (subst (Mem e) (log_all-last n es) (k.0 m).0, w.0 (k.0 m).1),
      λ h. k.1 (subst (Mem e) (sym (log_all-last n es)) h.0, w.1 h.1),
    )
