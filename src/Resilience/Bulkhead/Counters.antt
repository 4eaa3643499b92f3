-- ===== src/Resilience/Bulkhead/Counters.antt =====
-- gauth/resilience/patterns.py: the count of active calls.
use gauth_py.Base.{ℕ, ◌+◌, ◌≡◌, refl, ap, ◌∙◌, true, false, List, [], ◌∷◌, All, arith}
use gauth_py.Base.Int.{ℤ, pos, ◌+ℤ◌, ◌-ℤ◌, int_laws}
use gauth_py.Resilience.Bulkhead.{
  Bulkhead, init, Side, task, thread, acquire, release, write_total, write_rejected, write_entered,
  write_left, Pc, asking, waiting, entering, running, refused, gone, counting, rejecting,
  counting_in, ended, releasing, counting_out, after_release, Move, reads_total, writes_total,
  acquires, times_out, cancels, reads_rejected, writes_rejected, reads_active, writes_active, ends,
  ends_timed_out, reads_out, writes_out, releases, System, Replaced, here, there, busy, total, Step,
  new_task, new_thread, task_moves, thread_moves, Reach, start, next,
}
use gauth_py.Resilience.Bulkhead.Limits.{runs, total-Replaced}

-- Whether the count of active calls has the call.
counted : Pc → ℕ
counted running = 1
counted (ended x) = 1
counted (counting_out x v) = 1
counted _ = 0

-- What the call has read of the count still holds.
IsFresh : ℤ → Pc → Type 0
IsFresh a (counting_in v) = v ≡ a
IsFresh a (counting_out x v) = v ≡ a
IsFresh a _ = Unit

idle-IsFresh : (a : ℤ) (p : Pc) → busy p ≡ 0 → IsFresh a p
unfolding IsFresh busy
idle-IsFresh a asking h = tt
idle-IsFresh a waiting h = tt
idle-IsFresh a entering h = tt
idle-IsFresh a running h = tt
idle-IsFresh a refused h = tt
idle-IsFresh a gone h = tt
idle-IsFresh a (counting v) h = tt
idle-IsFresh a (rejecting v) h = tt
idle-IsFresh a (counting_in v) h = absurd (omega (arith, h))
idle-IsFresh a (ended x) h = tt
idle-IsFresh a (releasing x) h = tt
idle-IsFresh a (counting_out x v) h = absurd (omega (arith, h))

idle-All : (a : ℤ) (ps : List Pc) → total busy ps ≡ 0 → All (IsFresh a) ps
unfolding total
idle-All a [] h = tt
idle-All a (p ∷ ps) h = (idle-IsFresh a p (omega (arith, h)), idle-All a ps (omega (arith, h)))

busy-le : {p q : Pc} {ps qs : List Pc} → Replaced p q ps qs → (k : ℕ) × (total busy ps ≡ busy p + k)
unfolding total
busy-le (here ps) = (total busy ps, refl)
busy-le (there r x) = let (k, e) = busy-le x in (busy r + k, omega (arith, e))

-- While the others wait, a move leaves nothing stale behind.
Replaced-IsFresh :
    (a : ℤ) {p q : Pc} {ps qs : List Pc}
    → Replaced p q ps qs
    → total busy ps ≡ busy p
    → IsFresh a q
    → All (IsFresh a) qs
unfolding total
Replaced-IsFresh a (here ps) h f = (f, idle-All a ps (omega (arith, h)))
Replaced-IsFresh a (there r x) h f =
    let (k, e) = busy-le x in
    (idle-IsFresh a r (omega (arith, e, h)), Replaced-IsFresh a x (omega (arith, e, h)) f)

mover-IsFresh :
    (a : ℤ) {p q : Pc} {ps qs : List Pc} → Replaced p q ps qs → All (IsFresh a) ps → IsFresh a p
mover-IsFresh a (here ps) f = f.0
mover-IsFresh a (there r x) f = mover-IsFresh a x f.1

entered : (v : ℤ) (m m' : ℕ) → v ≡ pos m → m' ≡ m + 1 → v +ℤ pos 1 ≡ pos m'
entered v m m' e h = grind int_laws

left : (v : ℤ) (m m' : ℕ) → v ≡ pos m → m' + 1 ≡ m → v -ℤ pos 1 ≡ pos m'
left v m m' e h = grind int_laws

-- A move changes the count by what it changes of its call.
Move-counted :
    {σ : Side} {p q : Pc} {b c : Bulkhead} (m m' : ℕ)
    → Move σ p b q c
    → IsFresh b.active_count p
    → b.active_count ≡ pos m
    → m' + counted p ≡ m + counted q
    → c.active_count ≡ pos m'
unfolding IsFresh counted acquire release write_total write_rejected write_entered write_left
    after_release
Move-counted m m' (reads_total σ b) f e h = ground (arith, e)
Move-counted m m' (writes_total σ v b) f e h = ground (arith, e)
Move-counted m m' (acquires task b l) f e h = ground (arith, e)
Move-counted m m' (acquires thread b l) f e h = ground (arith, e)
Move-counted m m' (times_out σ b) f e h = ground (arith, e)
Move-counted m m' (cancels b) f e h = ground (arith, e)
Move-counted m m' (reads_rejected σ b) f e h = ground (arith, e)
Move-counted m m' (writes_rejected σ v b) f e h = ground (arith, e)
Move-counted m m' (reads_active σ b) f e h = ground (arith, e)
Move-counted m m' (writes_active σ v b) f e h = entered v m m' (f ∙ e) (omega (arith, h))
Move-counted m m' (ends σ b) f e h = ground (arith, e)
Move-counted m m' (ends_timed_out b) f e h = ground (arith, e)
Move-counted m m' (reads_out σ x b) f e h = ground (arith, e)
Move-counted m m' (writes_out σ x v b) f e h = left v m m' (f ∙ e) (omega (arith, h))
Move-counted m m' (releases task true b) f e h = ground (arith, e)
Move-counted m m' (releases task false b) f e h = ground (arith, e)
Move-counted m m' (releases thread true b) f e h = ground (arith, e)
Move-counted m m' (releases thread false b) f e h = ground (arith, e)

Move-IsFresh : {σ : Side} {p q : Pc} {b c : Bulkhead} → Move σ p b q c → IsFresh c.active_count q
unfolding IsFresh after_release
Move-IsFresh (reads_total σ b) = tt
Move-IsFresh (writes_total σ v b) = tt
Move-IsFresh (acquires σ b l) = tt
Move-IsFresh (times_out σ b) = tt
Move-IsFresh (cancels b) = tt
Move-IsFresh (reads_rejected σ b) = tt
Move-IsFresh (writes_rejected σ v b) = tt
Move-IsFresh (reads_active σ b) = refl
Move-IsFresh (writes_active σ v b) = tt
Move-IsFresh (ends σ b) = tt
Move-IsFresh (ends_timed_out b) = tt
Move-IsFresh (reads_out σ x b) = refl
Move-IsFresh (writes_out σ x v b) = tt
Move-IsFresh (releases σ true b) = tt
Move-IsFresh (releases σ false b) = tt

-- As long as there are only tasks, the count tells of them, and no task has read an old one.
IsCounted : System → Type 0
IsCounted s =
    s.threads ≡ []
    → (s.bulkhead.active_count ≡ pos (total counted s.tasks))
      × All (IsFresh s.bulkhead.active_count) s.tasks

no_Replaced : {p q : Pc} {qs : List Pc} (ps : List Pc) → Replaced p q ps qs → qs ≡ [] → ⊥
no_Replaced ps (here rs) e = cc
no_Replaced ps (there r x) e = cc

Step-IsCounted : {s t : System} → Step s t → IsCounted s → IsCounted t
unfolding IsCounted total counted IsFresh
Step-IsCounted (new_task s) h e =
    let (count, fresh) = h e in (count ∙ ap pos (omega arith), (tt, fresh))
Step-IsCounted (new_thread s) h e = absurd cc
Step-IsCounted (task_moves s p q ps b r quiet m) h e =
    let (count, fresh) = h e in
    (
      Move-counted (total counted s.tasks) (total counted ps) m
          (mover-IsFresh s.bulkhead.active_count r fresh) count (total-Replaced counted r),
      Replaced-IsFresh b.active_count r quiet (Move-IsFresh m),
    )
Step-IsCounted (thread_moves s p q ps b r m) h e = absurd (no_Replaced s.threads r e)

Reach-IsCounted : (n : ℕ) {s : System} → Reach n s → IsCounted s
unfolding IsCounted total init
Reach-IsCounted n start e = (refl, tt)
Reach-IsCounted n (next r st) e = Step-IsCounted st (Reach-IsCounted n r) e

idle-counted : (p : Pc) → busy p ≡ 0 → counted p ≡ runs p
unfolding counted runs busy
idle-counted p h = ground arith

counted-runs : (ps : List Pc) → total busy ps ≡ 0 → total counted ps ≡ total runs ps
unfolding total
counted-runs [] h = refl
counted-runs (p ∷ ps) h =
    let ih = counted-runs ps (omega (arith, h)) in
    omega (arith, ih, idle-counted p (omega (arith, h)))

-- As long as only tasks use the bulkhead, the count of active calls is the number of tasks that
-- run the function, whenever each task waits for a permit or for its function, also after
-- time-outs and cancellations.
pub active_count-tasks :
    (n : ℕ) (s : System)
    → Reach n s
    → s.threads ≡ []
    → total busy s.tasks ≡ 0
    → s.bulkhead.active_count ≡ pos (total runs s.tasks)
unfolding IsCounted
active_count-tasks n s r e q = (Reach-IsCounted n r e).0 ∙ ap pos (counted-runs s.tasks q)
