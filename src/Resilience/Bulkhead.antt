-- ===== src/Resilience/Bulkhead.antt =====
-- gauth/resilience/patterns.py: `Bulkhead`. Tasks call `execute` and threads call `execute_sync`, on
-- one object, with a semaphore each. The counters are changed by `+=` and `-=` without a lock, so
-- the reading and the writing of a counter are steps of their own. The tasks share one event
-- loop: one of them goes on only while each other one waits for a permit or for its function.
pub mod Limits
pub mod Counters
use gauth_py.Base.{ℕ, ◌+◌, ◌-◌, ◌<◌, ◌≡◌, Bool, true, false, List, [], ◌∷◌, ite, if◌then◌else◌}
use gauth_py.Base.Int.{ℤ, pos, ◌+ℤ◌, ◌-ℤ◌}

pub record Bulkhead : Type 0 where
  pub max_concurrent : ℕ
  pub semaphore : ℕ
  pub sync_semaphore : ℕ
  pub active_count : ℤ
  pub total_requests : ℕ
  pub rejected_requests : ℕ

unfoldable pub init : ℕ → Bulkhead
init max_concurrent = record {
  max_concurrent = max_concurrent;
  semaphore = max_concurrent;
  sync_semaphore = max_concurrent;
  active_count = pos 0;
  total_requests = 0;
  rejected_requests = 0;
}

-- A call of `execute` or of `execute_sync`.
pub data Side : Type 0 where
  task thread : Side

unfoldable pub permits : Side → Bulkhead → ℕ
permits task b = b.semaphore
permits thread b = b.sync_semaphore

unfoldable pub acquire : Side → Bulkhead → Bulkhead
acquire task b = record b { semaphore = b.semaphore - 1 }
acquire thread b = record b { sync_semaphore = b.sync_semaphore - 1 }

unfoldable pub release : Side → Bulkhead → Bulkhead
release task b = record b { semaphore = b.semaphore + 1 }
release thread b = record b { sync_semaphore = b.sync_semaphore + 1 }

-- The writes of the counters, from the value that was read before.
unfoldable pub write_total : ℕ → Bulkhead → Bulkhead
write_total v b = record b { total_requests = v + 1 }

unfoldable pub write_rejected : ℕ → Bulkhead → Bulkhead
write_rejected v b = record b { rejected_requests = v + 1 }

unfoldable pub write_entered : ℤ → Bulkhead → Bulkhead
write_entered v b = record b { active_count = v +ℤ pos 1 }

unfoldable pub write_left : ℤ → Bulkhead → Bulkhead
write_left v b = record b { active_count = v -ℤ pos 1 }

-- Where a call is; the numbers are what it has read of a counter. The flag says that the
-- function ended by a `TimeoutError`.
pub data Pc : Type 0 where
  asking waiting entering running refused gone : Pc
  counting rejecting : ℕ → Pc
  counting_in : ℤ → Pc
  ended releasing : Bool → Pc
  counting_out : Bool → ℤ → Pc

-- The handler for a `TimeoutError` stands around the function too, in `execute`.
unfoldable pub after_release : Bool → Pc
after_release true = refused
after_release false = gone

-- What one call does in a step. A task may be cancelled where it waits, for a permit or for the
-- function.
pub data Move : Side → Pc → Bulkhead → Pc → Bulkhead → Type 0 where
  reads_total : (σ : Side) (b : Bulkhead) → Move σ asking b (counting b.total_requests) b
  writes_total : (σ : Side) (v : ℕ) (b : Bulkhead) → Move σ (counting v) b waiting (write_total v b)
  acquires : (σ : Side) (b : Bulkhead) → 0 < permits σ b → Move σ waiting b entering (acquire σ b)
  times_out : (σ : Side) (b : Bulkhead) → Move σ waiting b refused b
  cancels : (b : Bulkhead) → Move task waiting b gone b
  reads_rejected : (σ : Side) (b : Bulkhead) → Move σ refused b (rejecting b.rejected_requests) b
  writes_rejected :
      (σ : Side) (v : ℕ) (b : Bulkhead) → Move σ (rejecting v) b gone (write_rejected v b)
  reads_active : (σ : Side) (b : Bulkhead) → Move σ entering b (counting_in b.active_count) b
  writes_active :
      (σ : Side) (v : ℤ) (b : Bulkhead) → Move σ (counting_in v) b running (write_entered v b)
  ends : (σ : Side) (b : Bulkhead) → Move σ running b (ended false) b
  ends_timed_out : (b : Bulkhead) → Move task running b (ended true) b
  reads_out :
      (σ : Side) (x : Bool) (b : Bulkhead) → Move σ (ended x) b (counting_out x b.active_count) b
  writes_out :
      (σ : Side) (x : Bool) (v : ℤ) (b : Bulkhead)
      → Move σ (counting_out x v) b (releasing x) (write_left v b)
  releases :
      (σ : Side) (x : Bool) (b : Bulkhead) → Move σ (releasing x) b (after_release x) (release σ b)

pub record System : Type 0 where
  pub bulkhead : Bulkhead
  pub tasks : List Pc
  pub threads : List Pc

-- One call goes from `p` to `q`.
pub data Replaced (p q : Pc) : List Pc → List Pc → Type 0 where
  here : (ps : List Pc) → Replaced p q (p ∷ ps) (q ∷ ps)
  there : (r : Pc) {ps qs : List Pc} → Replaced p q ps qs → Replaced p q (r ∷ ps) (r ∷ qs)

-- Whether a task awaits nothing.
unfoldable pub busy : Pc → ℕ
busy asking = 0
busy waiting = 0
busy running = 0
busy gone = 0
busy entering = 1
busy refused = 1
busy (counting v) = 1
busy (rejecting v) = 1
busy (counting_in v) = 1
busy (ended x) = 1
busy (releasing x) = 1
busy (counting_out x v) = 1

unfoldable pub total : (Pc → ℕ) → List Pc → ℕ
total f [] = 0
total f (p ∷ ps) = f p + total f ps

pub data Step : System → System → Type 0 where
  new_task : (s : System) → Step s (record s { tasks = asking ∷ s.tasks })
  new_thread : (s : System) → Step s (record s { threads = asking ∷ s.threads })
  task_moves :
      (s : System) (p q : Pc) (ps : List Pc) (b : Bulkhead)
      → Replaced p q s.tasks ps
      → total busy s.tasks ≡ busy p
      → Move task p s.bulkhead q b
      → Step s (record s { bulkhead = b; tasks = ps })
  thread_moves :
      (s : System) (p q : Pc) (ps : List Pc) (b : Bulkhead)
      → Replaced p q s.threads ps
      → Move thread p s.bulkhead q b
      → Step s (record s { bulkhead = b; threads = ps })

-- What comes of a bulkhead for `n` calls.
pub data Reach (n : ℕ) : System → Type 0 where
  start : Reach n (record { bulkhead = init n; tasks = []; threads = [] })
  next : {s t : System} → Reach n s → Step s t → Reach n t
