-- ===== src/Resilience/Bulkhead/Limits.antt =====
-- gauth/resilience/patterns.py: how many calls run their function at a time.
use gauth_py.Base.{ℕ, ◌+◌, ◌≡◌, List, arith}
use gauth_py.Resilience.Bulkhead.{
  Bulkhead, Side, task, thread, permits, Pc, entering, running, counting_in, ended, releasing,
  counting_out, System, Replaced, here, there, total,
}

-- Whether a call holds a permit.
unfoldable pub holds : Pc → ℕ
holds entering = 1
holds (counting_in v) = 1
holds running = 1
holds (ended x) = 1
holds (counting_out x v) = 1
holds (releasing x) = 1
holds _ = 0

-- Whether a call runs its function.
unfoldable pub runs : Pc → ℕ
runs running = 1
runs _ = 0

pub total-Replaced :
    (f : Pc → ℕ) {p q : Pc} {ps qs : List Pc}
    → Replaced p q ps qs
    → total f qs + f p ≡ total f ps + f q
unfolding total
total-Replaced f (here ps) = omega arith
total-Replaced f (there r x) = omega (arith, total-Replaced f x)

other : Side → Side
other task = thread
other thread = task

-- The calls that hold a permit and the permits that are left make up each semaphore.
record IsBalanced (n : ℕ) (s : System) : Type 0 where
  of_tasks : total holds s.tasks + permits task s.bulkhead ≡ n
  of_threads : total holds s.threads + permits thread s.bulkhead ≡ n
