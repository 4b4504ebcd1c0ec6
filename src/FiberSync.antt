-- ===== src/FiberSync.antt =====
-- src/FiberSync.h and src/FiberSync.cpp: the semaphore on which fibers wait. A waiter is a scheduler
-- and a fiber, by their numbers; each call is one step under the spin lock, and what it makes the
-- caller and the schedulers do is its effect.
pub mod Queueing
mod Tests
use routn.Base.{
  ℕ, zero, suc, ◌+◌, ◌-◌, ◌%◌, ◌^◌, Bool, true, false, List, [], ◌∷◌, ◌++◌, ltb, if◌then◌else◌,
}

abbrev pub Waiter : Type 0
Waiter = ℕ × ℕ

pub record FiberSemaphore : Type 0 where
  pub waiters : List Waiter
  pub concurrency : ℕ

-- Who got a permit by the call itself, who yields to be woken later, and whom the schedulers wake.
pub record Effect : Type 0 where
  pub passed : List Waiter
  pub suspended : List Waiter
  pub woken : List Waiter

abbrev pub no_effect : Effect
no_effect = record { passed = []; suspended = []; woken = [] }

abbrev pub fiber_semaphore : ℕ → FiberSemaphore
fiber_semaphore initial = record { waiters = []; concurrency = initial }

-- The result of `tryWait` is whether it passed.
unfoldable pub try_wait : Waiter → FiberSemaphore → FiberSemaphore × Effect
try_wait me s =
    if ltb 0 s.concurrency
    then (record s { concurrency = s.concurrency - 1 }, record no_effect { passed = me ∷ [] })
    else (s, no_effect)

unfoldable pub wait : Waiter → FiberSemaphore → FiberSemaphore × Effect
wait me s =
    if ltb 0 s.concurrency
    then (record s { concurrency = s.concurrency - 1 }, record no_effect { passed = me ∷ [] })
    else (record s { waiters = s.waiters ++ (me ∷ []) }, record no_effect { suspended = me ∷ [] })

unfoldable pub notify : FiberSemaphore → FiberSemaphore × Effect
notify s = elim s.waiters [
  | next ∷ rest ↦ (record s { waiters = rest }, record no_effect { woken = next ∷ [] })
  | [] ↦ (record s { concurrency = (s.concurrency + 1) % 2 ^ 64 }, no_effect)
]

unfoldable pub notify_all : FiberSemaphore → FiberSemaphore × Effect
notify_all s = (record s { waiters = [] }, record no_effect { woken = s.waiters })

unfoldable pub reset : FiberSemaphore → FiberSemaphore × Effect
reset s = (record s { concurrency = 0 }, no_effect)

pub data Op : Type 0 where
  op_try_wait : Waiter → Op
  op_wait : Waiter → Op
  op_notify : Op
  op_notify_all : Op
  op_reset : Op

abbrev pub step : Op → FiberSemaphore → FiberSemaphore × Effect
step (op_try_wait me) s = try_wait me s
step (op_wait me) s = wait me s
step op_notify s = notify s
step op_notify_all s = notify_all s
step op_reset s = reset s

abbrev pub both : Effect → Effect → Effect
both a b = record {
  passed = a.passed ++ b.passed;
  suspended = a.suspended ++ b.suspended;
  woken = a.woken ++ b.woken;
}

-- The calls in the order in which they get the lock.
unfoldable pub run : List Op → FiberSemaphore → FiberSemaphore × Effect
run [] s = (s, no_effect)
run (op ∷ ops) s = let (t, e) = step op s in let (u, f) = run ops t in (u, both e f)
