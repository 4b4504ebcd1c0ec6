-- ===== src/Scheduler/Twice.antt =====
-- A fiber that stands twice in the queue of src/Scheduler.cpp, and two threads.
use routn.Base.{ℕ, ◌+◌, ◌%◌, ◌^◌, ◌≡◌, refl, true, false, Option, List, [], ◌∷◌, ◌==◌, ==_iff}
use routn.Scheduler.{
  FiberAndThread, Status, exec, ok, assert_fails, Thread, looking, picked, in_fiber, update,
  Scheduler, hold, take, begin, of_fiber, pick,
}

-- Two threads that look for work while a fiber that is not running stands twice at the head of the
-- queue.
abbrev pub twice : ℕ → Option ℕ → Option ℕ → (ℕ → Status) → List FiberAndThread → ℕ → Scheduler
twice f c d status q n = record {
  fibers = of_fiber f ∷ of_fiber f ∷ q;
  status = status;
  threads =
      record { phase = looking; cb_fiber = c } ∷ record { phase = looking; cb_fiber = d } ∷ [];
  active = n;
  autostop = false;
  is_stopping = false;
}

-- A thread that has taken the fiber.
abbrev pub taker : ℕ → Option ℕ → Thread
taker f c = record { phase = picked (of_fiber f); cb_fiber = c }

-- The status of a fiber changes to EXEC only after the lock of the queue is let go. When a fiber on hold
-- stands at the first two places of the queue, and both threads search before the first of them
-- switches to it, both searches end with this fiber, which leaves the queue twice; the first thread's
-- switch succeeds and the fiber runs, and the second one's switch fails its assertion.
pub take-twice :
    (f : ℕ) (c d : Option ℕ) (status : ℕ → Status) (q : List FiberAndThread) (n fresh : ℕ)
    → status f ≡ hold
    → (s1 : Scheduler) × (s2 : Scheduler) × (s3 : Scheduler) × (take 0 (twice f c d status q n)
        ≡ ok (s1, false))
      × (take 1 s1 ≡ ok (s2, false))
      × (s2.threads ≡ taker f c ∷ taker f d ∷ [])
      × (s2.fibers ≡ q)
      × (begin 0 fresh s2 ≡ ok s3)
      × (s3.threads ≡ record { phase = in_fiber f; cb_fiber = c } ∷ taker f d ∷ [])
      × (s3.status f ≡ exec)
      × (begin 1 fresh s3 ≡ assert_fails)
unfolding take pick begin
take-twice f c d status q n fresh h =
    let same : (f == f) ≡ true = (==_iff f f).1 refl in
    let s = twice f c d status q n in
    let one = (n + 1) % 2 ^ 64 in
    let looks : Thread = record { phase = looking; cb_fiber = d } in
    let runs : Thread = record { phase = in_fiber f; cb_fiber = c } in
    (
      record s { fibers = of_fiber f ∷ q; threads = taker f c ∷ looks ∷ []; active = one },
      record s { fibers = q; threads = taker f c ∷ taker f d ∷ []; active = (one + 1) % 2 ^ 64 },
      record s {
        fibers = q;
        status = update f exec status;
        threads = runs ∷ taker f d ∷ [];
        active = (one + 1) % 2 ^ 64;
      },
      rw h refl,
      rw h refl,
      refl,
      refl,
      rw h refl,
      refl,
      rw same refl,
      rw same refl,
    )
