-- ===== src/FiberSync/Tests.antt =====
-- The properties of the semaphore at one permit and three fibers that wait.
use routn.Base.{◌≡◌, refl, inl, List, [], ◌∷◌, ◌++◌}
use routn.FiberSync.{fiber_semaphore, Op, op_try_wait, op_wait, op_notify, run}
use routn.FiberSync.Queueing.{IsValid, run_order}

abbrev calls : List Op
calls = op_wait (1, 10) ∷ op_wait (1, 11) ∷ op_wait (2, 12) ∷ op_notify ∷ op_try_wait (2, 13) ∷ []

run_order_example :
    IsValid (run calls (fiber_semaphore 1)).0
    × ([] ++ (run calls (fiber_semaphore 1)).1.suspended
        ≡ (run calls (fiber_semaphore 1)).1.woken ++ (run calls (fiber_semaphore 1)).0.waiters)
run_order_example = run_order calls (fiber_semaphore 1) (inl refl)
