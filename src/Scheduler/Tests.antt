-- ===== src/Scheduler/Tests.antt =====
-- Concrete schedulers: tasks for two threads, and the theorems at them.
use routn.Base.{
  ℕ, ◌≡◌, refl, true, false, ◌≤◌, Bool, inl, inr, Option, none, some, List, [], ◌∷◌, ◌++◌, ◌==◌,
  if◌then◌else◌, arith,
}
use routn.Scheduler.{
  FiberAndThread, Status, hold, exec, ready, term, ok, assert_fails, ◌>>=◌, looking, in_fiber,
  Scheduler, take, begin, finish, stopping, schedule, of_fiber, pick, schedule_no_lock, update,
}
use routn.Scheduler.Queue.{AllSkipped, Ends, any_elsewhere, found_task, pick_result}
use routn.Scheduler.Invariant.{IsValid, one_if}
use routn.Scheduler.Threads.{
  Op, op_schedule, op_take, op_begin, op_finish, step, run, FitsAll, started, started-IsValid,
  run_valid,
}
use routn.Scheduler.Twice.{twice, taker, take-twice}

abbrev statuses : ℕ → Status
statuses f = if f == 7 then exec else hold

-- A fiber for thread 1, a fiber that runs, a fiber on hold and a callback.
abbrev four_tasks : List FiberAndThread
four_tasks =
    record { fiber = some 5; callback = none; thread_id = some 1 }
    ∷ of_fiber 7
    ∷ of_fiber 8
    ∷ record { fiber = none; callback = some 2; thread_id = none }
    ∷ []

abbrev four_tasks_left : List FiberAndThread
four_tasks_left =
    record { fiber = some 5; callback = none; thread_id = some 1 }
    ∷ of_fiber 7
    ∷ record { fiber = none; callback = some 2; thread_id = none }
    ∷ []

pick_four : pick 0 statuses four_tasks ≡ ok (true, some (of_fiber 8), four_tasks_left)
unfolding pick
pick_four = refl

pick_result_example :
    (front : List FiberAndThread) × (found : Option FiberAndThread) × (behind : List FiberAndThread)
    × (pick 0 statuses four_tasks ≡ ok (any_elsewhere 0 front, found, front ++ behind))
    × (four_tasks ≡ front ++ (found_task found ++ behind))
    × AllSkipped 0 statuses front
    × Ends 0 statuses found behind
pick_result_example = pick_result 0 statuses four_tasks (refl, (refl, (refl, (refl, tt))))

abbrev at_rest : Scheduler
at_rest = record {
  fibers = [];
  status = λ f. hold;
  threads =
      record { phase = looking; cb_fiber = none }
      ∷ record { phase = looking; cb_fiber = none }
      ∷ [];
  active = 0;
  autostop = true;
  is_stopping = true;
}

at_rest-IsValid : IsValid at_rest
at_rest-IsValid = record {
  tasks = tt;
  counted = refl;
  few = omega arith;
  waits_once = λ f. omega arith;
  works_once = λ f. omega arith;
  exec_runs = λ f e. absurd cc;
  runs_exec = λ f e. absurd (omega (arith, e));
  kept_init = λ f e. absurd (omega (arith, e));
}

at_rest-stopping : stopping at_rest ≡ true
unfolding stopping
at_rest-stopping = refl

take-twice_example :
    (s1 : Scheduler) × (s2 : Scheduler) × (s3 : Scheduler) × (take 0
        (twice 3 none none (λ f. hold) [] 0)
      ≡ ok (s1, false))
    × (take 1 s1 ≡ ok (s2, false))
    × (s2.threads ≡ taker 3 none ∷ taker 3 none ∷ [])
    × (s2.fibers ≡ [])
    × (begin 0 9 s2 ≡ ok s3)
    × (s3.threads ≡ record { phase = in_fiber 3; cb_fiber = none } ∷ taker 3 none ∷ [])
    × (s3.status 3 ≡ exec)
    × (begin 1 9 s3 ≡ assert_fails)
take-twice_example = take-twice 3 none none (λ f. hold) [] 0 9 refl

-- Without the second entry the other thread finds nothing, and the fiber runs once.
abbrev one_fiber : Scheduler
one_fiber = schedule (of_fiber 3) at_rest

runs_once :
    (take 0 one_fiber >>= (λ r. take 1 r.0) >>= (λ r. begin 0 9 r.0) >>= (λ s. finish 0 hold s))
    ≡ ok (record at_rest { status = update 3 hold (update 3 exec at_rest.status) })
unfolding take pick begin finish schedule schedule_no_lock
runs_once = refl

-- Two threads, a fiber and a callback: the fiber comes back READY, and the callback ends.
abbrev some_steps : List Op
some_steps =
    op_schedule (of_fiber 3)
    ∷ op_schedule (record { fiber = none; callback = some 1; thread_id = none })
    ∷ op_take 0
    ∷ op_take 1
    ∷ op_begin 1 9
    ∷ op_begin 0 8
    ∷ op_finish 0 ready
    ∷ op_finish 1 term
    ∷ op_take 1
    ∷ []

some_steps-Fits : FitsAll some_steps (started 2 false)
unfolding step take pick begin finish schedule schedule_no_lock
some_steps-Fits =
    let callback : FiberAndThread = record { fiber = none; callback = some 1; thread_id = none } in
    (
      (refl, λ f. omega (arith, at_most_one (3 == f))),
      (
        (refl, λ f. omega (arith, at_most_one (3 == f))),
        (
          (none, refl),
          (
            (none, refl),
            (
              (callback, (none, refl), refl),
              (
                (of_fiber 3, (none, refl), refl),
                (
                  (3, inl ((none, refl), λ e. refl)),
                  ((9, inr ((none, refl), λ e. refl)), ((some 9, refl), tt)),
                ),
              ),
            ),
          ),
        ),
      ),
    )
  where
    at_most_one : (b : Bool) → one_if b ≤ 1
    at_most_one true = omega arith
    at_most_one false = omega arith

run_valid_example : (s' : Scheduler) × (run some_steps (started 2 false) ≡ ok s') × IsValid s'
run_valid_example =
    run_valid some_steps (started 2 false) (started-IsValid 2 false (omega arith)) some_steps-Fits
