-- ===== src/Scheduler/Threads.antt =====
-- Sequences of the steps of the threads that run the loop `run` of src/Scheduler.cpp, and of calls of
-- `schedule` between them.
use routn.Base.{
  ℕ, zero, suc, ◌+◌, ◌^◌, ◌≤◌, ◌<◌, ◌≡◌, ◌⊎◌, refl, Bool, true, false, Option, none, some, List, [],
  ◌∷◌, get_elem?, replicate, length-replicate, sym, arith, inl, inr,
}
use routn.Scheduler.{
  FiberAndThread, Status, hold, Outcome, ok, assert_fails, stuck, ◌>>=◌, Phase, looking, picked,
  in_fiber, in_callback, Thread, Scheduler, is_task, is_over, is_ready, schedule, take, begin,
  finish,
}
use routn.Scheduler.Invariant.{
  is_fiber, held_by, run_by, is_busy, queued, held, kept, sum_by, IsValid,
}
use routn.Scheduler.Searching.{schedule-IsValid, take-IsValid}
use routn.Scheduler.Switching.{IsFresh, begin-IsValid}
use routn.Scheduler.Returning.{finish-in_fiber, finish-in_callback}

-- A step, with the thread that takes it, the number for a new fiber, and the status that a fiber has
-- when it comes back.
pub data Op : Type 0 where
  op_schedule : FiberAndThread → Op
  op_take : ℕ → Op
  op_begin : ℕ → ℕ → Op
  op_finish : ℕ → Status → Op

unfoldable pub step : Op → Scheduler → Outcome Scheduler
step (op_schedule ft) s = ok (schedule ft s)
step (op_take me) s = take me s >>= (λ r. ok r.0)
step (op_begin me fresh) s = begin me fresh s
step (op_finish me x) s = finish me x s

unfoldable pub run : List Op → Scheduler → Outcome Scheduler
run [] s = ok s
run (op ∷ ops) s = step op s >>= run ops

abbrev pub IsAt : ℕ → Phase → Scheduler → Type 0
IsAt me p s = (c : Option ℕ) × (get_elem? s.threads me ≡ some (record { phase = p; cb_fiber = c }))

-- When a step may be taken: a thread is where the step starts, and no fiber goes to the queue that waits
-- already, nor does one end that is in the queue.
abbrev pub Fits : Op → Scheduler → Type 0
Fits (op_schedule ft) s =
    (is_task ft ≡ true)
    × ((f : ℕ) → is_fiber f ft.fiber + queued f s.fibers + held f s.threads + kept f s.threads ≤ 1)
Fits (op_take me) s = IsAt me looking s
Fits (op_begin me fresh) s = (ft : FiberAndThread) × IsAt me (picked ft) s × IsFresh fresh s
Fits (op_finish me x) s =
    (f : ℕ) × ((IsAt me (in_fiber f) s × (is_ready x ≡ true → queued f s.fibers ≡ 0))
      ⊎ (IsAt me (in_callback f) s
          × ((is_ready x ≡ true) ⊎ (is_over x ≡ true) → queued f s.fibers ≡ 0)))

abbrev pub FitsAll : List Op → Scheduler → Type 0
FitsAll [] s = Unit
FitsAll (op ∷ ops) s =
    Fits op s × elim (step op s) [ ok s' ↦ FitsAll ops s' | assert_fails ↦ Unit | stuck ↦ Unit ]

step_valid :
    (op : Op) (s : Scheduler)
    → IsValid s
    → Fits op s
    → (s' : Scheduler) × (step op s ≡ ok s') × IsValid s'
unfolding step
step_valid (op_schedule ft) s v (task, free) =
    (schedule ft s, refl, schedule-IsValid ft s v task free)
step_valid (op_take me) s v (c, h) =
    let (s', woken, done, valid) = take-IsValid me c s v h in (s', rw (done, ◌>>=◌) refl, valid)
step_valid (op_begin me fresh) s v (ft, (c, h), new) = begin-IsValid me ft c s v h fresh new
step_valid (op_finish me x) s v (f, inl ((c, h), free)) = finish-in_fiber me f x c s v h free
step_valid (op_finish me x) s v (f, inr ((c, h), free)) = finish-in_callback me f x c s v h free

-- The threads after `start`, before anything is scheduled.
abbrev pub started : ℕ → Bool → Scheduler
started n autostop = record {
  fibers = [];
  status = λ f. hold;
  threads = replicate n (record { phase = looking; cb_fiber = none });
  active = 0;
  autostop = autostop;
  is_stopping = false;
}

idle_sum : (w : Thread → ℕ) (t : Thread) (n : ℕ) → w t ≡ 0 → sum_by w (replicate n t) ≡ 0
idle_sum w t zero h = refl
idle_sum w t (suc n) h = omega (arith, h, idle_sum w t n h)

-- They are valid, if they are not too many.
pub started-IsValid : (n : ℕ) (autostop : Bool) → n < 2 ^ 32 → IsValid (started n autostop)
started-IsValid n autostop h =
    let t : Thread = record { phase = looking; cb_fiber = none } in
    let none_held = λ (f : ℕ). idle_sum (λ x. held_by f x.phase) t n refl in
    let none_kept = λ (f : ℕ). idle_sum (λ x. is_fiber f x.cb_fiber) t n refl in
    let none_runs = λ (f : ℕ). idle_sum (λ x. run_by f x.phase) t n refl in
    record {
      tasks = tt;
      counted = sym (idle_sum (λ x. is_busy x.phase) t n refl);
      few = omega (arith, h, length-replicate n t);
      waits_once = λ f. omega (arith, none_held f, none_kept f);
      works_once = λ f. omega (arith, none_held f, none_kept f, none_runs f);
      exec_runs = λ f e. absurd cc;
      runs_exec = λ f e. absurd (omega (arith, e, none_runs f));
      kept_init = λ f e. absurd (omega (arith, e, none_kept f));
    }

-- Whatever the threads and the callers of `schedule` do in whatever order, where each step fits the state
-- of its time, no assertion of `run`, `swapIn` and `reset` fails, and at the end no fiber runs on two
-- threads, none that runs is kept or taken by one, its status is EXEC exactly while it runs, and the
-- counter is that of the busy threads.
pub run_valid :
    (ops : List Op) (s : Scheduler)
    → IsValid s
    → FitsAll ops s
    → (s' : Scheduler) × (run ops s ≡ ok s') × IsValid s'
unfolding run
run_valid [] s v h = (s, refl, v)
run_valid (op ∷ ops) s v (fit, fits) =
    let (s1, e1, v1) = step_valid op s v fit in
    let fits1 : FitsAll ops s1 = rw e1 at fits in
    let (s2, e2, v2) = run_valid ops s1 v1 fits1 in (s2, rw (e1, ◌>>=◌, e2) refl, v2)
