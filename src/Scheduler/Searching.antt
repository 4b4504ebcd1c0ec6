-- ===== src/Scheduler/Searching.antt =====
-- `schedule` and the part of `run` under the lock, of src/Scheduler.cpp, on a valid scheduler.
use routn.Base.{
  ℕ, ◌+◌, ◌%◌, ◌^◌, ◌≤◌, ◌≡◌, refl, Bool, true, false, Option, none, some, List, [], ◌∷◌, ◌++◌,
  get_elem?, arith, inl, inr, ◌≢◌, Bool-cases,
}
use routn.Scheduler.{
  FiberAndThread, ok, ◌>>=◌, looking, picked, Thread, Scheduler, is_task, is_elsewhere, runs,
  schedule, schedule_no_lock, take, pick,
}
use routn.Scheduler.Queue.{AllTasks, found_task, is_skipped, Ends, any_elsewhere, pick_result}
use routn.Scheduler.Invariant.{
  is_fiber, queued, held, kept, running, queued-append, queued-split, IsValid,
}
use routn.Scheduler.Change.{change, change-IsValid, more_busy, is_fiber-cases}

pub AllTasks-append : (q r : List FiberAndThread) → AllTasks q → AllTasks r → AllTasks (q ++ r)
AllTasks-append [] r h k = k
AllTasks-append (ft ∷ q) r (a, h) k = (a, AllTasks-append q r h k)

-- A part of a queue of tasks is one.
pub AllTasks-parts : (q r : List FiberAndThread) → AllTasks (q ++ r) → AllTasks q × AllTasks r
AllTasks-parts [] r h = (tt, h)
AllTasks-parts (ft ∷ q) r (a, h) = let (x, y) = AllTasks-parts q r h in ((a, x), y)

-- A task whose fiber does not wait yet may be scheduled.
pub schedule-IsValid :
    (ft : FiberAndThread) (s : Scheduler)
    → IsValid s
    → is_task ft ≡ true
    → ((f : ℕ) → is_fiber f ft.fiber + queued f s.fibers + held f s.threads + kept f s.threads ≤ 1)
    → IsValid (schedule ft s)
unfolding schedule schedule_no_lock
schedule-IsValid ft s v task free = rw task (record {
  tasks = AllTasks-append s.fibers (ft ∷ []) v.tasks (task, tt);
  counted = v.counted;
  few = v.few;
  waits_once = λ f. omega (arith, free f, queued-append f s.fibers (ft ∷ []));
  works_once = v.works_once;
  exec_runs = v.exec_runs;
  runs_exec = v.runs_exec;
  kept_init = v.kept_init;
})

-- The fiber of a task that the search ends at does not run.
found_rests :
    (me : ℕ) (s : Scheduler) (ft : FiberAndThread) (f : ℕ)
    → IsValid s
    → is_skipped me s.status ft ≡ false
    → ft.fiber ≡ some f
    → running f s.threads ≢ 1
found_rests me s ft f v free e busy_ =
    let runs_ : runs s.status ft ≡ true = rw (e, v.runs_exec f busy_) refl in
    let skips : is_skipped me s.status ft ≡ true = elim (Bool-cases (is_elsewhere me ft)) [
      | inl away ↦ rw away refl
      | inr here ↦ rw (here, runs_) refl
    ] in
    absurd cc

module _ (me : ℕ) (c : Option ℕ) (s : Scheduler) (v : IsValid s)
    (h : get_elem? s.threads me ≡ some (record { phase = looking; cb_fiber = c })) where
  taken :
      (ft : FiberAndThread) (front behind : List FiberAndThread)
      → s.fibers ≡ front ++ (ft ∷ behind)
      → is_skipped me s.status ft ≡ false
      → IsValid (
          change me
            (record { phase = picked ft; cb_fiber = c })
            (front ++ behind)
            s.status
            ((s.active + 1) % 2 ^ 64)
            s)
  taken ft front behind split free =
      let t : Thread = record { phase = looking; cb_fiber = c } in
      let t' : Thread = record { phase = picked ft; cb_fiber = c } in
      let all : AllTasks (front ++ (ft ∷ behind)) = rw (← split) v.tasks in
      let (before, (task, after)) = AllTasks-parts front (ft ∷ behind) all in
      let count = λ (f : ℕ). queued-split f s.fibers front behind (some ft) split in
      change-IsValid s v me t t' h (front ++ behind) s.status _
        (AllTasks-append front behind before after) (more_busy s v me t t' h refl refl)
        (λ f. omega (arith, v.waits_once f, count f))
        (λ f. elim (is_fiber-cases f ft.fiber) [
          | inl other ↦ omega (arith, v.works_once f, other)
          | inr (one, e) ↦
              omega (
                arith,
                v.works_once f,
                v.waits_once f,
                one,
                count f,
                found_rests me s ft f v free e,
              )
        ])
        (λ f x. omega (arith, v.exec_runs f x)) (λ f x. v.runs_exec f (omega (arith, x)))
        (λ f x. v.kept_init f (omega (arith, x)))

  -- A thread that looks for a task keeps a valid scheduler valid, and the assertion on the tasks holds.
  pub take-IsValid : (s' : Scheduler) × (woken : Bool) × (take me s ≡ ok (s', woken)) × IsValid s'
  unfolding take
  take-IsValid =
      let (front, found, behind, e, split, skipped, ends) =
        pick_result me s.status s.fibers v.tasks in
      on_found found front behind e split ends
    where
      on_found :
          (found : Option FiberAndThread) (front behind : List FiberAndThread)
          → pick me s.status s.fibers ≡ ok (any_elsewhere me front, found, front ++ behind)
          → s.fibers ≡ front ++ (found_task found ++ behind)
          → Ends me s.status found behind
          → (s' : Scheduler) × (woken : Bool) × (take me s ≡ ok (s', woken)) × IsValid s'
      on_found none front behind e split ends =
          (s, any_elsewhere me front, rw (take, h, e, ◌>>=◌) refl, v)
      on_found (some ft) front behind e split ends =
          (_, any_elsewhere me front, rw (take, h, e, ◌>>=◌) refl, taken ft front behind split ends)
