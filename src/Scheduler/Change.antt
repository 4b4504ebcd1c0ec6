-- ===== src/Scheduler/Change.antt =====
-- A change of one thread, of the queue and of the statuses, as in the steps of `run` of
-- src/Scheduler.cpp, and when it keeps the scheduler valid.
use routn.Base.{
  ℕ, zero, suc, ◌+◌, ◌-◌, ◌%◌, ◌^◌, ◌≤◌, ◌≡◌, refl, true, false, Option, none, some, List, [], ◌∷◌,
  get_elem?, set, length-set, ◌==◌, ==_iff, arith, ◌⊎◌, inl, inr, Bool-cases,
}
use routn.Scheduler.{FiberAndThread, Status, exec, init, Thread, Scheduler, update}
use routn.Scheduler.Queue.{AllTasks}
use routn.Scheduler.Invariant.{
  one_if, is_fiber, queued, held_by, run_by, is_busy, sum_by, held, running, kept, busy, busy-le,
  sum_by-set, IsValid,
}

-- Whether a number is that of the fiber: the tests that the counts use.
pub same-cases :
    (f g : ℕ)
    → ((one_if (f == g) ≡ 1) × (f ≡ g) × ((f == g) ≡ true))
      ⊎ ((one_if (f == g) ≡ 0) × ((f == g) ≡ false))
same-cases f g = elim (Bool-cases (f == g)) [
  | inl e ↦ inl (rw e refl, (==_iff f g).0 e, e)
  | inr e ↦ inr (rw e refl, e)
]

pub is_fiber-cases :
    (f : ℕ) (o : Option ℕ) → (is_fiber f o ≡ 0) ⊎ ((is_fiber f o ≡ 1) × (o ≡ some f))
is_fiber-cases f none = inl refl
is_fiber-cases f (some g) = elim (same-cases g f) [
  | inl (one, e, b) ↦ inr (one, rw e refl)
  | inr (apart, b) ↦ inl apart
]

-- A thread's part is no more than the sum.
pub sum_by-le :
    (w : Thread → ℕ) (ts : List Thread) (i : ℕ) (t : Thread)
    → get_elem? ts i ≡ some t
    → w t ≤ sum_by w ts
sum_by-le w [] i t h = absurd cc
sum_by-le w (x ∷ ts) zero t h = let e : x ≡ t = cc in rw e (omega arith)
sum_by-le w (x ∷ ts) (suc i) t h = omega (arith, sum_by-le w ts i t h)

-- What a step changes: the thread at a position, the queue, the statuses and the counter.
abbrev pub change : ℕ → Thread → List FiberAndThread → (ℕ → Status) → ℕ → Scheduler → Scheduler
change me t' q' status' n s = record s {
  fibers = q';
  status = status';
  threads = set s.threads me t';
  active = n;
}

module _ (s : Scheduler) (v : IsValid s) (me : ℕ) (t t' : Thread)
    (h : get_elem? s.threads me ≡ some t) where
  pub held-set :
      (f : ℕ)
      → held f (set s.threads me t') + held_by f t.phase ≡ held f s.threads + held_by f t'.phase
  held-set f = sum_by-set (λ x. held_by f x.phase) s.threads me t t' h

  pub kept-set :
      (f : ℕ)
      → kept f (set s.threads me t') + is_fiber f t.cb_fiber
        ≡ kept f s.threads + is_fiber f t'.cb_fiber
  kept-set f = sum_by-set (λ x. is_fiber f x.cb_fiber) s.threads me t t' h

  running-set :
      (f : ℕ)
      → running f (set s.threads me t') + run_by f t.phase ≡ running f s.threads + run_by f t'.phase
  running-set f = sum_by-set (λ x. run_by f x.phase) s.threads me t t' h

  -- The numbers are those of the thread before and after the change.
  pub change-IsValid :
      (q' : List FiberAndThread) (status' : ℕ → Status) (n : ℕ)
      → AllTasks q'
      → n ≡ busy (set s.threads me t')
      → ((f : ℕ)
          → queued f q'
              + held f s.threads
              + kept f s.threads
              + held_by f t'.phase
              + is_fiber f t'.cb_fiber
            ≤ 1 + held_by f t.phase + is_fiber f t.cb_fiber)
      → ((f : ℕ)
          → held f s.threads
              + kept f s.threads
              + running f s.threads
              + held_by f t'.phase
              + is_fiber f t'.cb_fiber
              + run_by f t'.phase
            ≤ 1 + held_by f t.phase + is_fiber f t.cb_fiber + run_by f t.phase)
      → ((f : ℕ)
          → status' f ≡ exec
          → running f s.threads + run_by f t'.phase ≡ 1 + run_by f t.phase)
      → ((f : ℕ)
          → running f s.threads + run_by f t'.phase ≡ 1 + run_by f t.phase
          → status' f ≡ exec)
      → ((f : ℕ)
          → kept f s.threads + is_fiber f t'.cb_fiber ≡ 1 + is_fiber f t.cb_fiber
          → status' f ≡ init)
      → IsValid (change me t' q' status' n s)
  change-IsValid q' status' n tasks counted waits works exec_runs runs_exec kept_init = record {
    tasks = tasks;
    counted = counted;
    few = omega (arith, v.few, length-set s.threads me t');
    waits_once = λ f. omega (arith, waits f, held-set f, kept-set f);
    works_once = λ f. omega (arith, works f, held-set f, kept-set f, running-set f);
    exec_runs = λ f e. omega (arith, exec_runs f e, running-set f);
    runs_exec = λ f e. runs_exec f (omega (arith, e, running-set f));
    kept_init = λ f e. kept_init f (omega (arith, e, kept-set f));
  }

  -- The counter, one more and one less.
  on_busy : busy (set s.threads me t') + is_busy t.phase ≡ busy s.threads + is_busy t'.phase
  on_busy = sum_by-set (λ x. is_busy x.phase) s.threads me t t' h

  pub more_busy :
      is_busy t.phase ≡ 0
      → is_busy t'.phase ≡ 1
      → (s.active + 1) % 2 ^ 64 ≡ busy (set s.threads me t')
  more_busy a b = omega (arith, on_busy, v.counted, v.few, busy-le s.threads)

  pub less_busy :
      is_busy t.phase ≡ 1
      → is_busy t'.phase ≡ 0
      → (s.active + 2 ^ 64 - 1) % 2 ^ 64 ≡ busy (set s.threads me t')
  less_busy a b = omega (arith, on_busy, v.counted, v.few, busy-le s.threads)

  pub same_busy : is_busy t.phase ≡ is_busy t'.phase → s.active ≡ busy (set s.threads me t')
  same_busy a = omega (arith, on_busy, v.counted)

  pub held-le : (f : ℕ) → held_by f t.phase ≤ held f s.threads
  held-le f = sum_by-le (λ x. held_by f x.phase) s.threads me t h

  pub kept-le : (f : ℕ) → is_fiber f t.cb_fiber ≤ kept f s.threads
  kept-le f = sum_by-le (λ x. is_fiber f x.cb_fiber) s.threads me t h

  pub running-le : (f : ℕ) → run_by f t.phase ≤ running f s.threads
  running-le f = sum_by-le (λ x. run_by f x.phase) s.threads me t h

pub update-same :
    (f g : ℕ) (x : Status) (status : ℕ → Status) → (f == g) ≡ true → update f x status g ≡ x
update-same f g x status b = rw b refl

pub update-other :
    (f g : ℕ) (x : Status) (status : ℕ → Status) → (f == g) ≡ false → update f x status g ≡ status g
update-other f g x status b = rw b refl
