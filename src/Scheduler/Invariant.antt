-- ===== src/Scheduler/Invariant.antt =====
-- Where the fibers of src/Scheduler.cpp are: in the queue, taken out of it, running, or kept by a thread
-- for its next callback.
use routn.Base.{
  ℕ, zero, suc, ◌+◌, ◌^◌, ◌≤◌, ◌<◌, ◌≡◌, refl, Bool, true, false, ◌&&◌, Option, none, some, List,
  [], ◌∷◌, ◌++◌, length, get_elem?, set, All, ◌==◌, ==_iff, if◌then◌else◌, arith,
}
use routn.Scheduler.{
  FiberAndThread, exec, init, Phase, looking, picked, in_fiber, in_callback, Thread, Scheduler,
  stopping,
}
use routn.Scheduler.Queue.{AllTasks, found_task}

abbrev pub one_if : Bool → ℕ
one_if b = if b then 1 else 0

abbrev pub is_fiber : ℕ → Option ℕ → ℕ
is_fiber f none = 0
is_fiber f (some g) = one_if (g == f)

-- How often the fiber stands in the queue.
abbrev pub queued : ℕ → List FiberAndThread → ℕ
queued f [] = 0
queued f (ft ∷ q) = is_fiber f ft.fiber + queued f q

-- Whether a thread has taken it, runs it, or keeps it.
abbrev pub held_by : ℕ → Phase → ℕ
held_by f looking = 0
held_by f (picked ft) = is_fiber f ft.fiber
held_by f (in_fiber g) = 0
held_by f (in_callback g) = 0

abbrev pub run_by : ℕ → Phase → ℕ
run_by f looking = 0
run_by f (picked ft) = 0
run_by f (in_fiber g) = one_if (g == f)
run_by f (in_callback g) = one_if (g == f)

abbrev pub is_busy : Phase → ℕ
is_busy looking = 0
is_busy (picked ft) = 1
is_busy (in_fiber g) = 1
is_busy (in_callback g) = 1

abbrev pub sum_by : (Thread → ℕ) → List Thread → ℕ
sum_by w [] = 0
sum_by w (t ∷ ts) = w t + sum_by w ts

abbrev pub held : ℕ → List Thread → ℕ
held f = sum_by (λ t. held_by f t.phase)

abbrev pub running : ℕ → List Thread → ℕ
running f = sum_by (λ t. run_by f t.phase)

abbrev pub kept : ℕ → List Thread → ℕ
kept f = sum_by (λ t. is_fiber f t.cb_fiber)

abbrev pub busy : List Thread → ℕ
busy = sum_by (λ t. is_busy t.phase)

-- No fiber is twice in the queue or with a thread, save that a running one may be in the queue again;
-- its status is EXEC exactly while it runs; a kept one is new. The counter counts the busy threads.
pub record IsValid (s : Scheduler) : Type 0 where
  pub tasks : AllTasks s.fibers
  pub counted : s.active ≡ busy s.threads
  pub few : length s.threads < 2 ^ 32
  pub waits_once : (f : ℕ) → queued f s.fibers + held f s.threads + kept f s.threads ≤ 1
  pub works_once : (f : ℕ) → held f s.threads + kept f s.threads + running f s.threads ≤ 1
  pub exec_runs : (f : ℕ) → s.status f ≡ exec → running f s.threads ≡ 1
  pub runs_exec : (f : ℕ) → running f s.threads ≡ 1 → s.status f ≡ exec
  pub kept_init : (f : ℕ) → kept f s.threads ≡ 1 → s.status f ≡ init

-- A changed thread changes a sum by its own part.
pub sum_by-set :
    (w : Thread → ℕ) (ts : List Thread) (i : ℕ) (t t' : Thread)
    → get_elem? ts i ≡ some t
    → sum_by w (set ts i t') + w t ≡ sum_by w ts + w t'
sum_by-set w [] i t t' h = absurd cc
sum_by-set w (x ∷ ts) zero t t' h = let e : x ≡ t = cc in rw e (omega arith)
sum_by-set w (x ∷ ts) (suc i) t t' h = omega (arith, sum_by-set w ts i t t' h)

pub busy-le : (ts : List Thread) → busy ts ≤ length ts
busy-le [] = omega arith
busy-le (t ∷ ts) = omega (arith, is_busy-le t.phase, busy-le ts)
  where
    is_busy-le : (p : Phase) → is_busy p ≤ 1
    is_busy-le looking = omega arith
    is_busy-le (picked ft) = omega arith
    is_busy-le (in_fiber g) = omega arith
    is_busy-le (in_callback g) = omega arith

pub queued-append :
    (f : ℕ) (q r : List FiberAndThread) → queued f (q ++ r) ≡ queued f q + queued f r
queued-append f [] r = omega arith
queued-append f (ft ∷ q) r = omega (arith, queued-append f q r)

-- What a search takes out of the queue is in the queue.
pub queued-split :
    (f : ℕ) (q front behind : List FiberAndThread) (found : Option FiberAndThread)
    → q ≡ front ++ (found_task found ++ behind)
    → queued f q ≡ queued f (front ++ behind) + queued f (found_task found)
queued-split f q front behind found e = rw e (
    omega (
      arith,
      queued-append f front (found_task found ++ behind),
      queued-append f (found_task found) behind,
      queued-append f front behind,
    ))

busy_none : (ts : List Thread) → busy ts ≡ 0 → All (λ t. t.phase ≡ looking) ts
busy_none [] h = tt
busy_none (t ∷ ts) h = (at_rest t.phase (omega arith), busy_none ts (omega arith))
  where
    at_rest : (p : Phase) → is_busy p ≡ 0 → p ≡ looking
    at_rest looking e = refl
    at_rest (picked ft) e = absurd (omega arith)
    at_rest (in_fiber g) e = absurd (omega arith)
    at_rest (in_callback g) e = absurd (omega arith)

both : (a b : Bool) → (a && b) ≡ true → (a ≡ true) × (b ≡ true)
both true b h = (refl, h)
both false b h = absurd cc

no_fibers : (q : List FiberAndThread) → elim q [ [] ↦ true | x ∷ r ↦ false ] ≡ true → q ≡ []
no_fibers [] h = refl
no_fibers (ft ∷ q) h = absurd cc

-- A valid scheduler for which `stopping` answers true has nothing in its queue, and no thread of it is
-- with a task.
pub stopping_result :
    (s : Scheduler)
    → IsValid s
    → stopping s ≡ true
    → (s.fibers ≡ []) × All (λ t. t.phase ≡ looking) s.threads
unfolding stopping
stopping_result s v h =
    let (front, idle) = both _ (s.active == 0) h in
    let (flags, empty) = both _ (elim s.fibers [ [] ↦ true | x ∷ r ↦ false ]) front in
    (
      no_fibers s.fibers empty,
      busy_none s.threads (omega (arith, v.counted, (==_iff s.active 0).0 idle)),
    )
