-- ===== src/Scheduler.antt =====
-- src/Scheduler.h and src/Scheduler.cpp: the queue of fibers and callbacks, and the loop `run` of the
-- threads that work on it. Fibers and callbacks are known by numbers, and a thread by its position. A
-- round of `run` is three steps, since other threads may run between them: `take` under the lock,
-- `begin` up to the switch to the fiber, and `finish` from the switch back on. What a fiber does to its
-- own status before it switches back is an argument of `finish`.
pub mod Queue
pub mod Invariant
pub mod Change
pub mod Searching
pub mod Switching
pub mod Returning
pub mod Threads
pub mod Twice
mod Tests
use routn.Base.{
  ℕ, zero, suc, ◌+◌, ◌-◌, ◌%◌, ◌^◌, Bool, true, false, not, ◌&&◌, ◌||◌, Option, none, some, List,
  [], ◌∷◌, ◌++◌, length, get_elem?, set, ◌==◌, if◌then◌else◌,
}

-- `assert_fails` is a failed ROUTN_ASSERT; `stuck` is a step that the thread is not at.
pub data Outcome {ℓ} (A : Type ℓ) : Type ℓ where
  ok : A → Outcome A
  assert_fails : Outcome A
  stuck : Outcome A

infixl 5 ◌>>=◌
abbrev pub ◌>>=◌ {ℓ κ} : {A : Type ℓ} {B : Type κ} → Outcome A → (A → Outcome B) → Outcome B
ok a >>= f = f a
assert_fails >>= f = assert_fails
stuck >>= f = stuck

-- Fiber::INIT, HOLD, EXEC, TERM, READY and EXCEPT of src/Fiber.h.
pub data Status : Type 0 where
  init hold exec term ready except : Status

-- The thread is -1 (`none`) where any thread may run it.
pub record FiberAndThread : Type 0 where
  pub fiber : Option ℕ
  pub callback : Option ℕ
  pub thread_id : Option ℕ

-- Where a thread is: in the search, with a task in `ft`, in a fiber of the queue, or in the fiber of a
-- callback.
pub data Phase : Type 0 where
  looking : Phase
  picked : FiberAndThread → Phase
  in_fiber : ℕ → Phase
  in_callback : ℕ → Phase

-- `cb_fiber` is the fiber that waits for the next callback; while it runs one, the phase has it.
pub record Thread : Type 0 where
  pub phase : Phase
  pub cb_fiber : Option ℕ

pub record Scheduler : Type 0 where
  pub fibers : List FiberAndThread
  pub status : ℕ → Status
  pub threads : List Thread
  pub active : ℕ
  pub autostop : Bool
  pub is_stopping : Bool

abbrev pub is_task : FiberAndThread → Bool
is_task ft = elim ft.fiber [
  | some f ↦ true
  | none ↦ elim ft.callback [ some k ↦ true | none ↦ false ]
]

-- `scheduleNoLock`, and whether the threads are to be woken.
unfoldable pub schedule_no_lock : FiberAndThread → List FiberAndThread → List FiberAndThread × Bool
schedule_no_lock ft q =
    (if is_task ft then q ++ (ft ∷ []) else q, elim q [ [] ↦ true | x ∷ rest ↦ false ])

unfoldable pub schedule : FiberAndThread → Scheduler → Scheduler
unfolding schedule_no_lock
schedule ft s = record s { fibers = (schedule_no_lock ft s.fibers).0 }

-- The variant for a range.
unfoldable pub schedule_all : List FiberAndThread → Scheduler → Scheduler
schedule_all [] s = s
schedule_all (ft ∷ fts) s = schedule_all fts (schedule ft s)

abbrev pub is_elsewhere : ℕ → FiberAndThread → Bool
is_elsewhere me ft = elim ft.thread_id [ none ↦ false | some t ↦ not (t == me) ]

abbrev pub is_exec : Status → Bool
is_exec exec = true
is_exec other = false

abbrev pub is_over : Status → Bool
is_over term = true
is_over except = true
is_over other = false

abbrev pub runs : (ℕ → Status) → FiberAndThread → Bool
runs status ft = elim ft.fiber [ none ↦ false | some f ↦ is_exec (status f) ]

-- The search of `run`: whether to wake other threads, the task that is taken, and what is left.
abbrev pub Found : Type 0
Found = Bool × Option FiberAndThread × List FiberAndThread

unfoldable pub pick : ℕ → (ℕ → Status) → List FiberAndThread → Outcome Found
pick me status [] = ok (false, none, [])
pick me status (ft ∷ q) =
    let rest = pick me status q in
    if is_elsewhere me ft
    then rest >>= (λ r. ok (true, r.1, ft ∷ r.2))
    else if not (is_task ft)
    then assert_fails
    else if runs status ft
    then rest >>= (λ r. ok (r.0, r.1, ft ∷ r.2))
    else ok (false, some ft, q)

abbrev pub set_phase : Phase → Thread → Thread
set_phase p t = record t { phase = p }

-- The part of a round under the lock; the result says whether the other threads are woken.
unfoldable pub take : ℕ → Scheduler → Outcome (Scheduler × Bool)
take me s = elim (get_elem? s.threads me) [
  | none ↦ stuck
  | some t ↦ pick me s.status s.fibers >>= (λ r. elim r.1 [
    | none ↦ ok (s, r.0)
    | some ft ↦ ok (
      record s {
        fibers = r.2;
        threads = set s.threads me (set_phase (picked ft) t);
        active = (s.active + 1) % 2 ^ 64;
      },
      r.0,
    )
  ])
]

abbrev pub update : ℕ → Status → (ℕ → Status) → ℕ → Status
update f x status g = if f == g then x else status g

abbrev pub less_active : ℕ → ℕ
less_active n = (n + 2 ^ 64 - 1) % 2 ^ 64

-- `swapIn` up to the switch.
abbrev pub swap_in : ℕ → ℕ → Thread → Scheduler → Outcome Scheduler
swap_in me f t s =
    if is_exec (s.status f)
    then assert_fails
    else ok (record s { status = update f exec s.status; threads = set s.threads me t })

-- What `reset` of a fiber asks of its status.
abbrev pub is_at_rest : Status → Bool
is_at_rest term = true
is_at_rest except = true
is_at_rest init = true
is_at_rest other = false

-- The fiber that runs a callback: `cb_fiber`, set back, or a new one, whose number is `fresh`.
abbrev pub fiber_for : ℕ → Thread → Scheduler → Outcome (ℕ × Scheduler)
fiber_for fresh t s = elim t.cb_fiber [
  | none ↦ ok (fresh, record s { status = update fresh init s.status })
  | some c ↦
      if is_at_rest (s.status c)
      then ok (c, record s { status = update c init s.status })
      else assert_fails
]

-- A task that is no callback and whose fiber is over is dropped, and the round ends.
abbrev pub begin_other : ℕ → ℕ → Thread → Option ℕ → Scheduler → Outcome Scheduler
begin_other me fresh t none s =
    ok
      (record s { threads = set s.threads me (set_phase looking t); active = less_active s.active })
begin_other me fresh t (some k) s =
    fiber_for fresh t s
    >>= (λ r. swap_in me r.0 (record { phase = in_callback r.0; cb_fiber = none }) r.1)

abbrev pub begin_task : ℕ → ℕ → Thread → FiberAndThread → Scheduler → Outcome Scheduler
begin_task me fresh t ft s = elim ft.fiber [
  | none ↦ begin_other me fresh t ft.callback s
  | some f ↦
      if is_over (s.status f)
      then begin_other me fresh t ft.callback s
      else swap_in me f (set_phase (in_fiber f) t) s
]

unfoldable pub begin : ℕ → ℕ → Scheduler → Outcome Scheduler
begin me fresh s = elim (get_elem? s.threads me) [
  | none ↦ stuck
  | some t ↦ elim t.phase [
    | looking ↦ stuck
    | in_fiber f ↦ stuck
    | in_callback f ↦ stuck
    | picked ft ↦ begin_task me fresh t ft s
  ]
]

abbrev pub of_fiber : ℕ → FiberAndThread
of_fiber f = record { fiber = some f; callback = none; thread_id = none }

-- The status of a fiber that has switched back: READY and the two of its end stay, any other is HOLD.
abbrev pub status_after : Status → Status
status_after ready = ready
status_after term = term
status_after except = except
status_after other = hold

abbrev pub is_ready : Status → Bool
is_ready ready = true
is_ready other = false

unfoldable pub finish : ℕ → Status → Scheduler → Outcome Scheduler
finish me x s = elim (get_elem? s.threads me) [
  | none ↦ stuck
  | some t ↦ elim t.phase [
    | looking ↦ stuck
    | picked ft ↦ stuck
    | in_fiber f ↦
        let s' = record s {
          threads = set s.threads me (set_phase looking t);
          active = less_active s.active;
          status = update f (status_after x) s.status;
        } in
        ok (if is_ready x then schedule (of_fiber f) s' else s')
    | in_callback f ↦
        let s' = record s {
          threads =
              set s.threads me
                (record { phase = looking; cb_fiber = if is_over x then some f else none });
          active = less_active s.active;
          status = update f (if is_over x then init else status_after x) s.status;
        } in
        ok (if is_ready x then schedule (of_fiber f) s' else s')
  ]
]

unfoldable pub stopping : Scheduler → Bool
stopping s =
    s.autostop && s.is_stopping && elim s.fibers [ [] ↦ true | x ∷ q ↦ false ] && s.active == 0
