-- ===== src/FiberSync/Queueing.antt =====
-- The semaphore of src/FiberSync.cpp over sequences of calls: first in, first out, and no permit made up.
use mathlib.Core.List.{append_assoc, append-nil}
use routn.Base.{
  ℕ, ◌+◌, ◌^◌, ◌<◌, ◌≡◌, refl, ap, ◌∙◌, sym, inl, inr, ◌⊎◌, Bool-cases, Bool, true, false, List, [],
  ◌∷◌, ◌++◌, length, ltb, arith, length-append, All,
}
use routn.FiberSync.{
  FiberSemaphore, Waiter, Op, op_try_wait, op_wait, op_notify, op_notify_all, op_reset, try_wait,
  wait, notify, notify_all, reset, step, run,
}

-- While fibers wait there is no permit.
abbrev pub IsValid : FiberSemaphore → Type 0
IsValid s = (s.waiters ≡ []) ⊎ (s.concurrency ≡ 0)

step-IsValid : (op : Op) (s : FiberSemaphore) → IsValid s → IsValid (step op s).0
unfolding try_wait wait notify notify_all reset
step-IsValid (op_try_wait me) s v = elim (Bool-cases (ltb 0 s.concurrency)) [
  | inl free ↦ rw free (elim v [ inl e ↦ inl e | inr z ↦ inr (omega arith) ])
  | inr none_left ↦ rw none_left v
]
step-IsValid (op_wait me) s v = elim (Bool-cases (ltb 0 s.concurrency)) [
  | inl free ↦ rw free (elim v [ inl e ↦ inl e | inr z ↦ inr (omega arith) ])
  | inr none_left ↦ rw none_left (inr (ground arith))
]
step-IsValid op_notify s v = go s.waiters s.concurrency v
  where
    go :
        (w : List Waiter) (c : ℕ)
        → IsValid (record { waiters = w; concurrency = c })
        → IsValid (notify (record { waiters = w; concurrency = c })).0
    go [] c v = inl refl
    go (x ∷ w) c (inl e) = absurd cc
    go (x ∷ w) c (inr z) = inr z
step-IsValid op_notify_all s v = inl refl
step-IsValid op_reset s v = inr refl

-- One call: who waits was there before or is new, and who leaves goes from the front.
step_order :
    (op : Op) (s : FiberSemaphore)
    → s.waiters ++ (step op s).1.suspended ≡ (step op s).1.woken ++ (step op s).0.waiters
unfolding try_wait wait notify notify_all reset
step_order (op_try_wait me) s = elim (Bool-cases (ltb 0 s.concurrency)) [
  | inl free ↦ rw free (append-nil s.waiters)
  | inr none_left ↦ rw none_left (append-nil s.waiters)
]
step_order (op_wait me) s = elim (Bool-cases (ltb 0 s.concurrency)) [
  | inl free ↦ rw free (append-nil s.waiters)
  | inr none_left ↦ rw none_left refl
]
step_order op_notify s = go s.waiters s.concurrency
  where
    go :
        (w : List Waiter) (c : ℕ)
        → (let (t, e) = notify (record { waiters = w; concurrency = c }) in
            w ++ e.suspended ≡ e.woken ++ t.waiters)
    go [] c = refl
    go (x ∷ w) c = ap (◌∷◌ x) (append-nil w)
step_order op_notify_all s = refl
step_order op_reset s = append-nil s.waiters

-- Over any sequence of calls on a valid semaphore the invariant holds at the end, and the fibers that
-- wait first and those suspended later, in this order, are those woken, in their order, and then those
-- that still wait.
pub run_order :
    (ops : List Op) (s : FiberSemaphore)
    → IsValid s
    → IsValid (run ops s).0
      × (s.waiters ++ (run ops s).1.suspended ≡ (run ops s).1.woken ++ (run ops s).0.waiters)
unfolding run
run_order [] s v = (v, append-nil s.waiters)
run_order (op ∷ ops) s v =
    let (t, e) = step op s in
    let (u, f) = run ops t in
    let (w, q) = run_order ops t (step-IsValid op s v) in
    (
      w,
      sym (append_assoc s.waiters e.suspended f.suspended)
          ∙ ap (λ (l : List Waiter). l ++ f.suspended) (step_order op s)
          ∙ append_assoc e.woken t.waiters f.suspended
          ∙ ap (◌++◌ e.woken) q
          ∙ sym (append_assoc e.woken f.woken u.waiters),
    )

-- The permits that an operation adds, and the operations that only take or add permits one by one.
abbrev pub added : Op → ℕ
added op_notify = 1
added _ = 0

abbrev pub is_single : Op → Bool
is_single op_notify_all = false
is_single op_reset = false
is_single _ = true

abbrev pub all_added : List Op → ℕ
all_added [] = 0
all_added (op ∷ ops) = added op + all_added ops

step_permits :
    (op : Op) (s : FiberSemaphore)
    → is_single op ≡ true
    → s.concurrency + added op < 2 ^ 64
    → length (step op s).1.passed + length (step op s).1.woken + (step op s).0.concurrency
      ≡ s.concurrency + added op
unfolding try_wait wait notify
step_permits (op_try_wait me) s h q = elim (Bool-cases (ltb 0 s.concurrency)) [
  | inl free ↦ rw free (ground arith)
  | inr none_left ↦ rw none_left (omega arith)
]
step_permits (op_wait me) s h q = elim (Bool-cases (ltb 0 s.concurrency)) [
  | inl free ↦ rw free (ground arith)
  | inr none_left ↦ rw none_left (omega arith)
]
step_permits op_notify s h q = go s.waiters s.concurrency q
  where
    go :
        (w : List Waiter) (c : ℕ)
        → c + 1 < 2 ^ 64
        → (let (t, e) = notify (record { waiters = w; concurrency = c }) in
            length e.passed + length e.woken + t.concurrency ≡ c + 1)
    go [] c q = omega arith
    go (x ∷ w) c q = omega arith
step_permits op_notify_all s h q = absurd cc
step_permits op_reset s h q = absurd cc

-- Over any sequence of `tryWait`, `wait` and `notify` that does not overflow the counter, those who
-- passed, those who were woken and the permits that are left are as many as the permits at the start
-- and the notifications.
pub run_permits :
    (ops : List Op) (s : FiberSemaphore)
    → All (λ op. is_single op ≡ true) ops
    → s.concurrency + all_added ops < 2 ^ 64
    → length (run ops s).1.passed + length (run ops s).1.woken + (run ops s).0.concurrency
      ≡ s.concurrency + all_added ops
unfolding run
run_permits [] s h q = omega arith
run_permits (op ∷ ops) s (p, h) q =
    let (t, e) = step op s in
    let (u, f) = run ops t in
    let one = step_permits op s p (omega arith) in
    let rest = run_permits ops t h (omega (arith, one)) in
    omega (arith, one, rest, length-append e.passed f.passed, length-append e.woken f.woken)
