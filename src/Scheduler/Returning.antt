-- ===== src/Scheduler/Returning.antt =====
-- The part of a round of `run` behind the switch to a fiber, of src/Scheduler.cpp, on a valid scheduler.
use routn.Base.{
  ℕ, ◌≤◌, ◌≡◌, ◌≢◌, ◌⊎◌, refl, sym, ◌∙◌, Bool, true, false, Option, none, some, get_elem?, ◌==◌,
  ==_iff, if◌then◌else◌, arith, inl, inr, Bool-cases,
}
use routn.Scheduler.{
  Status, exec, init, hold, term, ready, except, ok, Phase, looking, in_fiber, in_callback, Thread,
  Scheduler, is_over, is_ready, status_after, update, finish, less_active, schedule, of_fiber,
}
use routn.Scheduler.Invariant.{one_if, is_fiber, held_by, run_by, is_busy, queued, running, IsValid}
use routn.Scheduler.Change.{
  change, change-IsValid, less_busy, held-set, kept-set, kept-le, running-le, same-cases,
  update-same, update-other,
}
use routn.Scheduler.Searching.{schedule-IsValid}

module _ (me f : ℕ) (p : Phase) (c : Option ℕ) (s : Scheduler) (v : IsValid s)
    (h : get_elem? s.threads me ≡ some (record { phase = p; cb_fiber = c }))
    (is_run : (g : ℕ) → run_by g p ≡ one_if (f == g)) (not_held : (g : ℕ) → held_by g p ≡ 0)
    (is_one : is_busy p ≡ 1) where
  abbrev before : Thread
  before = record { phase = p; cb_fiber = c }

  is_running : (g : ℕ) → (f == g) ≡ true → running g s.threads ≡ 1
  is_running g b =
      let one : one_if (f == g) ≡ 1 = rw b refl in
      omega (arith, one, is_run g, running-le s v me before before h g, v.works_once g)

  -- The thread looks for work again, and keeps `d`.
  back :
      (d : Option ℕ) (y : Status)
      → y ≢ exec
      → ((g : ℕ) → (f == g) ≡ false → is_fiber g d ≤ is_fiber g c)
      → ((g : ℕ) → (f == g) ≡ true → is_fiber g d ≤ 1)
      → ((g : ℕ) → (f == g) ≡ true → (is_fiber g d ≡ 0) ⊎ ((queued g s.fibers ≡ 0) × (y ≡ init)))
      → IsValid (
          change me
            (record { phase = looking; cb_fiber = d })
            s.fibers
            (update f y s.status)
            (less_active s.active)
            s)
  back d y rests others few own =
      let t' : Thread = record { phase = looking; cb_fiber = d } in
      change-IsValid s v me before t' h s.fibers (update f y s.status) (less_active s.active)
        v.tasks (less_busy s v me before t' h is_one refl)
        (λ g. elim (same-cases f g) [
          | inl (one, same, b) ↦ elim (own g b) [
            | inl not_kept ↦ omega (arith, v.waits_once g, not_held g, not_kept)
            | inr (not_queued, e) ↦
                omega (arith, not_queued, not_held g, few g b, is_running g b, v.works_once g)
          ]
          | inr (apart, b) ↦ omega (arith, v.waits_once g, others g b, not_held g)
        ])
        (λ g. elim (same-cases f g) [
          | inl (one, same, b) ↦ omega (arith, v.works_once g, few g b, one, is_run g, not_held g)
          | inr (apart, b) ↦ omega (arith, v.works_once g, others g b, not_held g, is_run g, apart)
        ])
        (λ g x. elim (same-cases f g) [
          | inl (one, same, b) ↦ absurd (rests (sym (update-same f g y s.status b) ∙ x))
          | inr (apart, b) ↦
              omega
                (arith, v.exec_runs g (sym (update-other f g y s.status b) ∙ x), is_run g, apart)
        ])
        (λ g x. elim (same-cases f g) [
          | inl (one, same, b) ↦ absurd (omega (arith, x, is_run g, one, is_running g b))
          | inr (apart, b) ↦
              update-other f g y s.status b ∙ v.runs_exec g (omega (arith, x, is_run g, apart))
        ])
        (λ g x. elim (same-cases f g) [
          | inl (one, same, b) ↦ elim (own g b) [
            | inl not_kept ↦ absurd (omega (arith, x, not_kept, is_running g b, v.works_once g))
            | inr (not_queued, e) ↦ update-same f g y s.status b ∙ e
          ]
          | inr (apart, b) ↦
              update-other f g y s.status b
              ∙ v.kept_init g
                  (omega (arith, x, others g b, v.works_once g, kept-le s v me before t' h g))
        ])

  -- A fiber that has come back READY, and is not in the queue, goes there.
  requeued :
      (d : Option ℕ) (y : Status)
      → ((g : ℕ) → (f == g) ≡ true → is_fiber g d ≡ 0)
      → queued f s.fibers ≡ 0
      → IsValid (
          change me
            (record { phase = looking; cb_fiber = d })
            s.fibers
            (update f y s.status)
            (less_active s.active)
            s)
      → IsValid (
          schedule (of_fiber f) (
            change me
              (record { phase = looking; cb_fiber = d })
              s.fibers
              (update f y s.status)
              (less_active s.active)
              s))
  requeued d y not_kept not_queued v' =
      let t' : Thread = record { phase = looking; cb_fiber = d } in
      schedule-IsValid (of_fiber f) _ v' refl (λ g. elim (same-cases f g) [
        | inl (one, same, b) ↦
            let free : queued g s.fibers ≡ 0 = rw (← same) not_queued in
            omega (
              arith,
              one,
              free,
              not_kept g b,
              held-set s v me before t' h g,
              kept-set s v me before t' h g,
              is_running g b,
              v.works_once g,
            )
        | inr (apart, b) ↦ omega (arith, apart, v'.waits_once g)
      ])

  -- Whether it goes there depends on a test.
  settled :
      (d : Option ℕ) (y : Status) (again : Bool)
      → (again ≡ true → ((g : ℕ) → (f == g) ≡ true → is_fiber g d ≡ 0) × (queued f s.fibers ≡ 0))
      → IsValid (
          change me
            (record { phase = looking; cb_fiber = d })
            s.fibers
            (update f y s.status)
            (less_active s.active)
            s)
      → IsValid (
          let s' =
            change me
              (record { phase = looking; cb_fiber = d })
              s.fibers
              (update f y s.status)
              (less_active s.active)
              s in
          if again then schedule (of_fiber f) s' else s')
  settled d y true free v' =
      let (not_kept, not_queued) = free refl in requeued d y not_kept not_queued v'
  settled d y false free v' = v'

  -- A fiber that runs is not kept.
  not_kept : (g : ℕ) → (f == g) ≡ true → is_fiber g c ≡ 0
  not_kept g b = omega (arith, is_running g b, v.works_once g, kept-le s v me before before h g)

is_over-settles : (x : Status) → is_over x ≡ true → is_ready x ≡ false
is_over-settles ready e = absurd cc
is_over-settles exec e = refl
is_over-settles init e = refl
is_over-settles hold e = refl
is_over-settles term e = refl
is_over-settles except e = refl

status_after-rests : (x : Status) → status_after x ≢ exec
status_after-rests ready = λ e. absurd cc
status_after-rests exec = λ e. absurd cc
status_after-rests init = λ e. absurd cc
status_after-rests hold = λ e. absurd cc
status_after-rests term = λ e. absurd cc
status_after-rests except = λ e. absurd cc

-- A fiber of the queue that comes back keeps a valid scheduler valid; a READY one is not to be in the
-- queue already.
pub finish-in_fiber :
    (me f : ℕ) (x : Status) (c : Option ℕ) (s : Scheduler)
    → IsValid s
    → get_elem? s.threads me ≡ some (record { phase = in_fiber f; cb_fiber = c })
    → (is_ready x ≡ true → queued f s.fibers ≡ 0)
    → (s' : Scheduler) × (finish me x s ≡ ok s') × IsValid s'
unfolding finish
finish-in_fiber me f x c s v h free =
    let p = in_fiber f in
    let y = status_after x in
    let no_one = not_kept me f p c s v h (λ g. refl) (λ g. refl) refl in
    let v' =
      back me f p c s v h (λ g. refl) (λ g. refl) refl c y (status_after-rests x)
        (λ g b. omega arith) (λ g b. omega (arith, no_one g b)) (λ g b. inl (no_one g b)) in
    (
      _,
      rw (finish, h) refl,
      settled me f p c s v h (λ g. refl) (λ g. refl) refl c y (is_ready x) (λ e. (no_one, free e))
          v',
    )

-- So does the fiber of a callback, which is kept for the next one if it is over, and then is not to be
-- in the queue either.
pub finish-in_callback :
    (me f : ℕ) (x : Status) (c : Option ℕ) (s : Scheduler)
    → IsValid s
    → get_elem? s.threads me ≡ some (record { phase = in_callback f; cb_fiber = c })
    → ((is_ready x ≡ true) ⊎ (is_over x ≡ true) → queued f s.fibers ≡ 0)
    → (s' : Scheduler) × (finish me x s ≡ ok s') × IsValid s'
unfolding finish
finish-in_callback me f x c s v h free = elim (Bool-cases (is_over x)) [
  | inl over ↦
      let no_fiber : queued f s.fibers ≡ 0 = free (inr over) in
      (
        _,
        rw (finish, h, over, is_over-settles x over) refl,
        back me f (in_callback f) c s v h (λ g. refl) (λ g. refl) refl (some f) init
            (λ e. absurd cc) (λ g b. rw b (omega arith)) (λ g b. rw b (omega arith))
            (λ g b. let same : f ≡ g = (==_iff f g).0 b in inr (rw (← same) no_fiber, refl)),
      )
  | inr goes_on ↦
      let p = in_callback f in
      let y = status_after x in
      let v' =
        back me f p c s v h (λ g. refl) (λ g. refl) refl none y (status_after-rests x)
          (λ g b. omega arith) (λ g b. omega arith) (λ g b. inl refl) in
      (
        _,
        rw (finish, h, goes_on) refl,
        settled me f p c s v h (λ g. refl) (λ g. refl) refl none y (is_ready x)
            (λ e. (λ g b. refl, free (inl e))) v',
      )
]
