-- ===== src/Scheduler/Switching.antt =====
-- The part of a round of `run` up to the switch to a fiber, of src/Scheduler.cpp, on a valid scheduler.
use routn.Base.{
  ℕ, ◌+◌, ◌≤◌, ◌≡◌, ◌≢◌, ◌⊎◌, refl, sym, ◌∙◌, true, false, Option, none, some, get_elem?, ◌==◌,
  ==_iff, arith, inl, inr, Bool-cases,
}
use routn.Scheduler.{
  FiberAndThread, Status, exec, init, hold, term, ready, except, ok, looking, picked, in_fiber,
  in_callback, Thread, Scheduler, is_exec, is_over, update, begin, begin_other, less_active,
}
use routn.Scheduler.Invariant.{is_fiber, queued, held, kept, running, IsValid}
use routn.Scheduler.Change.{
  change, change-IsValid, same_busy, less_busy, held-le, kept-le, same-cases, update-other,
}

pub is_exec-false : (x : Status) → x ≢ exec → is_exec x ≡ false
is_exec-false exec h = absurd (h refl)
is_exec-false init h = refl
is_exec-false hold h = refl
is_exec-false term h = refl
is_exec-false ready h = refl
is_exec-false except h = refl

restarted : (f : ℕ) (status : ℕ → Status) → is_exec (update f init status f) ≡ false
restarted f status = let b : (f == f) ≡ true = (==_iff f f).1 refl in rw b refl

-- No count of the fiber says that it is anywhere.
abbrev pub IsFresh : ℕ → Scheduler → Type 0
IsFresh f s = queued f s.fibers + held f s.threads + kept f s.threads + running f s.threads ≡ 0

Option-cases : (o : Option ℕ) → (o ≡ none) ⊎ ((f : ℕ) × (o ≡ some f))
Option-cases none = inl refl
Option-cases (some f) = inr (f, refl)

pub is_fiber-some : (f : ℕ) (o : Option ℕ) → o ≡ some f → is_fiber f o ≡ 1
is_fiber-some f o e = let b : (f == f) ≡ true = (==_iff f f).1 refl in rw (e, b) refl

module _ (me : ℕ) (ft : FiberAndThread) (c : Option ℕ) (s : Scheduler) (v : IsValid s)
    (h : get_elem? s.threads me ≡ some (record { phase = picked ft; cb_fiber = c })) where
  abbrev before : Thread
  before = record { phase = picked ft; cb_fiber = c }

  -- The task's fiber.
  is_held : (f : ℕ) → ft.fiber ≡ some f → 1 ≤ held f s.threads
  is_held f e = omega (arith, is_fiber-some f ft.fiber e, held-le s v me before before h f)

  to_fiber :
      (f : ℕ)
      → ft.fiber ≡ some f
      → IsValid (
          change me
            (record { phase = in_fiber f; cb_fiber = c })
            s.fibers
            (update f exec s.status)
            s.active
            s)
  to_fiber f e =
      let t' : Thread = record { phase = in_fiber f; cb_fiber = c } in
      change-IsValid s v me before t' h s.fibers (update f exec s.status) s.active v.tasks
        (same_busy s v me before t' h refl) (λ g. omega (arith, v.waits_once g))
        (λ g. elim (same-cases f g) [
          | inl (one, same, b) ↦
              let e' : ft.fiber ≡ some g = cc in
              omega (arith, v.works_once g, one, is_fiber-some g ft.fiber e', is_held g e')
          | inr (other, b) ↦ omega (arith, v.works_once g, other)
        ])
        (λ g x. elim (same-cases f g) [
          | inl (one, same, b) ↦
              let e' : ft.fiber ≡ some g = cc in omega (arith, one, v.works_once g, is_held g e')
          | inr (other, b) ↦
              omega (arith, other, v.exec_runs g (sym (update-other f g exec s.status b) ∙ x))
        ])
        (λ g x. elim (same-cases f g) [
          | inl (one, same, b) ↦ rw b refl
          | inr (other, b) ↦ rw b (v.runs_exec g (omega (arith, x, other)))
        ])
        (λ g x. elim (same-cases f g) [
          | inl (one, same, b) ↦
              let e' : ft.fiber ≡ some g = cc in
              absurd (omega (arith, x, v.works_once g, is_held g e'))
          | inr (other, b) ↦ rw b (v.kept_init g (omega (arith, x)))
        ])

  -- The switch to the fiber of a callback, whose status is INIT before. It is kept, or new.
  module _ (k : ℕ) (is_ours : (g : ℕ) → (k ≡ g) → held g s.threads + running g s.threads ≡ 0)
      (waits : (g : ℕ) → (k ≡ g) → queued g s.fibers + kept g s.threads ≡ is_fiber g c) where
    to_callback : IsValid (
        change me
          (record { phase = in_callback k; cb_fiber = none })
          s.fibers
          (update k exec (update k init s.status))
          s.active
          s)
    to_callback =
        let t' : Thread = record { phase = in_callback k; cb_fiber = none } in
        change-IsValid s v me before t' h s.fibers (update k exec (update k init s.status)) s.active
          v.tasks (same_busy s v me before t' h refl) (λ g. omega (arith, v.waits_once g))
          (λ g. elim (same-cases k g) [
            | inl (one, same, b) ↦ omega (arith, one, is_ours g same, waits g same)
            | inr (other, b) ↦ omega (arith, v.works_once g, other)
          ])
          (λ g x. elim (same-cases k g) [
            | inl (one, same, b) ↦ omega (arith, one, is_ours g same)
            | inr (other, b) ↦
                let same_before =
                  update-other k g exec (update k init s.status) b
                  ∙ update-other k g init s.status b in
                omega (arith, other, v.exec_runs g (sym same_before ∙ x))
          ])
          (λ g x. elim (same-cases k g) [
            | inl (one, same, b) ↦ rw b refl
            | inr (other, b) ↦ rw b (v.runs_exec g (omega (arith, x, other)))
          ])
          (λ g x. elim (same-cases k g) [
            | inl (one, same, b) ↦ absurd (omega (arith, x, waits g same))
            | inr (other, b) ↦
                rw b
                  (v.kept_init g (omega (arith, x, v.works_once g, kept-le s v me before t' h g)))
          ])

  -- The end of a round whose task is over.
  to_looking : IsValid (
      change me
        (record { phase = looking; cb_fiber = c })
        s.fibers
        s.status
        (less_active s.active)
        s)
  to_looking =
      let t' : Thread = record { phase = looking; cb_fiber = c } in
      change-IsValid s v me before t' h s.fibers s.status (less_active s.active) v.tasks
        (less_busy s v me before t' h refl refl) (λ g. omega (arith, v.waits_once g))
        (λ g. omega (arith, v.works_once g)) (λ g x. omega (arith, v.exec_runs g x))
        (λ g x. v.runs_exec g (omega (arith, x))) (λ g x. v.kept_init g (omega (arith, x)))

  -- The fiber that waits for a callback runs it, or a new one does.
  other :
      (fresh : ℕ)
      → IsFresh fresh s
      → (cb : Option ℕ) → (s' : Scheduler) × (begin_other me fresh before cb s ≡ ok s') × IsValid s'
  other fresh new none = (_, refl, to_looking)
  other fresh new (some k) = elim (Option-cases c) [
    | inl e ↦ (
      to fresh,
      rw (e, restarted fresh s.status) refl,
      to_callback fresh (λ g same. rw (← same) (omega (arith, new)))
          (λ g same. rw (e, ← same) (omega (arith, new))),
    )
    | inr (f, e) ↦ (
      to f,
      rw (e, v.kept_init f (omega (arith, kept_one f e)), restarted f s.status) refl,
      to_callback f (λ g same. rw (← same) (omega (arith, v.works_once f, kept_one f e)))
          (λ g same.
            rw (← same) (omega (arith, v.waits_once f, kept_one f e, is_fiber-some f c e))),
    )
  ]
    where
      to : ℕ → Scheduler
      to k =
          change me (record { phase = in_callback k; cb_fiber = none }) s.fibers
            (update k exec (update k init s.status)) s.active s

      kept_one : (f : ℕ) → c ≡ some f → kept f s.threads ≡ 1
      kept_one f e =
          omega (arith, is_fiber-some f c e, kept-le s v me before before h f, v.works_once f)

  -- The step `begin` fails no assertion on a valid scheduler and keeps it valid, where the number for a
  -- new fiber is not in use.
  pub begin-IsValid :
      (fresh : ℕ) → IsFresh fresh s → (s' : Scheduler) × (begin me fresh s ≡ ok s') × IsValid s'
  unfolding begin
  begin-IsValid fresh new =
      let (s1, done, valid) = other fresh new ft.callback in
      elim (Option-cases ft.fiber) [
        | inl e ↦ (s1, rw (begin, h, e) done, valid)
        | inr (f, e) ↦ elim (Bool-cases (is_over (s.status f))) [
          | inl over ↦ (s1, rw (begin, h, e, over) done, valid)
          | inr goes_on ↦
              let idle : is_exec (s.status f) ≡ false =
                is_exec-false (s.status f)
                  (λ x. absurd (omega (arith, v.exec_runs f x, v.works_once f, is_held f e))) in
              (
                change me (record { phase = in_fiber f; cb_fiber = c }) s.fibers
                    (update f exec s.status) s.active s,
                rw (begin, h, e, goes_on, idle) refl,
                to_fiber f e,
              )
        ]
      ]
