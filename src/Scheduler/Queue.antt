-- ===== src/Scheduler/Queue.antt =====
-- The search through the queue in `run` of src/Scheduler.cpp.
use routn.Base.{
  ℕ, ◌≡◌, refl, ap, Bool, true, false, Option, none, some, List, [], ◌∷◌, ◌++◌, All, if◌then◌else◌,
  Bool-cases, inl, inr,
}
use routn.Scheduler.{FiberAndThread, Status, ok, ◌>>=◌, is_task, is_elsewhere, runs, pick}

-- The search passes over a task: it is for another thread, or its fiber is running.
abbrev pub is_skipped : ℕ → (ℕ → Status) → FiberAndThread → Bool
is_skipped me status ft = if is_elsewhere me ft then true else runs status ft

abbrev pub any_elsewhere : ℕ → List FiberAndThread → Bool
any_elsewhere me [] = false
any_elsewhere me (ft ∷ q) = if is_elsewhere me ft then true else any_elsewhere me q

abbrev pub AllTasks : List FiberAndThread → Type 0
AllTasks q = All (λ ft. is_task ft ≡ true) q

abbrev pub AllSkipped : ℕ → (ℕ → Status) → List FiberAndThread → Type 0
AllSkipped me status q = All (λ ft. is_skipped me status ft ≡ true) q

abbrev pub found_task : Option FiberAndThread → List FiberAndThread
found_task none = []
found_task (some ft) = ft ∷ []

-- The search ends at a task that is not passed over, or at the end of the queue.
abbrev pub Ends : ℕ → (ℕ → Status) → Option FiberAndThread → List FiberAndThread → Type 0
Ends me status none behind = behind ≡ []
Ends me status (some ft) behind = is_skipped me status ft ≡ false

-- On a queue of tasks the search of `run` takes the first task that it does not pass over, if there is
-- one, and leaves the others in their order; it passes over exactly the tasks for other threads and
-- those whose fiber is running, and wakes other threads if it passed over a task for one.
pub pick_result :
    (me : ℕ) (status : ℕ → Status) (q : List FiberAndThread)
    → AllTasks q
    → (front : List FiberAndThread) × (found : Option FiberAndThread) × (behind : List
        FiberAndThread)
      × (pick me status q ≡ ok (any_elsewhere me front, found, front ++ behind))
      × (q ≡ front ++ (found_task found ++ behind))
      × AllSkipped me status front
      × Ends me status found behind
unfolding pick
pick_result me status [] h = ([], none, [], refl, refl, tt, refl)
pick_result me status (ft ∷ q) (task, h) =
    let (front, found, behind, e, split, skipped, ends) = pick_result me status q h in
    elim (Bool-cases (is_elsewhere me ft)) [
      | inl away ↦ (
        ft ∷ front,
        found,
        behind,
        rw (away, e, ◌>>=◌) refl,
        ap (◌∷◌ ft) split,
        (rw away refl, skipped),
        ends,
      )
      | inr here ↦ elim (Bool-cases (runs status ft)) [
        | inl busy ↦ (
          ft ∷ front,
          found,
          behind,
          rw (here, task, busy, e, ◌>>=◌) refl,
          ap (◌∷◌ ft) split,
          (rw (here, busy) refl, skipped),
          ends,
        )
        | inr free ↦ ([], some ft, q, rw (here, task, free) refl, refl, tt, rw (here, free) refl)
      ]
    ]
