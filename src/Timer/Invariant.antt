-- ===== src/Timer/Invariant.antt =====
-- The invariant of src/Timer.cpp's manager: the set is in order, and it holds exactly the timers
-- that have a callback. `addTimer`, `refresh`, `cancel` and `reset` keep it.
use routn.Base.{
  ℕ, ◌≡◌, refl, ◌∙◌, inl, inr, Bool-cases, Bool, true, false, not, ◌&&◌, ◌||◌, List, ◌==◌,
  if◌then◌else◌, arith, none, some,
}
use routn.Timer.{
  Timer, TimerManager, Callback, assign, insert, find, erase, has_callback, add64, sub64, timer,
  timer_manager, insert_timer, add_timer, refresh, cancel, reset,
}
use routn.Timer.OrderedSet.{
  contains, Sorted, find_lem, insert-Sorted, contains-insert, erase-Sorted, contains-erase,
  Sorted-assign, Sorted-same,
}

pub record IsValid (m : TimerManager) : Type 0 where
  pub sorted : Sorted m.objects m.timers
  pub live : (a : ℕ) → contains a m.timers ≡ has_callback (m.objects a)

pub timer_manager-IsValid : (now : ℕ) → IsValid (timer_manager now)
unfolding timer_manager
timer_manager-IsValid now = record {
  sorted = unfold Sorted in tt;
  live = λ a. unfold contains in refl;
}

-- A changed timer goes into a set that it is not in.
pub insert_changed :
    (a : ℕ) (t : Timer) (objects : ℕ → Timer) (xs : List ℕ)
    → Sorted objects xs
    → contains a xs ≡ false
    → Sorted (assign a t objects) (insert (assign a t objects) a xs)
insert_changed a t objects xs s out =
    insert-Sorted (assign a t objects) a xs (Sorted-assign objects a t xs out s)

insert_timer-IsValid :
    (a : ℕ) (m : TimerManager)
    → Sorted m.objects m.timers
    → ((b : ℕ) → ((a == b) || contains b m.timers) ≡ has_callback (m.objects b))
    → IsValid (insert_timer a m)
unfolding insert_timer
insert_timer-IsValid a m s l = record {
  sorted = insert-Sorted m.objects a m.timers s;
  live = λ b. contains-insert m.objects a b m.timers ∙ l b;
}

-- On a valid manager `addTimer` with a callback, whose timer is allocated where no armed timer is, keeps
-- the invariant and adds that timer, due `ms` from now, to the set.
pub add_timer_result :
    (a ms : ℕ) (cb : Callback) (recurring : Bool) (now : ℕ) (m : TimerManager)
    → IsValid m
    → has_callback (m.objects a) ≡ false
    → IsValid (add_timer a ms (some cb) recurring now m)
      × ((b : ℕ)
          → contains b (add_timer a ms (some cb) recurring now m).timers
            ≡ ((a == b) || contains b m.timers))
      × ((add_timer a ms (some cb) recurring now m).objects a ≡ timer ms (some cb) recurring now)
unfolding add_timer insert_timer
add_timer_result a ms cb recurring now m v free = (
  insert_timer-IsValid a _ (Sorted-assign m.objects a t m.timers (v.live a ∙ free) v.sorted)
      (λ b. ground (arith, v.live b)),
  (λ b. contains-insert (assign a t m.objects) a b m.timers),
  ground arith,
)
  where
    t : Timer
    t = timer ms (some cb) recurring now

module _ (a : ℕ) (m : TimerManager) (v : IsValid m) where
  gone : contains a (erase m.objects a m.timers) ≡ false
  gone = contains-erase m.objects a a m.timers v.sorted ∙ ground arith

  found : find m.objects a m.timers ≡ has_callback (m.objects a)
  found = find_lem m.objects a m.timers ∙ v.live a

  -- An armed timer out of the set, changed and back in: the set holds the same timers.
  replaced :
      (t : Timer)
      → has_callback (m.objects a) ≡ true
      → has_callback t ≡ true
      → (b : ℕ)
      → ((a == b) || contains b (erase m.objects a m.timers))
        ≡ has_callback (assign a t m.objects b)
  replaced t h k b = rw (contains-erase m.objects a b m.timers v.sorted) (ground (arith, v.live b))

  -- On a valid manager `refresh` keeps the invariant and answers whether the timer is armed, and then it is due its period from now.
  pub refresh_result :
      (now : ℕ)
      → IsValid (refresh a now m).0
        × ((refresh a now m).1 ≡ has_callback (m.objects a))
        × (((refresh a now m).0.objects a).next ≡ (
            if has_callback (m.objects a) then add64 now (m.objects a).ms else (m.objects a).next))
  unfolding refresh
  refresh_result now = elim (Bool-cases (has_callback (m.objects a))) [
    | inr off ↦ rw (off, refresh) (v, refl, refl)
    | inl on ↦
        let t : Timer = record (m.objects a) { next = add64 now (m.objects a).ms } in
        let s =
          insert_changed a t m.objects (erase m.objects a m.timers)
            (erase-Sorted m.objects a m.timers v.sorted) gone in
        let q : refresh a now m ≡ (
          record m {
            objects = assign a t m.objects;
            timers = insert (assign a t m.objects) a (erase m.objects a m.timers);
          },
          true,
        ) =
          ground (arith, found) in
        rw (q, on)
          (
            record {
              sorted = s;
              live = λ b.
                  contains-insert (assign a t m.objects) a b (erase m.objects a m.timers)
                  ∙ replaced t on on b;
            },
            refl,
            ground arith,
          )
  ]

  -- On a valid manager `cancel` always finds the timer that it takes out, answers whether it was armed, and leaves the others.
  pub cancel_result :
      (n : TimerManager) × (cancel a m ≡ some (n, has_callback (m.objects a)))
      × IsValid n
      × ((b : ℕ) → contains b n.timers ≡ (not (a == b) && contains b m.timers))
  unfolding cancel
  cancel_result = elim (Bool-cases (has_callback (m.objects a))) [
    | inr off ↦ (m, ground arith, v, λ b. ground (arith, v.live b))
    | inl on ↦
        let t : Timer = record (m.objects a) { callback = none } in
        let s = Sorted-same m.objects a t refl m.timers v.sorted in
        let f : find (assign a t m.objects) a m.timers ≡ true =
          find_lem (assign a t m.objects) a m.timers ∙ v.live a ∙ on in
        let out = λ (b : ℕ). contains-erase (assign a t m.objects) a b m.timers s in
        (
          record m {
            objects = assign a t m.objects;
            timers = erase (assign a t m.objects) a m.timers;
          },
          ground (arith, f),
          record {
            sorted = erase-Sorted (assign a t m.objects) a m.timers s;
            live = λ b. out b ∙ ground (arith, v.live b);
          },
          out,
        )
  ]

  -- On a valid manager `reset` keeps the invariant and answers whether the timer is armed, or true at once where nothing is to change; an armed
  -- timer is then due the new period after its start, and the set holds the same timers.
  pub reset_result :
      (ms : ℕ) (from_now : Bool) (now : ℕ)
      → IsValid (reset a ms from_now now m).0
        × ((reset a ms from_now now m).1
            ≡ (((ms == (m.objects a).ms) && not from_now) || has_callback (m.objects a)))
        × ((b : ℕ) → contains b (reset a ms from_now now m).0.timers ≡ contains b m.timers)
        × (((reset a ms from_now now m).0.objects a).next ≡ (
            if has_callback (m.objects a) && not ((ms == (m.objects a).ms) && not from_now)
            then add64 (if from_now then now else sub64 (m.objects a).next (m.objects a).ms) ms
            else (m.objects a).next))
  unfolding reset
  reset_result ms from_now now = elim (Bool-cases ((ms == (m.objects a).ms) && not from_now)) [
    | inl same ↦ rw (same, reset) (v, refl, (λ b. refl), ground arith)
    | inr differs ↦ elim (Bool-cases (has_callback (m.objects a))) [
      | inr off ↦ rw (differs, off, reset) (v, refl, (λ b. refl), refl)
      | inl on ↦
          let t : Timer = record (m.objects a) {
            ms = ms;
            next = add64 (if from_now then now else sub64 (m.objects a).next (m.objects a).ms) ms;
          } in
          let d : TimerManager = record m {
            objects = assign a t m.objects;
            timers = erase m.objects a m.timers;
          } in
          let q : reset a ms from_now now m ≡ (insert_timer a d, true) = ground (arith, found) in
          let w : IsValid (insert_timer a d) =
            insert_timer-IsValid a d
              (Sorted-assign m.objects a t (erase m.objects a m.timers) gone
                (erase-Sorted m.objects a m.timers v.sorted))
              (replaced t on on) in
          let same : (b : ℕ) → contains b (insert_timer a d).timers ≡ contains b m.timers =
            λ b. w.live b ∙ unfold insert_timer in ground (arith, v.live b) in
          rw (q, on, differs) (w, refl, same, unfold insert_timer in ground arith)
    ]
  ]
