-- ===== src/Timer/Rollover.antt =====
-- The part of the clock in `listExpiredCb` of src/Timer.cpp: when its time counts as gone back, whose
-- callbacks are handed out then, and which time is remembered.
use routn.Base.{
  ℕ, ◌+◌, ◌^◌, ◌<◌, ◌≡◌, refl, ◌∙◌, inl, inr, Bool-cases, Bool, List, [], ◌∷◌, ltb, if◌then◌else◌,
  arith,
}
use routn.Timer.{TimerManager, rearm, fire, detect_clock_rollover}
use routn.Timer.Due.{keep, is_due}

-- The clock went back by more than an hour since the last call that looked at it. Where that call was
-- itself in the first hour of the clock, any step back counts, since the time an hour before is then a huge
-- number.
abbrev pub went_back : ℕ → ℕ → Bool
went_back now previous =
    if ltb previous 3600000 then ltb now previous else ltb (now + 3600000) previous

-- The timers whose callbacks a call hands out: those that are due in their order, or all of them
-- where the clock went back.
unfoldable pub expired_at : ℕ → TimerManager → List ℕ
expired_at now m =
    if went_back now m.previous_time then m.timers else keep (is_due now m.objects) m.timers

rollover_lem :
    (now : ℕ) (m : TimerManager)
    → m.previous_time < 2 ^ 64
    → (detect_clock_rollover now m).1 ≡ went_back now m.previous_time
unfolding detect_clock_rollover
rollover_lem now m h = ground arith

-- The time that is remembered after a call: its own, if it finds a timer.
abbrev pub time_seen : ℕ → TimerManager → ℕ
time_seen now m = elim m.timers [ [] ↦ m.previous_time | _ ∷ _ ↦ now ]

unfoldable pub taken_at : ℕ → TimerManager → List ℕ
taken_at now m =
    if (detect_clock_rollover now m).1 then m.timers else keep (is_due now m.objects) m.timers

pub taken_at-expired_at :
    (now : ℕ) (m : TimerManager) → m.previous_time < 2 ^ 64 → taken_at now m ≡ expired_at now m
unfolding taken_at expired_at
taken_at-expired_at now m h = rw (rollover_lem now m h) refl

rearm-previous_time :
    (now a : ℕ) (m : TimerManager) → (rearm now a m).previous_time ≡ m.previous_time
unfolding rearm
rearm-previous_time now a m = elim (Bool-cases (m.objects a).recurring) [
  | inl again ↦ rw again refl
  | inr once ↦ rw once refl
]

pub fire-previous_time :
    (now : ℕ) (xs : List ℕ) (m : TimerManager) → (fire now xs m).0.previous_time ≡ m.previous_time
unfolding fire
fire-previous_time now [] m = refl
fire-previous_time now (x ∷ xs) m =
    fire-previous_time now xs (rearm now x m) ∙ rearm-previous_time now x m
