-- ===== src/Timer/Expiry.antt =====
-- `listExpiredCb` and `getNextTimer` of src/Timer.cpp against the timers that are due.
use routn.Base.{
  ℕ, ◌-◌, ◌^◌, ◌<◌, ◌≤◌, ◌≡◌, refl, ap, ◌∙◌, inl, inr, ◌⊎◌, Bool-cases, Bool, true, false, not,
  ◌&&◌, List, [], ◌∷◌, ltb, ◌==◌, if◌then◌else◌, arith, Option,
}
use routn.Timer.{
  Timer, TimerManager, Callback, before, has_callback, fire, split_expired, list_expired_cb,
  detect_clock_rollover, get_next_timer,
}
use routn.Timer.OrderedSet.{contains, AllAfter, Sorted, AllAfter-missing, AllAfter-contains}
use routn.Timer.Invariant.{IsValid}
use routn.Timer.Due.{keep, is_due, contains-keep, none_due, parted}
use routn.Timer.Firing.{Firing, Distinct, Fired, fire-Fired}
use routn.Timer.Rollover.{expired_at, time_seen, taken_at, taken_at-expired_at, fire-previous_time}

List-cases : (xs : List ℕ) → (xs ≡ []) ⊎ ((x : ℕ) × (ys : List ℕ) × (xs ≡ x ∷ ys))
List-cases [] = inl refl
List-cases (x ∷ xs) = inr (x, xs, refl)

module _ (objects : ℕ → Timer) where
  Sorted-Distinct : (xs : List ℕ) → Sorted objects xs → Distinct xs
  unfolding Sorted
  Sorted-Distinct [] s = tt
  Sorted-Distinct (x ∷ xs) (p, s) = (AllAfter-missing objects x xs p, Sorted-Distinct xs s)

  module _ (p : ℕ → Bool) where
    keep-AllAfter : (x : ℕ) (xs : List ℕ) → AllAfter objects x xs → AllAfter objects x (keep p xs)
    unfolding AllAfter keep
    keep-AllAfter x [] h = tt
    keep-AllAfter x (y ∷ ys) (q, h) = ground (arith, keep-AllAfter x ys h)

    keep-Sorted : (xs : List ℕ) → Sorted objects xs → Sorted objects (keep p xs)
    unfolding Sorted keep
    keep-Sorted [] s = tt
    keep-Sorted (x ∷ xs) (q, s) = ground (arith, keep-Sorted xs s, keep-AllAfter x xs q)

first_late :
    (objects : ℕ → Timer) (now x : ℕ) (ys : List ℕ)
    → Sorted objects (x ∷ ys)
    → is_due now objects x ≡ false
    → keep (is_due now objects) (x ∷ ys) ≡ []
unfolding keep Sorted
first_late objects now x ys (p, s) late = rw late ((none_due objects now x ys p late).0)

module _ (tmp now : ℕ) (m : TimerManager) (v : IsValid m)
    (free : has_callback (m.objects tmp) ≡ false) where
  abbrev seen : TimerManager
  seen = record m { previous_time = now }

  split_lem :
      (r : Bool)
      → (split_expired r tmp now seen).0
        ≡ (if r then m.timers else keep (is_due now m.objects) m.timers)
  unfolding split_expired
  split_lem true = refl
  split_lem false = (parted m.objects now tmp m.timers v.sorted (v.live tmp ∙ free)).0

  split_rest :
      (r : Bool)
      → (split_expired r tmp now seen).1
        ≡ (if r then [] else keep (λ b. not (is_due now m.objects b)) m.timers)
  unfolding split_expired
  split_rest true = refl
  split_rest false = (parted m.objects now tmp m.timers v.sorted (v.live tmp ∙ free)).1

  firing :
      (r : Bool)
      → Firing
          (record seen {
            timers = if r then [] else keep (λ b. not (is_due now m.objects b)) m.timers;
          })
          (if r then m.timers else keep (is_due now m.objects) m.timers)
  firing true = record {
    sorted = unfold Sorted in tt;
    live = λ a. unfold contains in ground (arith, v.live a);
    apart = λ a. unfold contains in ground arith;
  }
  firing false = record {
    sorted = keep-Sorted m.objects (λ b. not (is_due now m.objects b)) m.timers v.sorted;
    live = λ a.
        rw
          (
            contains-keep (is_due now m.objects) a m.timers,
            contains-keep (λ b. not (is_due now m.objects b)) a m.timers,
          )
          (ground (arith, v.live a));
    apart = λ a.
        rw
          (
            contains-keep (is_due now m.objects) a m.timers,
            contains-keep (λ b. not (is_due now m.objects b)) a m.timers,
          )
          (ground arith);
  }

  distinct : (r : Bool) → Distinct (if r then m.timers else keep (is_due now m.objects) m.timers)
  distinct true = Sorted-Distinct m.objects m.timers v.sorted
  distinct false =
      Sorted-Distinct m.objects _ (keep-Sorted m.objects (is_due now m.objects) m.timers v.sorted)

  nothing-Fired :
      (n : TimerManager) → n.timers ≡ m.timers → n.objects ≡ m.objects → Fired now [] m n []
  nothing-Fired n e o = record {
    valid = rw-valid;
    handed_out = refl;
    objects_eq = λ b. unfold contains in ap (λ (f : ℕ → Timer). f b) o;
  }
    where
      rw-valid : IsValid n
      rw-valid = record { sorted = rw (e, o) v.sorted; live = rw (e, o) v.live }

  fired :
      (r : Bool)
      → (let (expired, rest) = split_expired r tmp now seen in
          Fired now
            (if r then m.timers else keep (is_due now m.objects) m.timers)
            m
            (fire now expired (record seen { timers = rest })).0
            (fire now expired (record seen { timers = rest })).1)
  fired r =
      let f = fire-Fired now _ _ (distinct r) (firing r) in
      rw (split_lem r, split_rest r)
        (record { valid = f.valid; handed_out = f.handed_out; objects_eq = f.objects_eq })

  abbrev rolled : Bool
  rolled = (detect_clock_rollover now m).1

  abbrev after_split : Bool → TimerManager × List (Option Callback)
  after_split r =
      let (expired, rest) = split_expired r tmp now seen in
      fire now expired (record seen { timers = rest })

  called :
      (x : ℕ) (ys : List ℕ)
      → m.timers ≡ x ∷ ys
      → list_expired_cb tmp now m
        ≡ (if not rolled && ltb now (m.objects x).next then (seen, []) else after_split rolled)
  unfolding list_expired_cb detect_clock_rollover
  called x ys e = ground (arith, e)

  no_timers :
      (r : Bool)
      → m.timers ≡ []
      → (if r then m.timers else keep (is_due now m.objects) m.timers) ≡ []
  unfolding keep
  no_timers true e = e
  no_timers false e = rw e refl

  early_none :
      (x : ℕ) (ys : List ℕ)
      → m.timers ≡ x ∷ ys
      → (not rolled && ltb now (m.objects x).next) ≡ true
      → taken_at now m ≡ []
  unfolding taken_at
  early_none x ys e h =
      let r : rolled ≡ false = ground (arith, h) in
      let late : is_due now m.objects x ≡ false = ground (arith, h) in
      let s : Sorted m.objects (x ∷ ys) = rw e at v.sorted in
      rw (r, e) (first_late m.objects now x ys s late)

  fired_taken :
      Fired now (taken_at now m) m (list_expired_cb tmp now m).0 (list_expired_cb tmp now m).1
  unfolding taken_at
  fired_taken = elim (List-cases m.timers) [
    | inl e ↦
        let q : list_expired_cb tmp now m ≡ (m, []) = unfold list_expired_cb in rw e refl in
        rw (q, no_timers rolled e) (nothing-Fired m refl refl)
    | inr (x, ys, e) ↦ elim (Bool-cases (not rolled && ltb now (m.objects x).next)) [
      | inl early ↦
          let q : list_expired_cb tmp now m ≡ (seen, []) = called x ys e ∙ rw early refl in
          rw (q, early_none x ys e early) (nothing-Fired seen refl refl)
      | inr late ↦
          let q : list_expired_cb tmp now m ≡ after_split rolled = called x ys e ∙ rw late refl in
          rw q (fired rolled)
    ]
  ]

  stored : (list_expired_cb tmp now m).0.previous_time ≡ time_seen now m
  stored = elim (List-cases m.timers) [
    | inl e ↦
        let q : list_expired_cb tmp now m ≡ (m, []) = unfold list_expired_cb in rw e refl in
        rw (q, e) refl
    | inr (x, ys, e) ↦ elim (Bool-cases (not rolled && ltb now (m.objects x).next)) [
      | inl early ↦
          let q : list_expired_cb tmp now m ≡ (seen, []) = called x ys e ∙ rw early refl in
          rw (q, e) refl
      | inr late ↦
          let q : list_expired_cb tmp now m ≡ after_split rolled = called x ys e ∙ rw late refl in
          let now_seen : time_seen now m ≡ now = rw e refl in
          rw (q, now_seen) (fire-previous_time now _ _)
    ]
  ]

  -- On a valid manager `listExpiredCb` hands out the callbacks of the timers that are due, in their order,
  -- or of all where the clock went back by more than an hour, or at all where the last time was in the first
  -- hour of the clock. A recurring one is armed again for its period from now, any other is disarmed, the
  -- rest stays, and the invariant is kept; unless the set is empty, the time is remembered for the next
  -- call. The probe is allocated where no armed timer is, and the time remembered so far is of 64 bits.
  pub list_expired_cb_result :
      m.previous_time < 2 ^ 64
      → Fired now (expired_at now m) m (list_expired_cb tmp now m).0 (list_expired_cb tmp now m).1
        × ((list_expired_cb tmp now m).0.previous_time ≡ time_seen now m)
  list_expired_cb_result h = (rw (← taken_at-expired_at now m h) fired_taken, stored)

no_element {ℓ} : {A : Type ℓ} (a : ℕ) → contains a [] ≡ true → A
unfolding contains
no_element a c = absurd cc

first_least :
    (objects : ℕ → Timer) (a x : ℕ) (ys : List ℕ)
    → Sorted objects (x ∷ ys)
    → contains a (x ∷ ys) ≡ true
    → (objects x).next ≤ (objects a).next
unfolding Sorted contains
first_least objects a x ys (p, s) h = elim (Bool-cases (x == a)) [
  | inl e ↦ let e' : x ≡ a = ground (arith, e) in rw e' (omega arith)
  | inr n ↦
      let b : before objects x a ≡ true =
        AllAfter-contains objects x a ys p (ground (arith, h, n)) in
      ground (arith, b)
]

-- On a valid manager with a timer in its set, `getNextTimer` answers how long no timer is due: no more than for any timer in the set, and for
-- one of them just as long.
pub get_next_timer_result :
    (a now : ℕ) (m : TimerManager)
    → IsValid m
    → contains a m.timers ≡ true
    → ((get_next_timer now m).1 ≤ (m.objects a).next - now)
      × ((b : ℕ) × (contains b m.timers ≡ true)
          × ((get_next_timer now m).1 ≡ (m.objects b).next - now))
get_next_timer_result a now m v h = elim (List-cases m.timers) [
  | inl e ↦ no_element a (rw e at h)
  | inr (x, ys, e) ↦
      let q : (get_next_timer now m).1 ≡ (m.objects x).next - now =
        unfold get_next_timer in rw e (ground arith) in
      let le : (m.objects x).next ≤ (m.objects a).next =
        first_least m.objects a x ys (rw e at v.sorted) (rw e at h) in
      (rw q (omega arith), (x, rw e (unfold contains in ground arith), q))
]
