-- ===== src/Timer/Due.antt =====
-- The timers that are due, and how `listExpiredCb` of src/Timer.cpp finds them in the ordered set.
use routn.Base.{
  ℕ, ◌≤◌, ◌≡◌, refl, ap, inl, inr, Bool-cases, Bool, true, false, not, ◌&&◌, List, [], ◌∷◌, ◌++◌,
  ltb, leb, ◌==◌, if◌then◌else◌, arith, some,
}
use routn.Timer.{Timer, comparator, assign, timer_at, lower_bound, while_due}
use routn.Timer.OrderedSet.{contains, AllAfter, Sorted}

-- The elements that pass a test, in their order.
unfoldable pub keep : (ℕ → Bool) → List ℕ → List ℕ
keep p [] = []
keep p (x ∷ xs) = if p x then x ∷ keep p xs else keep p xs

abbrev pub is_due : ℕ → (ℕ → Timer) → ℕ → Bool
is_due now objects a = leb (objects a).next now

pub contains-keep :
    (p : ℕ → Bool) (b : ℕ) (xs : List ℕ) → contains b (keep p xs) ≡ (p b && contains b xs)
unfolding keep contains
contains-keep p b [] = ground arith
contains-keep p b (x ∷ xs) = elim (Bool-cases (x == b)) [
  | inl e ↦ let e' : x ≡ b = ground (arith, e) in rw e' (ground (arith, contains-keep p b xs))
  | inr n ↦ ground (arith, contains-keep p b xs)
]

module _ (objects : ℕ → Timer) (now : ℕ) where
  -- Behind a timer that is not due, none is.
  pub none_due :
      (x : ℕ) (xs : List ℕ)
      → AllAfter objects x xs
      → is_due now objects x ≡ false
      → (keep (is_due now objects) xs ≡ []) × (keep (λ b. not (is_due now objects b)) xs ≡ xs)
  unfolding keep AllAfter
  none_due x [] h d = (refl, refl)
  none_due x (y ∷ ys) (p, h) d = ground (arith, none_due x ys h d)

  -- The loop takes the timers that are due; at the front of `xs` no timer is overdue.
  while_due_lem :
      (xs : List ℕ)
      → Sorted objects xs
      → keep (λ b. ltb (objects b).next now) xs ≡ []
      → (while_due objects now xs).0 ≡ keep (is_due now objects) xs
  unfolding while_due keep Sorted
  while_due_lem [] s h = refl
  while_due_lem (x ∷ xs) (p, s) h = ground (arith, while_due_lem xs s, none_due x xs p)

  while_due_rest :
      (xs : List ℕ)
      → Sorted objects xs
      → keep (λ b. ltb (objects b).next now) xs ≡ []
      → (while_due objects now xs).1 ≡ keep (λ b. not (is_due now objects b)) xs
  unfolding while_due keep Sorted
  while_due_rest [] s h = refl
  while_due_rest (x ∷ xs) (p, s) h = ground (arith, while_due_rest xs s, none_due x xs p)

  none_overdue :
      (x : ℕ) (xs : List ℕ)
      → AllAfter objects x xs
      → now ≤ (objects x).next
      → keep (λ b. ltb (objects b).next now) xs ≡ []
  unfolding keep AllAfter
  none_overdue x [] h d = refl
  none_overdue x (y ∷ ys) (p, h) d = ground (arith, none_overdue x ys h d)

  none_overdue_from :
      (x : ℕ) (xs : List ℕ)
      → AllAfter objects x xs
      → now ≤ (objects x).next
      → keep (λ b. ltb (objects b).next now) (x ∷ xs) ≡ []
  unfolding keep
  none_overdue_from x xs h d = ground (arith, none_overdue x xs h d)

  -- The iterator parts the set into the timers that are due and those that are not.
  module _ (tmp : ℕ) where
    abbrev pub probe : ℕ → Timer
    probe = assign tmp (timer_at now) objects

    abbrev pub Parted : List ℕ → Type 0
    Parted xs =
        ((lower_bound probe tmp xs).0 ++ (while_due objects now (lower_bound probe tmp xs).1).0
          ≡ keep (is_due now objects) xs)
        × ((while_due objects now (lower_bound probe tmp xs).1).1
            ≡ keep (λ b. not (is_due now objects b)) xs)

    pub parted : (xs : List ℕ) → Sorted objects xs → contains tmp xs ≡ false → Parted xs
    unfolding lower_bound contains Sorted keep
    parted [] s out = (unfold while_due in refl, unfold while_due in refl)
    parted (x ∷ xs) (p, s) out = elim (Bool-cases (comparator probe (some x) (some tmp))) [
      | inl below ↦
          let (e, f) = parted xs s (ground (arith, out)) in
          let d : is_due now objects x ≡ true = ground (arith, below, out) in
          rw (below, d) (ap (◌∷◌ x) e, f)
      | inr from ↦
          let d : now ≤ (objects x).next = ground (arith, from, out) in
          let early = none_overdue_from x xs p d in
          rw from (while_due_lem (x ∷ xs) (p, s) early, while_due_rest (x ∷ xs) (p, s) early)
    ]
