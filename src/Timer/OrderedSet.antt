-- ===== src/Timer/OrderedSet.antt =====
-- The ordered set of src/Timer.cpp's timers: what a sorted list without repetitions keeps.
use routn.Base.{
  ℕ, ◌≡◌, refl, inl, inr, Bool-cases, Bool, true, false, not, ◌&&◌, ◌||◌, List, [], ◌∷◌, ◌==◌,
  arith,
}
use routn.Timer.{Timer, before, equivalent, assign, insert, find, erase}

unfoldable pub contains : ℕ → List ℕ → Bool
contains a [] = false
contains a (x ∷ xs) = (x == a) || contains a xs

module _ (objects : ℕ → Timer) where
  unfoldable pub AllAfter : ℕ → List ℕ → Type 0
  AllAfter a [] = Unit {0}
  AllAfter a (x ∷ xs) = (before objects a x ≡ true) × AllAfter a xs

  unfoldable pub Sorted : List ℕ → Type 0
  Sorted [] = Unit {0}
  Sorted (x ∷ xs) = AllAfter x xs × Sorted xs

  before_trans :
      (a b c : ℕ)
      → before objects a b ≡ true
      → before objects b c ≡ true
      → before objects a c ≡ true
  before_trans a b c p q = ground arith

  before_irrefl : (a : ℕ) → before objects a a ≡ false
  before_irrefl a = ground arith

  AllAfter-trans :
      (a b : ℕ) (xs : List ℕ) → before objects a b ≡ true → AllAfter b xs → AllAfter a xs
  unfolding AllAfter
  AllAfter-trans a b [] p h = tt
  AllAfter-trans a b (x ∷ xs) p (q, h) = (before_trans a b x p q, AllAfter-trans a b xs p h)

  equivalent_lem : (a b : ℕ) → equivalent objects a b ≡ (a == b)
  equivalent_lem a b = ground arith

  pub find_lem : (a : ℕ) (xs : List ℕ) → find objects a xs ≡ contains a xs
  unfolding find contains
  find_lem a [] = refl
  find_lem a (x ∷ xs) = rw (equivalent_lem x a, find_lem a xs) (ground arith)

  pub AllAfter-contains :
      (a b : ℕ) (xs : List ℕ) → AllAfter a xs → contains b xs ≡ true → before objects a b ≡ true
  unfolding AllAfter contains
  AllAfter-contains a b [] h c = absurd cc
  AllAfter-contains a b (x ∷ xs) (p, h) c = ground (arith, AllAfter-contains a b xs h)

  pub AllAfter-missing : (a : ℕ) (xs : List ℕ) → AllAfter a xs → contains a xs ≡ false
  AllAfter-missing a xs h = elim (Bool-cases (contains a xs)) [
    | inl c ↦ absurd (ground (arith, AllAfter-contains a a xs h c, before_irrefl a))
    | inr c ↦ c
  ]

  insert-AllAfter :
      (a x : ℕ) (xs : List ℕ)
      → before objects x a ≡ true
      → AllAfter x xs
      → AllAfter x (insert objects a xs)
  unfolding AllAfter insert
  insert-AllAfter a x [] p h = (p, tt)
  insert-AllAfter a x (y ∷ ys) p (q, h) = ground (arith, insert-AllAfter a x ys p h)

  -- `insert` keeps the order and adds the element.
  pub insert-Sorted : (a : ℕ) (xs : List ℕ) → Sorted xs → Sorted (insert objects a xs)
  unfolding Sorted insert AllAfter
  insert-Sorted a [] h = (tt, tt)
  insert-Sorted a (x ∷ xs) (p, h) =
      ground (arith, insert-Sorted a xs h, insert-AllAfter a x xs, AllAfter-trans a x xs)

  pub contains-insert :
      (a b : ℕ) (xs : List ℕ) → contains b (insert objects a xs) ≡ ((a == b) || contains b xs)
  unfolding contains insert
  contains-insert a b [] = refl
  contains-insert a b (x ∷ xs) = ground (arith, contains-insert a b xs)

  erase-AllAfter : (a x : ℕ) (xs : List ℕ) → AllAfter x xs → AllAfter x (erase objects a xs)
  unfolding AllAfter erase
  erase-AllAfter a x [] h = tt
  erase-AllAfter a x (y ∷ ys) (q, h) = ground (arith, erase-AllAfter a x ys h)

  pub erase-Sorted : (a : ℕ) (xs : List ℕ) → Sorted xs → Sorted (erase objects a xs)
  unfolding Sorted erase
  erase-Sorted a [] h = tt
  erase-Sorted a (x ∷ xs) (p, h) = ground (arith, erase-Sorted a xs h, erase-AllAfter a x xs p)

  pub contains-erase :
      (a b : ℕ) (xs : List ℕ)
      → Sorted xs
      → contains b (erase objects a xs) ≡ (not (a == b) && contains b xs)
  unfolding contains erase Sorted
  contains-erase a b [] h = ground arith
  contains-erase a b (x ∷ xs) (p, h) =
      ground (arith, contains-erase a b xs h, AllAfter-missing x xs p)

-- A timer outside the set may change.
module _ (objects : ℕ → Timer) (a : ℕ) (t : Timer) where
  AllAfter-assign :
      (x : ℕ) (xs : List ℕ)
      → (x == a) ≡ false
      → contains a xs ≡ false
      → AllAfter objects x xs
      → AllAfter (assign a t objects) x xs
  unfolding AllAfter contains
  AllAfter-assign x [] n m h = tt
  AllAfter-assign x (y ∷ ys) n m (p, h) = ground (arith, AllAfter-assign x ys n)

  pub Sorted-assign :
      (xs : List ℕ) → contains a xs ≡ false → Sorted objects xs → Sorted (assign a t objects) xs
  unfolding Sorted contains
  Sorted-assign [] m h = tt
  Sorted-assign (x ∷ xs) m (p, h) = ground (arith, Sorted-assign xs, AllAfter-assign x xs)

-- A change that keeps the times keeps the order.
module _ (objects : ℕ → Timer) (a : ℕ) (t : Timer) (same : t.next ≡ (objects a).next) where
  AllAfter-same : (x : ℕ) (xs : List ℕ) → AllAfter objects x xs → AllAfter (assign a t objects) x xs
  unfolding AllAfter
  AllAfter-same x [] h = tt
  AllAfter-same x (y ∷ ys) (p, h) = ground (arith, AllAfter-same x ys)

  pub Sorted-same : (xs : List ℕ) → Sorted objects xs → Sorted (assign a t objects) xs
  unfolding Sorted
  Sorted-same [] h = tt
  Sorted-same (x ∷ xs) (p, h) = (AllAfter-same x xs p, Sorted-same xs h)
