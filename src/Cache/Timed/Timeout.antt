-- ===== src/Cache/Timed/Timeout.antt =====
-- `checkTimeout` of src/ds/TimedCache.h passes over every other entry that is due.
use routn.Base.{
  ℕ, ◌≤◌, ◌≡◌, refl, ◌∙◌, Bool, true, false, none, some, List, [], ◌∷◌, ◌++◌, length, All, leb,
  if◌then◌else◌, arith, Bool-cases, inl, inr,
}
use routn.Cache.Timed.{Item, Timed, check_loop, check_timeout, calls, erase_keys}

module _ {K V : Type 0} where
  -- The first, third, fifth … entry, and the second, fourth, sixth ….
  abbrev pub firsts : List (Item K V) → List (Item K V)
  firsts [] = []
  firsts (x ∷ []) = x ∷ []
  firsts (x ∷ y ∷ rest) = x ∷ firsts rest

  abbrev pub seconds : List (Item K V) → List (Item K V)
  seconds [] = []
  seconds (x ∷ []) = []
  seconds (x ∷ y ∷ rest) = y ∷ seconds rest

  abbrev pub is_odd : List (Item K V) → Bool
  is_odd [] = false
  is_odd (x ∷ []) = true
  is_odd (x ∷ y ∷ rest) = is_odd rest

  check_loop-All :
      (ts : ℕ) (xs : List (Item K V))
      → All (λ x. x.ts ≤ ts) xs
      → check_loop ts xs ≡ (if is_odd xs then none else some (seconds xs, firsts xs))
  unfolding check_loop
  check_loop-All ts [] h = refl
  check_loop-All ts (x ∷ []) (p, h) = ground arith
  check_loop-All ts (x ∷ y ∷ rest) (p, (q, h)) =
      let due : leb x.ts ts ≡ true = ground (arith, p) in
      elim (Bool-cases (is_odd rest)) [
        | inl odd ↦
            let e : check_loop ts rest ≡ none = check_loop-All ts rest h ∙ rw odd refl in
            rw (due, odd, e) refl
        | inr even ↦
            let e : check_loop ts rest ≡ some (seconds rest, firsts rest) =
              check_loop-All ts rest h ∙ rw even refl in
            rw (due, even, e) refl
      ]

-- Where all entries are due, `checkTimeout` increments the end of the set if their number is odd, and
-- otherwise takes out the first, third, fifth … entry and leaves the others.
pub check_timeout-All :
    {K V : Type 0} (eq : Discrete K) (less : K → K → Bool) (ts : ℕ) (c : Timed K V)
    → All (λ x. x.ts ≤ ts) c.timed
    → check_timeout eq less ts c ≡ (
        if is_odd c.timed
        then none
        else some (
          record c {
            called = c.called ++ calls c.callback (firsts c.timed);
            cache = erase_keys eq less (firsts c.timed) c.cache;
            timed = seconds c.timed;
          },
          length (firsts c.timed),
        ))
unfolding check_timeout
check_timeout-All eq less ts c h = elim (Bool-cases (is_odd c.timed)) [
  | inl odd ↦
      let e : check_loop ts c.timed ≡ none = check_loop-All ts c.timed h ∙ rw odd refl in
      rw (e, check_timeout, odd) refl
  | inr even ↦
      let e : check_loop ts c.timed ≡ some (seconds c.timed, firsts c.timed) =
        check_loop-All ts c.timed h ∙ rw even refl in
      rw (e, check_timeout, even) refl
]
