-- ===== src/Util/Trim/Ends.antt =====
-- What `Trim`, `TrimLeft` and `TrimRight` of src/Util.cpp leave of a text.
use mathlib.Core.List.{append_assoc}
use routn.Base.{
  ℕ, ◌+◌, ◌-◌, ◌%◌, ◌^◌, ◌<◌, ◌≡◌, refl, ap, sym, ◌∙◌, true, false, none, some, List, [], ◌∷◌, ◌++◌,
  length, length-append, take, take-length-append, drop-length-append, All, arith,
}
use routn.Util.Trim.{has, find_first_not_of, find_last_not_of, trim, trim_left, trim_right}

module _ (delimit : List ℕ) where
  -- All bytes are to be taken off.
  abbrev pub AllIn : List ℕ → Type 0
  AllIn = All (λ c. has delimit c ≡ true)

  find_first-some :
      (l r : List ℕ) (x : ℕ)
      → AllIn l
      → has delimit x ≡ false
      → find_first_not_of delimit (l ++ (x ∷ r)) ≡ some (length l)
  unfolding find_first_not_of
  find_first-some [] r x h e = rw e refl
  find_first-some (c ∷ l) r x (a, h) e = rw (a, find_first-some l r x h e) refl

  find_last-none : (r : List ℕ) → AllIn r → find_last_not_of delimit r ≡ none
  unfolding find_last_not_of
  find_last-none [] h = refl
  find_last-none (c ∷ r) (a, h) = rw (find_last-none r h, a) refl

  find_last-some :
      (l r : List ℕ) (x : ℕ)
      → AllIn r
      → has delimit x ≡ false
      → find_last_not_of delimit (l ++ (x ∷ r)) ≡ some (length l)
  unfolding find_last_not_of
  find_last-some [] r x h e = rw (find_last-none r h, e) refl
  find_last-some (c ∷ l) r x h e = rw (find_last-some l r x h e) refl

  -- Where a text ends in bytes to be taken off, behind one that is not, `TrimRight` takes this one off too.
  pub trim_right_cuts :
      (l r : List ℕ) (x : ℕ)
      → AllIn r
      → has delimit x ≡ false
      → trim_right (l ++ (x ∷ r)) delimit ≡ l
  unfolding trim_right
  trim_right_cuts l r x h e =
      rw (trim_right, find_last-some l r x h e) (take-length-append l (x ∷ r))

  pub trim_left_lem :
      (l r : List ℕ) (x : ℕ)
      → AllIn l
      → has delimit x ≡ false
      → trim_left (l ++ (x ∷ r)) delimit ≡ x ∷ r
  unfolding trim_left
  trim_left_lem l r x h e = rw (trim_left, find_first-some l r x h e) (drop-length-append l (x ∷ r))

  -- `Trim` answers the part of a text from the first byte that is not to be taken off to the last one, for
  -- a text where this part ends below 2^64.
  pub trim_result :
      (l m m' r : List ℕ) (x y : ℕ)
      → AllIn l
      → AllIn r
      → has delimit x ≡ false
      → has delimit y ≡ false
      → x ∷ m' ≡ m ++ (y ∷ [])
      → length l + length m + 1 < 2 ^ 64
      → trim (l ++ (m ++ (y ∷ r))) delimit ≡ m ++ (y ∷ [])
  unfolding trim
  trim_result l m m' r x y hl hr ex ey core small =
      let whole = m ++ (y ∷ r) in
      let e1 : whole ≡ x ∷ (m' ++ r) =
        sym (append_assoc m (y ∷ []) r) ∙ ap (λ z. z ++ r) (sym core) in
      let first : find_first_not_of delimit (l ++ whole) ≡ some (length l) =
        ap (λ z. find_first_not_of delimit (l ++ z)) e1 ∙ find_first-some l (m' ++ r) x hl ex in
      let last : find_last_not_of delimit (l ++ whole) ≡ some (length (l ++ m)) =
        ap (find_last_not_of delimit) (sym (append_assoc l m (y ∷ r)))
        ∙ find_last-some (l ++ m) r y hr ey in
      let count : (length (l ++ m) + 2 ^ 64 - length l + 1) % 2 ^ 64 ≡ length (m ++ (y ∷ [])) =
        omega (arith, small, length-append l m, length-append m (y ∷ [])) in
      rw (trim, first, last, count, drop-length-append l whole)
        (ap (take (length (m ++ (y ∷ [])))) (sym (append_assoc m (y ∷ []) r))
          ∙ take-length-append (m ++ (y ∷ [])) r)
