-- ===== src/Base/Overwrite.antt =====
-- `over xs i ys`, the flat picture of a `memcpy` into the middle of a buffer.
use Prim.Native.Nat.{ℕ, zero, suc, ◌+◌, ◌-◌, ◌≤◌, max}
use mathlib.Core.Path.{◌≡◌, refl, sym, ap}
use mathlib.Core.List.{List, [], ◌∷◌, ◌++◌, append-nil}
use native.Mathlib.Omega.{arith}
use routn.Base.Lists.{length, take, drop, over, drop_all}

module _ {ℓ} {A : Type ℓ} where
  pub length-over :
      (xs : List A) (i : ℕ) (ys : List A)
      → i ≤ length xs
      → length (over xs i ys) ≡ max (length xs) (i + length ys)
  length-over [] i ys h = omega arith
  length-over (x ∷ xs) zero [] h = omega arith
  length-over (x ∷ xs) zero (y ∷ ys) h = omega (arith, length-over xs zero ys (omega arith))
  length-over (x ∷ xs) (suc i) ys h = omega (arith, length-over xs i ys (omega arith))

  pub over-append_left :
      (xs zs : List A) (i : ℕ) (ys : List A)
      → i + length ys ≤ length xs
      → over (xs ++ zs) i ys ≡ over xs i ys ++ zs
  over-append_left [] [] zero [] h = refl
  over-append_left [] (z ∷ zs) zero [] h = refl
  over-append_left [] zs zero (y ∷ ys) h = absurd (omega arith)
  over-append_left [] zs (suc i) ys h = absurd (omega arith)
  over-append_left (x ∷ xs) zs zero [] h = refl
  over-append_left (x ∷ xs) zs zero (y ∷ ys) h =
      ap (◌∷◌ y) (over-append_left xs zs zero ys (omega arith))
  over-append_left (x ∷ xs) zs (suc i) ys h = ap (◌∷◌ x) (over-append_left xs zs i ys (omega arith))

  -- A write that crosses the seam is a write to the end of the first part and one to the second.
  pub over-append_split :
      (xs zs : List A) (i : ℕ) (ys : List A)
      → i ≤ length xs
      → length xs ≤ i + length ys
      → over (xs ++ zs) i ys
        ≡ over xs i (take (length xs - i) ys) ++ over zs 0 (drop (length xs - i) ys)
  over-append_split [] zs zero ys h k = refl
  over-append_split [] zs (suc i) ys h k = absurd (omega arith)
  over-append_split (x ∷ xs) zs zero [] h k = absurd (omega arith)
  over-append_split (x ∷ xs) zs zero (y ∷ ys) h k =
      ground (arith, over-append_split xs zs zero ys (omega arith) (omega arith))
  over-append_split (x ∷ xs) zs (suc i) ys h k =
      ground (arith, over-append_split xs zs i ys (omega arith) (omega arith))

  pub over-append_right :
      (xs zs : List A) (i : ℕ) (ys : List A)
      → over (xs ++ zs) (length xs + i) ys ≡ xs ++ over zs i ys
  over-append_right [] zs i ys = ground arith
  over-append_right (x ∷ xs) zs i ys = ground (arith, over-append_right xs zs i ys)

  -- What was written is what stands there; nothing before or behind it changes.
  pub take-drop-over :
      (xs : List A) (i : ℕ) (ys : List A)
      → i ≤ length xs
      → take (length ys) (drop i (over xs i ys)) ≡ ys
  take-drop-over [] zero [] h = refl
  take-drop-over [] zero (y ∷ ys) h = ap (◌∷◌ y) (take-drop-over [] zero ys (omega arith))
  take-drop-over [] (suc i) ys h = absurd (omega arith)
  take-drop-over (x ∷ xs) zero [] h = refl
  take-drop-over (x ∷ xs) zero (y ∷ ys) h = ap (◌∷◌ y) (take-drop-over xs zero ys (omega arith))
  take-drop-over (x ∷ xs) (suc i) ys h = take-drop-over xs i ys (omega arith)

  pub drop-over :
      (xs : List A) (i : ℕ) (ys : List A)
      → i ≤ length xs
      → drop i (over xs i ys) ≡ ys ++ drop (i + length ys) xs
  drop-over [] zero ys h =
      rw (drop_all {A = A} (0 + length ys) [] (omega arith)) (sym (append-nil ys))
  drop-over [] (suc i) ys h = absurd (omega arith)
  drop-over (x ∷ xs) zero [] h = refl
  drop-over (x ∷ xs) zero (y ∷ ys) h =
      let e : 0 + suc (length ys) ≡ suc (0 + length ys) = omega arith in
      rw e (ap (◌∷◌ y) (drop-over xs zero ys (omega arith)))
  drop-over (x ∷ xs) (suc i) ys h =
      let e : suc i + length ys ≡ suc (i + length ys) = omega arith in
      rw e (drop-over xs i ys (omega arith))

  pub take-over :
      (xs : List A) (i : ℕ) (ys : List A) → i ≤ length xs → take i (over xs i ys) ≡ take i xs
  take-over [] zero ys h = refl
  take-over [] (suc i) ys h = absurd (omega arith)
  take-over (x ∷ xs) zero ys h = refl
  take-over (x ∷ xs) (suc i) ys h = ap (◌∷◌ x) (take-over xs i ys (omega arith))

  -- A written list cut at `m`, which lies behind what was written and behind the cut `n`.
  pub take-over_cut :
      (m n : ℕ) (xs : List A) (i : ℕ) (ys : List A)
      → i ≤ n
      → m ≤ length xs
      → m ≡ max n (i + length ys)
      → take m (over xs i ys) ≡ over (take n xs) i ys
  take-over_cut zero zero xs zero [] h k e = refl
  take-over_cut zero zero xs (suc i) [] h k e = absurd (omega arith)
  take-over_cut zero (suc n) xs i [] h k e = absurd (omega arith)
  take-over_cut zero n xs i (y ∷ ys) h k e = absurd (omega arith)
  take-over_cut (suc m) n [] i ys h k e = absurd (omega arith)
  take-over_cut (suc m) zero (x ∷ xs) (suc i) ys h k e = absurd (omega arith)
  take-over_cut (suc m) zero (x ∷ xs) zero [] h k e = absurd (omega arith)
  take-over_cut (suc m) zero (x ∷ xs) zero (y ∷ ys) h k e =
      ap (◌∷◌ y) (take-over_cut m zero xs zero ys (omega arith) (omega arith) (omega arith))
  take-over_cut (suc m) (suc n) (x ∷ xs) zero [] h k e = ap (λ (t : ℕ). x ∷ take t xs) (omega arith)
  take-over_cut (suc m) (suc n) (x ∷ xs) zero (y ∷ ys) h k e =
      ap (◌∷◌ y) (take-over_cut m n xs zero ys (omega arith) (omega arith) (omega arith))
  take-over_cut (suc m) (suc n) (x ∷ xs) (suc i) ys h k e =
      ap (◌∷◌ x) (take-over_cut m n xs i ys (omega arith) (omega arith) (omega arith))

  pub over-nil : (xs : List A) (i : ℕ) → over xs i [] ≡ xs
  over-nil [] i = refl
  over-nil (x ∷ xs) zero = refl
  over-nil (x ∷ xs) (suc i) = ap (◌∷◌ x) (over-nil xs i)

  -- Two writes, the second where the first ends, are one.
  pub over-over :
      (xs : List A) (i : ℕ) (ys zs : List A)
      → i ≤ length xs
      → over (over xs i ys) (i + length ys) zs ≡ over xs i (ys ++ zs)
  over-over [] zero [] zs h = refl
  over-over [] zero (y ∷ ys) zs h =
      let e : 0 + suc (length ys) ≡ suc (0 + length ys) = omega arith in
      rw e (ap (◌∷◌ y) (over-over [] zero ys zs (omega arith)))
  over-over [] (suc i) ys zs h = absurd (omega arith)
  over-over (x ∷ xs) zero [] zs h = refl
  over-over (x ∷ xs) zero (y ∷ ys) zs h =
      let e : 0 + suc (length ys) ≡ suc (0 + length ys) = omega arith in
      rw e (ap (◌∷◌ y) (over-over xs zero ys zs (omega arith)))
  over-over (x ∷ xs) (suc i) ys zs h =
      let e : suc i + length ys ≡ suc (i + length ys) = omega arith in
      rw e (ap (◌∷◌ x) (over-over xs i ys zs (omega arith)))
