-- ===== src/Base/Bits.antt =====
-- The bitwise operations on numbers of any width, as arithmetic.
use Prim.Native.Nat.{
  ℕ, zero, suc, ◌+◌, ◌-◌, ◌*◌, ◌/◌, ◌%◌, ◌^◌, ◌≤◌, ◌<◌, min, max, bit_and, bit_or, bit_xor, digits,
  differ, bit_and-bitwise, bit_or-bitwise, bit_xor-bitwise,
}
use mathlib.Core.Path.{◌≡◌, refl, ap, ◌∙◌}
use native.Mathlib.Nat.{pow-suc, one-le-pow}
use native.Mathlib.Omega.{arith}

-- The recursion on digits does not depend on its fuel, once that covers the first number.
module _ (rest : ℕ → ℕ) (op : ℕ → ℕ → ℕ) where
  fuel_irrelevant : (j k x y : ℕ) → x ≤ j → x ≤ k → digits rest op j x y ≡ digits rest op k x y
  fuel_irrelevant zero zero x y p q = refl
  fuel_irrelevant zero (suc k) zero y p q = refl
  fuel_irrelevant zero (suc k) (suc x) y p q = absurd (omega arith)
  fuel_irrelevant (suc j) zero zero y p q = refl
  fuel_irrelevant (suc j) zero (suc x) y p q = absurd (omega arith)
  fuel_irrelevant (suc j) (suc k) zero y p q = refl
  fuel_irrelevant (suc j) (suc k) (suc x) y p q =
      ap (λ (t : ℕ). t * 2 + op (suc x % 2) (y % 2))
        (fuel_irrelevant j k (suc x / 2) (y / 2) (omega arith) (omega arith))

-- One equation for the lowest digit of each operation.
pub and_digit : (x y : ℕ) → bit_and x y ≡ bit_and (x / 2) (y / 2) * 2 + min (x % 2) (y % 2)
and_digit zero y = omega (arith, bit_and-bitwise zero y, bit_and-bitwise (zero / 2) (y / 2))
and_digit (suc x) y = omega (
  arith,
  bit_and-bitwise (suc x) y,
  bit_and-bitwise (suc x / 2) (y / 2),
  fuel_irrelevant (λ b. 0) min x (suc x / 2) (suc x / 2) (y / 2) (omega arith) (omega arith),
)

pub or_digit : (x y : ℕ) → bit_or x y ≡ bit_or (x / 2) (y / 2) * 2 + max (x % 2) (y % 2)
or_digit zero y = omega (arith, bit_or-bitwise zero y, bit_or-bitwise (zero / 2) (y / 2))
or_digit (suc x) y = omega (
  arith,
  bit_or-bitwise (suc x) y,
  bit_or-bitwise (suc x / 2) (y / 2),
  fuel_irrelevant (λ b. b) max x (suc x / 2) (suc x / 2) (y / 2) (omega arith) (omega arith),
)

pub xor_digit : (x y : ℕ) → bit_xor x y ≡ bit_xor (x / 2) (y / 2) * 2 + differ (x % 2) (y % 2)
xor_digit zero y = omega (arith, bit_xor-bitwise zero y, bit_xor-bitwise (zero / 2) (y / 2))
xor_digit (suc x) y = omega (
  arith,
  bit_xor-bitwise (suc x) y,
  bit_xor-bitwise (suc x / 2) (y / 2),
  fuel_irrelevant (λ b. b) differ x (suc x / 2) (suc x / 2) (y / 2) (omega arith) (omega arith),
)

-- `r | (q << k)` is a sum where `r` has `k` bits.
pub or_shifted : (k r q : ℕ) → r < 2 ^ k → bit_or r (q * 2 ^ k) ≡ r + q * 2 ^ k
or_shifted zero zero q h = omega (arith, bit_or-bitwise 0 (q * 1))
or_shifted zero (suc r) q h = absurd (omega arith)
or_shifted (suc k) r q h = ground (
  arith,
  or_digit r (q * 2 ^ suc k),
  pow-suc 2 k,
  ap (λ (t : ℕ). q * t) (pow-suc 2 k),
  or_shifted k (r / 2) q (omega (arith, pow-suc 2 k)),
)

and_none_below : (n x : ℕ) → x ≤ n → bit_and x 0 ≡ 0
and_none_below n zero h = refl
and_none_below zero (suc x) h = absurd (omega arith)
and_none_below (suc n) (suc x) h =
    omega (arith, and_digit (suc x) 0, and_none_below n (suc x / 2) (omega arith))

and_one : (x : ℕ) → bit_and x 1 ≡ x % 2
and_one x = omega (arith, and_digit x 1, and_none_below (x / 2) (x / 2) (omega arith))

and_seven : (x : ℕ) → bit_and x 7 ≡ x % 8
and_seven x = omega (arith, and_digit x 7, and_digit (x / 2) 3, and_one (x / 2 / 2))

and_63 : (x : ℕ) → bit_and x 63 ≡ x % 64
and_63 x = omega (
  arith,
  and_digit x 63,
  and_digit (x / 2) 31,
  and_digit (x / 2 / 2) 15,
  and_seven (x / 2 / 2 / 2),
)

-- The low seven bits.
pub and_7f : (x : ℕ) → bit_and x 0x7f ≡ x % 128
and_7f x = omega (arith, and_digit x 0x7f, and_63 (x / 2))

pub and_01 : (x : ℕ) → bit_and x 1 ≡ x % 2
and_01 = and_one

pub or_80 : (x : ℕ) → x < 128 → bit_or x 0x80 ≡ x + 128
or_80 x h = or_shifted 7 x 1 h

-- `x ^ 0`, and `x` against all ones.
pub xor_none : (k x : ℕ) → x < 2 ^ k → bit_xor x 0 ≡ x
xor_none zero zero h = refl
xor_none zero (suc x) h = absurd (omega arith)
xor_none (suc k) x h = omega (
  arith,
  xor_digit x 0,
  pow-suc 2 k,
  xor_none k (x / 2) (omega (arith, pow-suc 2 k)),
  differ_zero (x % 2),
)
  where
    differ_zero : (d : ℕ) → differ d 0 ≡ d
    differ_zero zero = refl
    differ_zero (suc d) = refl

differ_one : (d : ℕ) → d < 2 → differ d 1 ≡ 1 - d
differ_one zero h = refl
differ_one (suc zero) h = refl
differ_one (suc (suc d)) h = absurd (omega arith)

pub xor_ones : (k x : ℕ) → x < 2 ^ k → bit_xor x (2 ^ k - 1) ≡ 2 ^ k - 1 - x
xor_ones zero zero h = refl
xor_ones zero (suc x) h = absurd (omega arith)
xor_ones (suc k) x h = ground (
  arith,
  xor_digit x (2 ^ suc k - 1),
  pow-suc 2 k,
  one-le-pow k 2,
  xor_ones k (x / 2) (omega (arith, pow-suc 2 k)),
  differ_one (x % 2) (omega arith),
)

differ_twice : (a b : ℕ) → a < 2 → b < 2 → differ (differ a b) b ≡ a
differ_twice zero zero h k = refl
differ_twice zero (suc zero) h k = refl
differ_twice (suc zero) zero h k = refl
differ_twice (suc zero) (suc zero) h k = refl
differ_twice (suc (suc a)) b h k = absurd (omega arith)
differ_twice zero (suc (suc b)) h k = absurd (omega arith)
differ_twice (suc zero) (suc (suc b)) h k = absurd (omega arith)

differ_lt : (a b : ℕ) → a < 2 → b < 2 → differ a b < 2
differ_lt zero zero h k = omega arith
differ_lt zero (suc zero) h k = omega arith
differ_lt (suc zero) zero h k = omega arith
differ_lt (suc zero) (suc zero) h k = omega arith
differ_lt (suc (suc a)) b h k = absurd (omega arith)
differ_lt zero (suc (suc b)) h k = absurd (omega arith)
differ_lt (suc zero) (suc (suc b)) h k = absurd (omega arith)

-- A second `^` with the same number takes the first back.
pub xor_twice : (k x m : ℕ) → x < 2 ^ k → m < 2 ^ k → bit_xor (bit_xor x m) m ≡ x
xor_twice zero zero zero h1 h2 = refl
xor_twice zero (suc x) m h1 h2 = absurd (omega arith)
xor_twice zero zero (suc m) h1 h2 = absurd (omega arith)
xor_twice (suc k) x m h1 h2 =
    let d = differ (x % 2) (m % 2) in
    let first = xor_digit x m in
    let small : d < 2 = differ_lt (x % 2) (m % 2) (omega arith) (omega arith) in
    let hi : bit_xor x m / 2 ≡ bit_xor (x / 2) (m / 2) = omega (arith, first, small) in
    let lo : bit_xor x m % 2 ≡ d = omega (arith, first, small) in
    let rest =
      xor_twice k (x / 2) (m / 2) (omega (arith, pow-suc 2 k)) (omega (arith, pow-suc 2 k)) in
    xor_digit (bit_xor x m) m
    ∙ rw (hi, lo, rest, differ_twice (x % 2) (m % 2) (omega arith) (omega arith)) (omega arith)
