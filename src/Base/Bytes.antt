-- ===== src/Base/Bytes.antt =====
-- A w-byte word and its bytes in memory, on the little-endian machines that the program is built for.
use Prim.Native.Nat.{ℕ, zero, suc, ◌+◌, ◌*◌, ◌/◌, ◌%◌, ◌^◌, ◌<◌}
use mathlib.Core.Path.{◌≡◌, refl, ap, ◌∙◌}
use mathlib.Core.List.{List, [], ◌∷◌, ◌++◌, reverse, reverse-cons, reverse-reverse}
use native.Mathlib.Nat.{pow-suc}
use native.Mathlib.Omega.{arith}
use routn.Base.Lists.{length, length-append, All}

-- The memory of a word, lowest byte first, and the word that memory holds.
unfoldable pub le_bytes : ℕ → ℕ → List ℕ
le_bytes zero v = []
le_bytes (suc n) v = (v % 256) ∷ le_bytes n (v / 256)

unfoldable pub from_le : List ℕ → ℕ
from_le [] = 0
from_le (x ∷ xs) = x + 256 * from_le xs

abbrev pub IsByte : ℕ → Type 0
IsByte x = x < 256

-- bswap_16, bswap_32 and bswap_64 of the C library.
unfoldable pub byteswap : ℕ → ℕ → ℕ
byteswap n v = from_le (reverse (le_bytes n v))

pub length-le_bytes : (n v : ℕ) → length (le_bytes n v) ≡ n
unfolding le_bytes
length-le_bytes zero v = refl
length-le_bytes (suc n) v = ap suc (length-le_bytes n (v / 256))

pub from_le-le_bytes : (n v : ℕ) → v < 256 ^ n → from_le (le_bytes n v) ≡ v
unfolding le_bytes from_le
from_le-le_bytes zero v h = omega arith
from_le-le_bytes (suc n) v h =
    omega (arith, from_le-le_bytes n (v / 256) (omega (arith, pow-suc 256 n)))

pub All-le_bytes : (n v : ℕ) → All IsByte (le_bytes n v)
unfolding le_bytes
All-le_bytes zero v = tt
All-le_bytes (suc n) v = (omega arith, All-le_bytes n (v / 256))

pub le_bytes-from_le : (xs : List ℕ) → All IsByte xs → le_bytes (length xs) (from_le xs) ≡ xs
unfolding le_bytes from_le
le_bytes-from_le [] h = refl
le_bytes-from_le (x ∷ xs) h =
    let lo : (x + 256 * from_le xs) % 256 ≡ x = omega (arith, h.0) in
    let hi : (x + 256 * from_le xs) / 256 ≡ from_le xs = omega (arith, h.0) in
    rw (lo, hi) (ap (◌∷◌ x) (le_bytes-from_le xs h.1))

pub from_le-lt : (xs : List ℕ) → All IsByte xs → from_le xs < 256 ^ length xs
unfolding from_le
from_le-lt [] h = omega arith
from_le-lt (x ∷ xs) h = omega (arith, h.0, from_le-lt xs h.1, pow-suc 256 (length xs))

All-append : (xs ys : List ℕ) → All IsByte xs → All IsByte ys → All IsByte (xs ++ ys)
All-append [] ys h k = k
All-append (x ∷ xs) ys h k = (h.0, All-append xs ys h.1 k)

All-reverse : (xs : List ℕ) → All IsByte xs → All IsByte (reverse xs)
All-reverse [] h = tt
All-reverse (x ∷ xs) h =
    rw (reverse-cons x xs) (All-append (reverse xs) (x ∷ []) (All-reverse xs h.1) (h.0, tt))

length-reverse : (xs : List ℕ) → length (reverse xs) ≡ length xs
length-reverse [] = refl
length-reverse (x ∷ xs) =
    rw (reverse-cons x xs) (length-append (reverse xs) (x ∷ []) ∙ omega (arith, length-reverse xs))

-- A swapped word fits its width, and swapping twice gives the word back.
pub byteswap-lt : (n v : ℕ) → byteswap n v < 256 ^ n
unfolding byteswap
byteswap-lt n v =
    let e : length (reverse (le_bytes n v)) ≡ n =
      length-reverse (le_bytes n v) ∙ length-le_bytes n v in
    rw e at (from_le-lt (reverse (le_bytes n v)) (All-reverse (le_bytes n v) (All-le_bytes n v)))

pub byteswap-byteswap : (n v : ℕ) → v < 256 ^ n → byteswap n (byteswap n v) ≡ v
unfolding byteswap
byteswap-byteswap n v h =
    let e : length (reverse (le_bytes n v)) ≡ n =
      length-reverse (le_bytes n v) ∙ length-le_bytes n v in
    let same =
      le_bytes-from_le (reverse (le_bytes n v)) (All-reverse (le_bytes n v) (All-le_bytes n v)) in
    let back : le_bytes n (from_le (reverse (le_bytes n v))) ≡ reverse (le_bytes n v) =
      rw e at same in
    rw (back, reverse-reverse (le_bytes n v)) (from_le-le_bytes n v h)
