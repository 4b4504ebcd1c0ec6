-- ===== src/ByteArray/ReadChain.antt =====
-- The walks of `read` and `setPosition` over a chain of equal blocks.
use routn.Base.{
  ℕ, suc, ◌+◌, ◌-◌, ◌*◌, ◌≤◌, ◌<◌, ◌≡◌, inl, inr, true, false, List, [], ◌∷◌, ◌++◌, length, drop,
  ltb, leb, ◌==◌, if◌then◌else◌, arith, Bool-cases, length-drop, take-append_left,
  take-append_right, drop-append_left, take_all,
}
use routn.ByteArray.{ok, Node, read_chain, slice, seek}
use routn.ByteArray.Chain.{flat, Blocks}

pub slice-append_left :
    (xs zs : List ℕ) (i n : ℕ) → i + n ≤ length xs → slice (xs ++ zs) i n ≡ slice xs i n
slice-append_left xs zs i n h =
    rw (drop-append_left i xs zs (omega arith))
      (take-append_left n (drop i xs) zs (omega (arith, length-drop i xs)))

pub slice-append_split :
    (xs zs : List ℕ) (i n : ℕ)
    → i ≤ length xs
    → length xs ≤ i + n
    → slice (xs ++ zs) i n ≡ slice xs i (length xs - i) ++ slice zs 0 (n - (length xs - i))
slice-append_split xs zs i n h k = rw (
  drop-append_left i xs zs h,
  take-append_right n (drop i xs) zs (omega (arith, length-drop i xs)),
  take_all (length xs - i) (drop i xs) (omega (arith, length-drop i xs)),
  length-drop i xs,
)

-- What a read through the chain gives: the slice of the flat bytes, the cursor on the next byte.
unfoldable pub Given : ℕ → List Node → ℕ → ℕ → Type 0
Given base ns npos n =
    (k : ℕ) × (read_chain ns npos n ≡ ok (slice (flat ns) npos n, k))
    × (k * base ≤ npos + n)
    × (npos + n < suc k * base)

module _ (base : ℕ) (x : Node) (rest : List Node) (npos n : ℕ) (h : Blocks base (x ∷ rest)) where
  Given-within : npos < base → 0 < n → leb n (x.size - npos) ≡ true → Given base (x ∷ rest) npos n
  unfolding Given read_chain flat
  Given-within p q whole = (
    if x.size == npos + n then 1 else 0,
    rw (slice-append_left x.ptr (flat rest) npos n (ground arith)) (ground arith),
    ground arith,
    ground arith,
  )

  Given-across :
      npos < base
      → 0 < n
      → leb n (x.size - npos) ≡ false
      → Given base rest 0 (n - (x.size - npos))
      → Given base (x ∷ rest) npos n
  unfolding Given read_chain flat
  Given-across p q part (k, e, lo, hi) = (
    suc k,
    rw (slice-append_split x.ptr (flat rest) npos n (omega arith) (ground arith), ← sz)
        (ground (arith, e)),
    ground arith,
    ground arith,
  )
    where
      sz : x.size - npos ≡ length x.ptr - npos
      sz = omega arith

-- A read that the chain has the bytes for succeeds.
pub read_chain_fits :
    (base : ℕ) (ns : List Node) (npos n : ℕ)
    → Blocks base ns
    → npos < base
    → 0 < n
    → npos + n ≤ length ns * base
    → Given base ns npos n
read_chain_fits base [] npos n h p q fits = absurd (omega arith)
read_chain_fits base (x ∷ rest) npos n h p q fits = elim (Bool-cases (leb n (x.size - npos))) [
  | inl whole ↦ Given-within base x rest npos n h p q whole
  | inr part ↦ Given-across base x rest npos n h p q part (
      read_chain_fits base rest 0 (n - (x.size - npos)) h.2 (omega arith) (ground arith)
        (ground arith))
]

-- The walk of `setPosition` ends on the block of byte `v`.
unfoldable pub Sought : ℕ → List Node → ℕ → Type 0
Sought base ns v = (k : ℕ) × (seek ns v ≡ ok k) × (k * base ≤ v) × (v < suc k * base)

pub seek_fits :
    (base : ℕ) (ns : List Node) (v : ℕ)
    → Blocks base ns
    → 0 < base
    → 0 < length ns
    → v ≤ length ns * base
    → Sought base ns v
unfolding Sought seek
seek_fits base [] v h p q fits = absurd (omega arith)
seek_fits base (x ∷ rest) v h p q fits = elim (Bool-cases (ltb x.size v)) [
  | inl past ↦
      let (k, e, lo, hi) = seek_fits base rest (v - x.size) h.2 p (grind arith) (grind arith) in
      (suc k, rw (past, e), ground arith, ground arith)
  | inr here ↦ (if v == x.size then 1 else 0, rw here (ground arith), ground arith, ground arith)
]
