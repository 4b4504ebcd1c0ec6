-- ===== src/ByteArray/Varint.antt =====
-- The loops of `writeUint32/64` and `readUint32/64` undo one another.
use Prim.Native.Nat.{bit_and}
use native.Mathlib.Nat.{pow-suc, mod-eq_of_lt, div-add-mod'}
use native.Mathlib.Numerals.{towards_suc}
use routn.Base.{
  ℕ, zero, suc, ◌+◌, ◌*◌, ◌/◌, ◌%◌, ◌^◌, ◌≤◌, ◌<◌, ◌≡◌, ap, ◌∙◌, List, [], ◌∷◌, ◌++◌, length, arith,
  inl, inr, Bool-cases, ltb→lt, ltb, false,
}
use routn.Base.Bits.{and_7f, or_80, or_shifted}
use routn.Base.Bytes.{from_le}
use routn.ByteArray.{ByteArray, ok}
use routn.ByteArray.Invariant.{IsValid}
use routn.ByteArray.Ahead.{ahead, Passed, Passed-trans, read-ahead}
use routn.ByteArray.Codec.{groups, read_groups, read_fuint8}

pub read_fuint8-ahead :
    (x : ℕ) (rest : List ℕ) (b : ByteArray)
    → IsValid b
    → ahead b ≡ x ∷ rest
    → (c : ByteArray) × (read_fuint8 b ≡ ok (x, c)) × Passed 1 rest b c
unfolding read_fuint8 from_le
read_fuint8-ahead x rest b v e =
    let (c, r, p) = read-ahead (x ∷ []) rest b v (omega arith) e in (c, rw r (ground arith), p)

shift_seven : (i : ℕ) → 2 ^ (i + 7) ≡ 128 * 2 ^ i
shift_seven i = simp towards_suc (omega arith)

-- One round, on the last byte and on a byte with the top bit set.
module _ (w rounds i res v : ℕ) (rest : List ℕ) (b : ByteArray) (valid : IsValid b)
    (small : res < 2 ^ i) where
  last_round :
      v < 128
      → res + v * 2 ^ i < 2 ^ w
      → ahead b ≡ v ∷ rest
      → (c : ByteArray) × (read_groups w (suc rounds) i res b ≡ ok (res + v * 2 ^ i, c))
        × Passed 1 rest b c
  unfolding read_groups
  last_round h fits e =
      let (c, r, p) = read_fuint8-ahead v rest b valid e in
      let m : v * 2 ^ i % 2 ^ w ≡ v * 2 ^ i = mod-eq_of_lt (omega arith) in
      (c, rw r (ground (arith, m, or_shifted i res v small)), p)

  more_round :
      v < 128
      → res + v * 2 ^ i < 2 ^ w
      → ahead b ≡ (v + 128) ∷ rest
      → (c : ByteArray) × (read_groups w (suc rounds) i res b
          ≡ read_groups w rounds (i + 7) (res + v * 2 ^ i) c)
        × Passed 1 rest b c
  unfolding read_groups
  more_round h fits e =
      let (c, r, p) = read_fuint8-ahead (v + 128) rest b valid e in
      let m : v * 2 ^ i % 2 ^ w ≡ v * 2 ^ i = mod-eq_of_lt (omega arith) in
      let low : bit_and (v + 128) 0x7f ≡ v = omega (arith, and_7f (v + 128)) in
      let high : ltb (v + 128) 0x80 ≡ false = ground arith in
      (c, rw r (rw (high, low, m, or_shifted i res v small)), p)

groups_last : (f v : ℕ) → v < 128 → groups f v ≡ v ∷ []
unfolding groups
groups_last zero v h = ground arith
groups_last (suc f) v h = ground arith

groups_more : (f v : ℕ) → 128 ≤ v → groups (suc f) v ≡ (v % 128 + 128) ∷ groups f (v / 128)
unfolding groups
groups_more f v h = ground (arith, and_7f v, or_80 (v % 128) (omega arith))

room_left : (i r g : ℕ) → r < 2 ^ i → g < 128 → r + g * 2 ^ i < 2 ^ (i + 7)
room_left i r g h k = grind (arith, shift_seven i)

-- The lowest group of `v` and the others, both shifted by `i`.
split_group : (v i : ℕ) → v * 2 ^ i ≡ v % 128 * 2 ^ i + v / 128 * 2 ^ (i + 7)
split_group v i = omega (
  arith,
  ap (λ (t : ℕ). t * 2 ^ i) (div-add-mod' v 128),
  ap (λ (t : ℕ). v / 128 * t) (shift_seven i),
)

-- Reading what the writer's loop left gives the number, as long as the rounds and the width suffice.
pub read_groups-groups :
    (f w rounds i res v : ℕ) (rest : List ℕ) (b : ByteArray)
    → IsValid b
    → f ≤ rounds
    → v < 128 ^ suc f
    → res < 2 ^ i
    → res + v * 2 ^ i < 2 ^ w
    → ahead b ≡ groups f v ++ rest
    → (c : ByteArray) × (read_groups w (suc rounds) i res b ≡ ok (res + v * 2 ^ i, c))
      × Passed (length (groups f v)) rest b c
read_groups-groups zero w rounds i res v rest b valid enough h small fits e =
    let g : groups zero v ≡ v ∷ [] = groups_last zero v (omega arith) in
    rw g (
      last_round w rounds i res v rest b valid small (omega arith) fits
        (e ∙ ap (λ (t : List ℕ). t ++ rest) g))
read_groups-groups (suc f) w zero i res v rest b valid enough h small fits e = absurd (omega arith)
read_groups-groups (suc f) w (suc rounds) i res v rest b valid enough h small fits e =
    elim (Bool-cases (ltb v 128)) [
      | inl one ↦
          let g : groups (suc f) v ≡ v ∷ [] = groups_last (suc f) v (ltb→lt v 128 one) in
          rw g (
            last_round w (suc rounds) i res v rest b valid small (ltb→lt v 128 one) fits
              (e ∙ ap (λ (t : List ℕ). t ++ rest) g))
      | inr many ↦
          let g : groups (suc f) v ≡ (v % 128 + 128) ∷ groups f (v / 128) =
            groups_more f v (ground arith) in
          let d = split_group v i in
          let plus : suc (length (groups f (v / 128))) ≡ 1 + length (groups f (v / 128)) =
            omega arith in
          let (c, r, p) =
            more_round w (suc rounds) i res (v % 128) (groups f (v / 128) ++ rest) b valid small
              (omega arith) (omega (arith, d)) (e ∙ ap (λ (t : List ℕ). t ++ rest) g) in
          let (c', r', p') =
            read_groups-groups f w rounds (i + 7) (res + v % 128 * 2 ^ i) (v / 128) rest c p.valid
              (omega arith) (omega (arith, h, pow-suc 128 (suc f)))
              (room_left i res (v % 128) small (omega arith)) (omega (arith, d)) p.left in
          (
            c',
            r ∙ r' ∙ ap (λ (t : ℕ). ok (t, c')) (omega (arith, d)),
            rw g (rw plus (Passed-trans 1 (length (groups f (v / 128))) _ rest b c c' p p')),
          )
    ]
