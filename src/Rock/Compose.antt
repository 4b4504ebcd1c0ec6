-- ===== src/Rock/Compose.antt =====
-- Writers and readers of src/ByteArray.cpp in sequence: what one after the other stores and decodes.
use mathlib.Core.List.{append_assoc}
use routn.Base.{
  ℕ, ◌%◌, ◌^◌, ◌<◌, ◌≡◌, refl, ap, ◌∙◌, sym, List, [], ◌∷◌, ◌++◌, length, arith, length-append,
}
use routn.Base.Bytes.{le_bytes, from_le}
use routn.ByteArray.{ByteArray, Endian, Outcome, ok, ◌>>=◌}
use routn.ByteArray.Invariant.{IsValid}
use routn.ByteArray.Refinement.{Stored}
use routn.ByteArray.Cursor.{write-Stored}
use routn.ByteArray.Ahead.{Passed-trans, read-ahead, Stored-trans}
use routn.ByteArray.Codec.{
  write_fuint8, read_fuint8, write_uint32, write_uint64, read_uint64, groups, write_fixed,
  read_fixed,
}
use routn.ByteArray.Text.{write_string_f32, read_string_f32, write_string_vint, read_string_vint}
use routn.ByteArray.RoundTrip.{Decodes, uint64-Decodes, ordered, fixed-Stored, read_fixed-Decodes}
use routn.ByteArray.TextRoundTrip.{text-Stored, text-Decodes}

-- `put` stores `buf` on every valid byte array with this byte order.
abbrev pub Stores : (ByteArray → Outcome ByteArray) → List ℕ → Endian → Type 0
Stores put buf order =
    (b : ByteArray)
    → IsValid b
    → b.endian ≡ order
    → (c : ByteArray) × (put b ≡ ok c) × Stored buf b c

pub Stores-then :
    (put more : ByteArray → Outcome ByteArray) (xs ys : List ℕ) (o : Endian)
    → Stores put xs o
    → Stores more ys o
    → Stores (λ b. put b >>= more) (xs ++ ys) o
Stores-then put more xs ys o p q b v e =
    let (c, r, s) = p b v e in
    let (d, t, u) = q c s.valid (s.same_endian ∙ e) in (d, rw r t, Stored-trans xs ys b c d v s u)

module _ {A B : Type 0} (get : ByteArray → Outcome (A × ByteArray))
    (more : A → ByteArray → Outcome (B × ByteArray)) where
  pub Decodes-then :
      (a : A) (v : B) (xs ys : List ℕ) (o : Endian)
      → Decodes get a xs o
      → Decodes (more a) v ys o
      → Decodes (λ b. get b >>= (λ r. more r.0 r.1)) v (xs ++ ys) o
  Decodes-then a v xs ys o p q d rest valid e lies =
      let (c, r, s) = p d (ys ++ rest) valid e (lies ∙ append_assoc xs ys rest) in
      let (f, t, u) = q c rest s.valid (s.same_endian ∙ e) s.left in
      (
        f,
        rw r t,
        rw (length-append xs ys) (Passed-trans (length xs) (length ys) (ys ++ rest) rest d c f s u),
      )

  -- The last step of a parser only builds the result.
  pub Decodes-done :
      (a : A) (v : B) (xs : List ℕ) (o : Endian)
      → Decodes get a xs o
      → ((b : ByteArray) → more a b ≡ ok (v, b))
      → Decodes (λ b. get b >>= (λ r. more r.0 r.1)) v xs o
  Decodes-done a v xs o p q d rest valid e lies =
      let (c, r, s) = p d rest valid e lies in (c, rw r (q c), s)

pub fuint8-Stores : (v : ℕ) (o : Endian) → Stores (write_fuint8 v) (le_bytes 1 v) o
fuint8-Stores v o b valid e = write-Stored (le_bytes 1 v) b valid

pub fuint8-Decodes : (v : ℕ) (o : Endian) → v < 256 → Decodes read_fuint8 v (le_bytes 1 v) o
unfolding read_fuint8 le_bytes from_le
fuint8-Decodes v o h d rest valid order e =
    let (c, r, p) = read-ahead (v % 256 ∷ []) rest d valid (omega arith) e in
    (c, rw r (ap (λ (t : ℕ). ok (t, c)) (omega arith)), p)

pub uint32-Stores : (v : ℕ) (o : Endian) → Stores (write_uint32 v) (groups 4 v) o
unfolding write_uint32
uint32-Stores v o b valid e = write-Stored (groups 4 v) b valid

-- The bytes of a text with its length in front.
abbrev pub f32_bytes : List ℕ → Endian → List ℕ
f32_bytes text o = le_bytes 4 (ordered 4 (length text) o) ++ text

abbrev pub vint_bytes : List ℕ → List ℕ
vint_bytes text = groups 9 (length text) ++ text

module _ (text : List ℕ) (o : Endian) (filled : 0 < length text) (fits : length text < 2 ^ 32) where
  pub f32-Stores : Stores (write_string_f32 text) (f32_bytes text o) o
  unfolding write_string_f32
  f32-Stores b valid e =
      let m : length text % 2 ^ 32 ≡ length text = omega arith in
      rw (m, sym e)
        (text-Stored (write_fixed 4 (length text)) (read_fixed 4) _ text b valid filled
          (fixed-Stored 4 (length text) b valid))

  pub f32-Decodes : Decodes read_string_f32 text (f32_bytes text o) o
  unfolding read_string_f32
  f32-Decodes d rest valid e = rw (sym e) (
      text-Decodes (write_fixed 4 (length text)) (read_fixed 4) _ text d valid filled
        (read_fixed-Decodes 4 (length text) d.endian (omega arith) (omega arith)) d rest valid refl)

  pub vint-Stores : Stores (write_string_vint text) (vint_bytes text) o
  unfolding write_string_vint write_uint64
  vint-Stores b valid e =
      text-Stored (write_uint64 (length text)) read_uint64 _ text b valid filled
        (write-Stored (groups 9 (length text)) b valid)

  pub vint-Decodes : Decodes read_string_vint text (vint_bytes text) o
  unfolding read_string_vint
  vint-Decodes d rest valid e =
      text-Decodes (write_uint64 (length text)) read_uint64 _ text d valid filled
        (uint64-Decodes (length text) d.endian (omega arith)) d rest valid refl
