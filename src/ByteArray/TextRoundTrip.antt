-- ===== src/ByteArray/TextRoundTrip.antt =====
-- The strings that `writeString…` stores, `readString…` gives back.
use routn.Base.{ℕ, ◌%◌, ◌^◌, ◌<◌, ◌≡◌, ◌∙◌, List, ◌++◌, length, arith, length-append}
use mathlib.Core.List.{append_assoc}
use routn.ByteArray.{ByteArray, Outcome, ok, fault, ◌>>=◌, write, read}
use routn.ByteArray.Invariant.{IsValid}
use routn.ByteArray.Refinement.{Stored}
use routn.ByteArray.Cursor.{write-Stored}
use routn.ByteArray.Bounds.{read_nothing}
use routn.ByteArray.Ahead.{Passed-trans, read-ahead, Stored-trans}
use routn.ByteArray.Codec.{write_fixed, read_fixed, groups, write_uint64, read_uint64}
use routn.ByteArray.Text.{
  write_string_f16, write_string_f32, write_string_f64, write_string_vint, read_string_f16,
  read_string_f32, read_string_f64, read_string_vint,
}
use routn.ByteArray.RoundTrip.{
  Restores, Decodes, restores, fixed-Stored, read_fixed-Decodes, uint64-Decodes,
}

-- A length in some form, and then the text.
module _ (put_len : ByteArray → Outcome ByteArray) (get_len : ByteArray → Outcome (ℕ × ByteArray))
    (head text : List ℕ) (b : ByteArray) (valid : IsValid b) (some : 0 < length text) where
  abbrev pub put_text : ByteArray → Outcome ByteArray
  put_text a = do c ← put_len a; write text c

  abbrev pub get_text : ByteArray → Outcome (List ℕ × ByteArray)
  get_text a = do (len, c) ← get_len a; read len c

  pub text-Stored :
      (c : ByteArray) × (put_len b ≡ ok c) × Stored head b c
      → (c : ByteArray) × (put_text b ≡ ok c) × Stored (head ++ text) b c
  text-Stored (c, e, st) =
      let (d, w, st') = write-Stored text c st.valid in
      (d, rw e w, Stored-trans head text b c d valid st st')

  pub text-Decodes :
      Decodes get_len (length text) head b.endian → Decodes get_text text (head ++ text) b.endian
  text-Decodes decodes d rest v order e =
      let (c, g, p) = decodes d (text ++ rest) v order (e ∙ append_assoc head text rest) in
      let (f, r, q) = read-ahead text rest c p.valid some p.left in
      (
        f,
        rw g r,
        rw (length-append head text) (Passed-trans (length head) (length text) _ rest d c f p q),
      )

  text-Restores :
      (c : ByteArray) × (put_len b ≡ ok c) × Stored head b c
      → Decodes get_len (length text) head b.endian
      → Restores put_text get_text text b
  text-Restores st decodes =
      restores put_text get_text text (head ++ text) b valid (text-Stored st) (text-Decodes decodes)

-- On a valid byte array `readStringF16` restores a text that `writeStringF16` stores, provided that it
-- is not empty and its length is below 2^16.
pub string_f16-Restores :
    (text : List ℕ) (b : ByteArray)
    → IsValid b
    → 0 < length text
    → length text < 2 ^ 16
    → Restores (write_string_f16 text) read_string_f16 text b
unfolding write_string_f16 read_string_f16
string_f16-Restores text b valid some fits =
    let e : length text % 2 ^ 16 ≡ length text = omega arith in
    rw e (
      text-Restores (write_fixed 2 (length text)) (read_fixed 2) _ text b valid some
        (fixed-Stored 2 (length text) b valid)
        (read_fixed-Decodes 2 (length text) b.endian (omega arith) (omega arith)))

-- On a valid byte array `readStringF32` restores a text that `writeStringF32` stores, provided that it
-- is not empty and its length is below 2^32.
pub string_f32-Restores :
    (text : List ℕ) (b : ByteArray)
    → IsValid b
    → 0 < length text
    → length text < 2 ^ 32
    → Restores (write_string_f32 text) read_string_f32 text b
unfolding write_string_f32 read_string_f32
string_f32-Restores text b valid some fits =
    let e : length text % 2 ^ 32 ≡ length text = omega arith in
    rw e (
      text-Restores (write_fixed 4 (length text)) (read_fixed 4) _ text b valid some
        (fixed-Stored 4 (length text) b valid)
        (read_fixed-Decodes 4 (length text) b.endian (omega arith) (omega arith)))

-- On a valid byte array `readStringF64` restores a text that `writeStringF64` stores, provided that it
-- is not empty and its length is below 2^64.
pub string_f64-Restores :
    (text : List ℕ) (b : ByteArray)
    → IsValid b
    → 0 < length text
    → length text < 2 ^ 64
    → Restores (write_string_f64 text) read_string_f64 text b
unfolding write_string_f64 read_string_f64
string_f64-Restores text b valid some fits =
    text-Restores (write_fixed 8 (length text)) (read_fixed 8) _ text b valid some
      (fixed-Stored 8 (length text) b valid)
      (read_fixed-Decodes 8 (length text) b.endian (omega arith) (omega arith))

-- On a valid byte array `readStringVint` restores a text that `writeStringVint` stores, provided that it
-- is not empty and its length is below 2^64.
pub string_vint-Restores :
    (text : List ℕ) (b : ByteArray)
    → IsValid b
    → 0 < length text
    → length text < 2 ^ 64
    → Restores (write_string_vint text) read_string_vint text b
unfolding write_string_vint read_string_vint write_uint64
string_vint-Restores text b valid some fits =
    text-Restores (write_uint64 (length text)) read_uint64 _ text b valid some
      (write-Stored (groups 9 (length text)) b valid) (uint64-Decodes (length text) b.endian fits)

-- Where the length that `readStringF32` reads is 0 and ends at the capacity of a valid byte array, the
-- read of the empty text goes through a null pointer.
pub empty_string_faults :
    (b c : ByteArray)
    → read_fixed 4 b ≡ ok (0, c)
    → IsValid c
    → c.position ≡ c.capacity
    → read_string_f32 b ≡ fault
unfolding read_string_f32
empty_string_faults b c e v h = rw e (read_nothing c v ∙ ground arith)
