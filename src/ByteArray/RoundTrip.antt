-- ===== src/ByteArray/RoundTrip.antt =====
-- What a typed write stores, the matching typed read gives back.
use routn.Base.{ℕ, ◌-◌, ◌^◌, ◌≤◌, ◌<◌, ◌≡◌, refl, ap, ◌∙◌, ◌⊎◌, ◌↔◌, List, ◌++◌, length, arith}
use routn.Base.Bytes.{
  le_bytes, from_le, byteswap, length-le_bytes, from_le-le_bytes, byteswap-lt, byteswap-byteswap,
}
use routn.ByteArray.{ByteArray, Endian, little, big, Outcome, ok, read, set_position}
use routn.ByteArray.Invariant.{IsValid}
use routn.ByteArray.Refinement.{Stored}
use routn.ByteArray.Cursor.{write-Stored}
use routn.ByteArray.Ahead.{ahead, Passed, read-ahead, rewind, position-Stored}
use routn.ByteArray.Codec.{
  in_order, write_fixed, read_fixed, groups, write_uint32, write_uint64, write_int32, write_int64,
  read_uint32, read_uint64, read_int32, read_int64, encode_zigzag32, encode_zigzag64,
  decode_zigzag64,
}
use routn.ByteArray.Zigzag.{
  decode_zigzag32-encode, encode32-lt, encode64-lt, decode_zigzag64-encode_iff,
}
use routn.ByteArray.Varint.{read_groups-groups}

-- `put` succeeds on `b`, stepping back to where it began succeeds, and `get` then returns `v` and
-- ends where `put` had ended.
abbrev pub Restores {ℓ} :
    {A : Type ℓ}
    → (ByteArray → Outcome ByteArray)
    → (ByteArray → Outcome (A × ByteArray))
    → A
    → ByteArray
    → Type ℓ
Restores put get v b =
    (c : ByteArray) × (d : ByteArray) × (e : ByteArray) × (put b ≡ ok c)
    × (set_position b.position c ≡ ok d)
    × (get d ≡ ok (v, e))
    × (e.position ≡ c.position)
    × IsValid e

-- `get` decodes `buf` where it lies ahead of the position.
abbrev pub Decodes {ℓ} :
    {A : Type ℓ} → (ByteArray → Outcome (A × ByteArray)) → A → List ℕ → Endian → Type ℓ
Decodes get v buf order =
    (d : ByteArray) (rest : List ℕ)
    → IsValid d
    → d.endian ≡ order
    → ahead d ≡ buf ++ rest
    → (e : ByteArray) × (get d ≡ ok (v, e)) × Passed (length buf) rest d e

pub restores {ℓ} :
    {A : Type ℓ} (put : ByteArray → Outcome ByteArray) (get : ByteArray → Outcome (A × ByteArray))
    (v : A) (buf : List ℕ) (b : ByteArray)
    → IsValid b
    → (c : ByteArray) × (put b ≡ ok c) × Stored buf b c
    → Decodes get v buf b.endian
    → Restores put get v b
restores put get v buf b valid (c, w, st) decodes =
    let (d, s, r) = rewind buf b c valid st in
    let (e, g, p) = decodes d r.rest r.valid r.same_endian r.lies in
    (
      c,
      d,
      e,
      w,
      s,
      g,
      omega (arith, p.position_eq, r.position_eq, position-Stored buf b c valid st),
      p.valid,
    )

pub ordered : ℕ → ℕ → Endian → ℕ
ordered n v little = v
ordered n v big = byteswap n v

ordered_lem : (n v : ℕ) (b : ByteArray) (o : Endian) → b.endian ≡ o → in_order n v b ≡ ordered n v o
unfolding ordered
ordered_lem n v b little e = rw e
ordered_lem n v b big e = rw e

ordered-ordered : (n v : ℕ) (o : Endian) → v < 256 ^ n → ordered n (ordered n v o) o ≡ v
unfolding ordered
ordered-ordered n v little h = refl
ordered-ordered n v big h = byteswap-byteswap n v h

ordered-lt : (n v : ℕ) (o : Endian) → v < 256 ^ n → ordered n v o < 256 ^ n
unfolding ordered
ordered-lt n v little h = h
ordered-lt n v big h = byteswap-lt n v

pub read_fixed-Decodes :
    (n v : ℕ) (o : Endian)
    → 0 < n
    → v < 256 ^ n
    → Decodes (read_fixed n) v (le_bytes n (ordered n v o)) o
unfolding read_fixed
read_fixed-Decodes n v o some h d rest valid order e =
    let len = length-le_bytes n (ordered n v o) in
    let (c, r, p) = read-ahead (le_bytes n (ordered n v o)) rest d valid (omega (arith, len)) e in
    let r' : read n d ≡ ok (le_bytes n (ordered n v o), c) = rw len at r in
    let value : in_order n (from_le (le_bytes n (ordered n v o))) c ≡ v =
      rw (from_le-le_bytes n (ordered n v o) (ordered-lt n v o h))
        (ordered_lem n (ordered n v o) c o (p.same_endian ∙ order) ∙ ordered-ordered n v o h) in
    (c, rw (r', value), p)

pub fixed-Stored :
    (n v : ℕ) (b : ByteArray)
    → IsValid b
    → (c : ByteArray) × (write_fixed n v b ≡ ok c) × Stored (le_bytes n (ordered n v b.endian)) b c
unfolding write_fixed
fixed-Stored n v b valid =
    rw (ordered_lem n v b b.endian refl) (write-Stored (le_bytes n (ordered n v b.endian)) b valid)

-- On a valid byte array every word of `n` bytes (0 < n) that `write_fixed` stores, `read_fixed`
-- restores, whatever the byte order that is set.
pub fixed-Restores :
    (n v : ℕ) (b : ByteArray)
    → IsValid b
    → 0 < n
    → v < 256 ^ n
    → Restores (write_fixed n v) (read_fixed n) v b
fixed-Restores n v b valid some h =
    restores (write_fixed n v) (read_fixed n) v _ b valid (fixed-Stored n v b valid)
      (read_fixed-Decodes n v b.endian some h)

pub uint32-Decodes : (v : ℕ) (o : Endian) → v < 2 ^ 32 → Decodes read_uint32 v (groups 4 v) o
unfolding read_uint32
uint32-Decodes v o h d rest valid order e =
    let (c, r, p) =
      read_groups-groups 4 32 4 0 0 v rest d valid (omega arith) (omega arith) (omega arith)
        (omega arith) e in
    (c, r ∙ ap (λ (t : ℕ). ok (t, c)) (omega arith), p)

pub uint64-Decodes : (v : ℕ) (o : Endian) → v < 2 ^ 64 → Decodes read_uint64 v (groups 9 v) o
unfolding read_uint64
uint64-Decodes v o h d rest valid order e =
    let (c, r, p) =
      read_groups-groups 9 64 9 0 0 v rest d valid (omega arith) (omega arith) (omega arith)
        (omega arith) e in
    (c, r ∙ ap (λ (t : ℕ). ok (t, c)) (omega arith), p)

-- On a valid byte array `readUint32` restores every 32-bit number that `writeUint32` stores.
pub uint32-Restores :
    (v : ℕ) (b : ByteArray) → IsValid b → v < 2 ^ 32 → Restores (write_uint32 v) read_uint32 v b
unfolding write_uint32
uint32-Restores v b valid h =
    restores (write_uint32 v) read_uint32 v (groups 4 v) b valid (write-Stored (groups 4 v) b valid)
      (uint32-Decodes v b.endian h)

-- On a valid byte array `readUint64` restores every 64-bit number that `writeUint64` stores.
pub uint64-Restores :
    (v : ℕ) (b : ByteArray) → IsValid b → v < 2 ^ 64 → Restores (write_uint64 v) read_uint64 v b
unfolding write_uint64
uint64-Restores v b valid h =
    restores (write_uint64 v) read_uint64 v (groups 9 v) b valid (write-Stored (groups 9 v) b valid)
      (uint64-Decodes v b.endian h)

-- On a valid byte array `readInt32` restores every int32_t, as its bit pattern, that `writeInt32` stores.
pub int32-Restores :
    (v : ℕ) (b : ByteArray) → IsValid b → v < 2 ^ 32 → Restores (write_int32 v) read_int32 v b
unfolding write_int32 read_int32
int32-Restores v b valid h =
    let (c, d, e, w, s, r, p, ok') =
      uint32-Restores (encode_zigzag32 v) b valid (encode32-lt v h) in
    (c, d, e, w, s, rw r (ap (λ (t : ℕ). ok (t, e)) (decode_zigzag32-encode v h)), p, ok')

-- On a valid byte array `readInt64` succeeds on what `writeInt64` stores of an int64_t, and returns
-- the value itself exactly if it is a number of 32 bits.
pub int64-Restores :
    (v : ℕ) (b : ByteArray)
    → IsValid b
    → v < 2 ^ 64
    → (r : ℕ) × Restores (write_int64 v) read_int64 r b
      × ((r ≡ v) ↔ ((v < 2 ^ 31) ⊎ (2 ^ 64 - 2 ^ 31 ≤ v)))
unfolding write_int64 read_int64
int64-Restores v b valid h =
    let (c, d, e, w, s, r, p, ok') =
      uint64-Restores (encode_zigzag64 v) b valid (omega (arith, encode64-lt v)) in
    (
      decode_zigzag64 (encode_zigzag64 v),
      (c, d, e, w, s, rw r, p, ok'),
      decode_zigzag64-encode_iff v h,
    )
