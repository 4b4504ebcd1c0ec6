-- ===== src/ByteArray/Codec.antt =====
-- The typed writes and reads of src/ByteArray.cpp. An integer or a float is its bit pattern, so a
-- signed and an unsigned function of one width do the same; a w-bit value is a number below 2^w.
use Prim.Native.Nat.{bit_and, bit_or, bit_xor}
use routn.Base.{
  ℕ, zero, suc, ◌+◌, ◌-◌, ◌*◌, ◌/◌, ◌%◌, ◌^◌, Bool, List, [], ◌∷◌, ltb, leb, if◌then◌else◌,
}
use routn.Base.Bytes.{le_bytes, from_le, byteswap}
use routn.ByteArray.{ByteArray, Outcome, ok, ◌>>=◌, write, read, is_little_endian}

-- Fixed width: `_endian != ROUTN_BYTE_ORDER` swaps, and the machine is little-endian.
abbrev pub in_order : ℕ → ℕ → ByteArray → ℕ
in_order n v b = if is_little_endian b then v else byteswap n v

unfoldable pub write_fixed : ℕ → ℕ → ByteArray → Outcome ByteArray
write_fixed n v b = write (le_bytes n (in_order n v b)) b

unfoldable pub read_fixed : ℕ → ByteArray → Outcome (ℕ × ByteArray)
read_fixed n b = do (bytes, c) ← read n b; ok (in_order n (from_le bytes) c, c)

abbrev pub write_fuint8 : ℕ → ByteArray → Outcome ByteArray
write_fuint8 v b = write (le_bytes 1 v) b

abbrev pub write_fint8 : ℕ → ByteArray → Outcome ByteArray
write_fint8 v b = write (le_bytes 1 v) b

abbrev pub write_fint16 : ℕ → ByteArray → Outcome ByteArray
write_fint16 = write_fixed 2

abbrev pub write_fuint16 : ℕ → ByteArray → Outcome ByteArray
write_fuint16 = write_fixed 2

abbrev pub write_fint32 : ℕ → ByteArray → Outcome ByteArray
write_fint32 = write_fixed 4

abbrev pub write_fuint32 : ℕ → ByteArray → Outcome ByteArray
write_fuint32 = write_fixed 4

abbrev pub write_fint64 : ℕ → ByteArray → Outcome ByteArray
write_fint64 = write_fixed 8

abbrev pub write_fuint64 : ℕ → ByteArray → Outcome ByteArray
write_fuint64 = write_fixed 8

unfoldable pub read_fuint8 : ByteArray → Outcome (ℕ × ByteArray)
read_fuint8 b = do (bytes, c) ← read 1 b; ok (from_le bytes, c)

abbrev pub read_fint8 : ByteArray → Outcome (ℕ × ByteArray)
read_fint8 b = do (bytes, c) ← read 1 b; ok (from_le bytes, c)

abbrev pub read_fint16 : ByteArray → Outcome (ℕ × ByteArray)
read_fint16 = read_fixed 2

abbrev pub read_fuint16 : ByteArray → Outcome (ℕ × ByteArray)
read_fuint16 = read_fixed 2

abbrev pub read_fint32 : ByteArray → Outcome (ℕ × ByteArray)
read_fint32 = read_fixed 4

abbrev pub read_fuint32 : ByteArray → Outcome (ℕ × ByteArray)
read_fuint32 = read_fixed 4

abbrev pub read_fint64 : ByteArray → Outcome (ℕ × ByteArray)
read_fint64 = read_fixed 8

abbrev pub read_fuint64 : ByteArray → Outcome (ℕ × ByteArray)
read_fuint64 = read_fixed 8

abbrev pub write_float : ℕ → ByteArray → Outcome ByteArray
write_float v b = write_fuint32 v b

abbrev pub write_double : ℕ → ByteArray → Outcome ByteArray
write_double v b = write_fuint64 v b

abbrev pub read_float : ByteArray → Outcome (ℕ × ByteArray)
read_float b = read_fuint32 b

abbrev pub read_double : ByteArray → Outcome (ℕ × ByteArray)
read_double b = read_fuint64 b

-- -v on w bits; `-INT_MIN` wraps.
abbrev pub neg : ℕ → ℕ → ℕ
neg w v = (2 ^ w - v) % 2 ^ w

abbrev pub is_negative : ℕ → ℕ → Bool
is_negative w v = leb (2 ^ (w - 1)) v

unfoldable pub encode_zigzag32 : ℕ → ℕ
encode_zigzag32 v =
    if is_negative 32 v then (neg 32 v * 2 % 2 ^ 32 + (2 ^ 32 - 1)) % 2 ^ 32 else v * 2 % 2 ^ 32

-- The function's result type is uint32_t.
unfoldable pub encode_zigzag64 : ℕ → ℕ
encode_zigzag64 v =
    (if is_negative 64 v then (neg 64 v * 2 % 2 ^ 64 + (2 ^ 64 - 1)) % 2 ^ 64 else v * 2 % 2 ^ 64)
    % 2 ^ 32

unfoldable pub decode_zigzag32 : ℕ → ℕ
decode_zigzag32 v = bit_xor (v / 2) (neg 32 (bit_and v 1))

unfoldable pub decode_zigzag64 : ℕ → ℕ
decode_zigzag64 v = bit_xor (v / 2) (neg 64 (bit_and v 1))

-- The loop of `writeUint32` and `writeUint64`: `while (value >= 0x80)`, and the last byte.
unfoldable pub groups : ℕ → ℕ → List ℕ
groups zero v = (v % 256) ∷ []
groups (suc rounds) v =
    let more = groups rounds (v / 2 ^ 7) in
    if leb 0x80 v then bit_or (bit_and v 0x7f) 0x80 ∷ more else (v % 256) ∷ []

unfoldable pub write_uint32 : ℕ → ByteArray → Outcome ByteArray
write_uint32 v b = write (groups 4 v) b

unfoldable pub write_uint64 : ℕ → ByteArray → Outcome ByteArray
write_uint64 v b = write (groups 9 v) b

unfoldable pub write_int32 : ℕ → ByteArray → Outcome ByteArray
write_int32 v b = write_uint32 (encode_zigzag32 v) b

unfoldable pub write_int64 : ℕ → ByteArray → Outcome ByteArray
write_int64 v b = write_uint64 (encode_zigzag64 v) b

-- The loop of `readUint32` and `readUint64`, for as many rounds as `i` stays below the width `w`.
unfoldable pub read_groups : ℕ → ℕ → ℕ → ℕ → ByteArray → Outcome (ℕ × ByteArray)
read_groups w zero i res b = ok (res, b)
read_groups w (suc rounds) i res b = do
  (x, c) ← read_fuint8 b
  let more = read_groups w rounds (i + 7) (bit_or res (bit_and x 0x7f * 2 ^ i % 2 ^ w)) c
  if ltb x 0x80 then ok (bit_or res (x * 2 ^ i % 2 ^ w), c) else more

unfoldable pub read_uint32 : ByteArray → Outcome (ℕ × ByteArray)
read_uint32 b = read_groups 32 5 0 0 b

unfoldable pub read_uint64 : ByteArray → Outcome (ℕ × ByteArray)
read_uint64 b = read_groups 64 10 0 0 b

unfoldable pub read_int32 : ByteArray → Outcome (ℕ × ByteArray)
read_int32 b = do (v, c) ← read_uint32 b; ok (decode_zigzag32 v, c)

unfoldable pub read_int64 : ByteArray → Outcome (ℕ × ByteArray)
read_int64 b = do (v, c) ← read_uint64 b; ok (decode_zigzag64 v, c)
