-- ===== src/ByteArray/Text.antt =====
-- The string writes and reads of src/ByteArray.cpp: a length in one of four forms, and the bytes.
use routn.Base.{ℕ, ◌%◌, ◌^◌, List, length}
use routn.ByteArray.{ByteArray, Outcome, ◌>>=◌, write, read}
use routn.ByteArray.Codec.{
  write_fuint16, write_fuint32, write_fuint64, write_uint64, read_fuint16, read_fuint32,
  read_fuint64, read_uint64,
}

unfoldable pub write_string_f16 : List ℕ → ByteArray → Outcome ByteArray
write_string_f16 value b = do c ← write_fuint16 (length value % 2 ^ 16) b; write value c

unfoldable pub write_string_f32 : List ℕ → ByteArray → Outcome ByteArray
write_string_f32 value b = do c ← write_fuint32 (length value % 2 ^ 32) b; write value c

unfoldable pub write_string_f64 : List ℕ → ByteArray → Outcome ByteArray
write_string_f64 value b = do c ← write_fuint64 (length value) b; write value c

unfoldable pub write_string_vint : List ℕ → ByteArray → Outcome ByteArray
write_string_vint value b = do c ← write_uint64 (length value) b; write value c

unfoldable pub write_string_without_length : List ℕ → ByteArray → Outcome ByteArray
write_string_without_length value b = write value b

unfoldable pub read_string_f16 : ByteArray → Outcome (List ℕ × ByteArray)
read_string_f16 b = do (len, c) ← read_fuint16 b; read len c

unfoldable pub read_string_f32 : ByteArray → Outcome (List ℕ × ByteArray)
read_string_f32 b = do (len, c) ← read_fuint32 b; read len c

unfoldable pub read_string_f64 : ByteArray → Outcome (List ℕ × ByteArray)
read_string_f64 b = do (len, c) ← read_fuint64 b; read len c

unfoldable pub read_string_vint : ByteArray → Outcome (List ℕ × ByteArray)
read_string_vint b = do (len, c) ← read_uint64 b; read len c
