-- ===== src/ByteArray/Tests.antt =====
-- The properties of the byte array at one buffer: three blocks of four bytes, eleven bytes long,
-- with the position in the first block.
use routn.Base.{ℕ, ◌-◌, ◌%◌, ◌^◌, ◌≤◌, ◌<◌, ◌≡◌, refl, ◌↔◌, ◌⊎◌, List, [], ◌∷◌, ◌++◌, arith}
use routn.ByteArray.{ByteArray, Node, big, ok, oor, fault, write, read, read_chain, slice}
use routn.Base.Bytes.{byteswap, from_le, le_bytes}
use routn.ByteArray.Invariant.{IsValid}
use routn.ByteArray.Refinement.{view, Stored}
use routn.ByteArray.Cursor.{write-Stored, Taken, read-Taken}
use routn.ByteArray.Bounds.{read_failures}
use routn.ByteArray.Codec.{read_fixed, write_uint64, read_uint64, write_int64, read_int64}
use routn.ByteArray.RoundTrip.{Restores, uint64-Restores, int64-Restores}
use routn.ByteArray.Buffers.{to_string}
use routn.ByteArray.Buffers.Peek.{to_string_three}

abbrev first : Node
first = record { ptr = 1 ∷ 2 ∷ 3 ∷ 4 ∷ []; size = 4 }

abbrev second : Node
second = record { ptr = 5 ∷ 6 ∷ 7 ∷ 8 ∷ []; size = 4 }

abbrev third : Node
third = record { ptr = 9 ∷ 10 ∷ 11 ∷ 12 ∷ []; size = 4 }

abbrev three : ByteArray
three = record {
  base_size = 4;
  capacity = 12;
  position = 1;
  size = 11;
  endian = big;
  nodes = first ∷ second ∷ third ∷ [];
  cur = 0;
  fresh = 0;
}

three-IsValid : IsValid three
three-IsValid = record {
  base_pos = omega arith;
  some_block = omega arith;
  blocks = (refl, refl, (refl, refl, (refl, refl, tt)));
  cap_eq = refl;
  pos_le = omega arith;
  size_le = omega arith;
  cur_le = omega arith;
  cur_next = omega arith;
}

-- The same up to the second block's end.
abbrev two : ByteArray
two = record three { size = 8 }

two-IsValid : IsValid two
two-IsValid = record {
  base_pos = omega arith;
  some_block = omega arith;
  blocks = (refl, refl, (refl, refl, (refl, refl, tt)));
  cap_eq = refl;
  pos_le = omega arith;
  size_le = omega arith;
  cur_le = omega arith;
  cur_next = omega arith;
}

-- Two blocks that end with the length field of an empty text, and what is left behind it.
abbrev before_text : ByteArray
before_text = record {
  base_size = 4;
  capacity = 4;
  position = 0;
  size = 4;
  endian = big;
  nodes = record { ptr = 0 ∷ 0 ∷ 0 ∷ 0 ∷ []; size = 4 } ∷ [];
  cur = 0;
  fresh = 0;
}

abbrev behind_text : ByteArray
behind_text = record before_text { position = 4; cur = 1 }

behind_text-IsValid : IsValid behind_text
behind_text-IsValid = record {
  base_pos = omega arith;
  some_block = omega arith;
  blocks = (refl, refl, tt);
  cap_eq = refl;
  pos_le = omega arith;
  size_le = omega arith;
  cur_le = omega arith;
  cur_next = omega arith;
}

write-Stored_example :
    (c : ByteArray) × (write (21 ∷ 22 ∷ 23 ∷ 24 ∷ []) three ≡ ok c)
    × Stored (21 ∷ 22 ∷ 23 ∷ 24 ∷ []) three c
write-Stored_example = write-Stored (21 ∷ 22 ∷ 23 ∷ 24 ∷ []) three three-IsValid

read-Taken_example :
    (c : ByteArray) × (read 9 three ≡ ok (slice (view three).bytes (view three).at 9, c))
    × Taken 9 three c
read-Taken_example = read-Taken 9 three three-IsValid (omega arith) (omega arith)

abbrev eleven : ℕ
eleven = 11

read_failures_example :
    ((read 11 three ≡ oor) ↔ (10 < 11))
    × ((read 11 three ≡ fault) ↔ ((eleven ≡ 0) × (three.position ≡ three.capacity)))
read_failures_example = read_failures 11 three three-IsValid

uint64-Restores_example : Restores (write_uint64 5000000000) read_uint64 5000000000 three
uint64-Restores_example = uint64-Restores 5000000000 three three-IsValid (omega arith)

int64-Restores_example :
    (r : ℕ) × Restores (write_int64 5000000000) read_int64 r three
    × ((r ≡ 5000000000) ↔ ((5000000000 < 2 ^ 31) ⊎ (2 ^ 64 - 2 ^ 31 ≤ 5000000000)))
int64-Restores_example = int64-Restores 5000000000 three three-IsValid (omega arith)

abbrev text : List ℕ
text = 104 ∷ 105 ∷ []

empty_read : read_fixed 4 before_text ≡ ok (0, behind_text)
unfolding read_fixed read read_chain byteswap from_le le_bytes
empty_read = refl

to_string_three_example :
    (tail : List ℕ) × (to_string three
      ≡ ok (slice first.ptr (1 % 4) (4 - 1 % 4) ++ (first.ptr ++ tail)))
to_string_three_example =
    to_string_three three three-IsValid (omega arith) first second (third ∷ []) refl (omega arith)
