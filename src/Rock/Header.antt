-- ===== src/Rock/Header.antt =====
-- The header of the RPC protocol, src/rpc/RockProtocol.cpp: what `serializeTo` sends, `parseFrom` reads.
use routn.Base.{
  ℕ, ◌^◌, ◌<◌, ◌≡◌, refl, none, some, [], ◌∷◌, leb, if◌then◌else◌, Bool, true, false, arith,
}
use routn.Base.Bytes.{byteswap, le_bytes, from_le, from_le-le_bytes, byteswap-byteswap, byteswap-lt}
use routn.Rock.{header_for, header_bytes, header_of, check_header, same_bytes}

from_le_one : from_le (1 ∷ []) ≡ 1
unfolding from_le
from_le_one = refl

from_le_flag :
    (zipped : Bool) → from_le ((if zipped then 1 else 0) ∷ []) ≡ (if zipped then 1 else 0)
unfolding from_le
from_le_flag true = refl
from_le_flag false = refl

-- For a length below 2^32 `parseFrom` accepts the header that `serializeTo` sends exactly where the
-- length is below the maximum, and then finds the flag and the length that were put in.
pub check_header-header_for :
    (max_length len : ℕ) (zipped : Bool)
    → len < 2 ^ 32
    → check_header max_length (header_of (header_bytes (header_for zipped len)))
      ≡ (if leb max_length len then none else some (if zipped then 1 else 0, len))
unfolding check_header header_bytes same_bytes
check_header-header_for max_length len zipped h =
    let e : from_le (le_bytes 4 (byteswap 4 len)) ≡ byteswap 4 len =
      from_le-le_bytes 4 (byteswap 4 len) (byteswap-lt 4 len) in
    let f : byteswap 4 (byteswap 4 len) ≡ len = byteswap-byteswap 4 len (omega arith) in
    rw (e, f, from_le_one, from_le_flag zipped) refl
