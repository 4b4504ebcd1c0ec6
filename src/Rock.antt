-- ===== src/Rock.antt =====
-- src/Protocol.h, src/Protocol.cpp, src/rpc/RockProtocol.h and src/rpc/RockProtocol.cpp: the messages
-- of the RPC protocol on a byte array. A message is parsed from a byte array that holds its body, as
-- the decoder does behind the header.
pub mod Compose
pub mod RoundTrip
pub mod Header
mod Tests
use routn.Base.{
  ℕ, Option, none, some, List, [], ◌∷◌, ◌++◌, take, drop, ◌==◌, leb, if◌then◌else◌, Bool, true,
  false, not, ◌&&◌,
}
use routn.Base.Bytes.{byteswap, le_bytes, from_le}
use routn.ByteArray.{ByteArray, byte_array, Outcome, ok, oor, fault, ◌>>=◌, set_position}
use routn.ByteArray.Codec.{write_fuint8, read_fuint8, write_uint32, read_uint32}
use routn.ByteArray.Text.{write_string_f32, read_string_f32, write_string_vint, read_string_vint}

pub record RockRequest : Type 0 where
  pub sn : ℕ
  pub cmd : ℕ
  pub body : List ℕ

pub record RockResponse : Type 0 where
  pub sn : ℕ
  pub cmd : ℕ
  pub result : ℕ
  pub res_str : List ℕ
  pub body : List ℕ

pub record RockNotify : Type 0 where
  pub notify : ℕ
  pub body : List ℕ

pub data Message : Type 0 where
  request : RockRequest → Message
  response : RockResponse → Message
  notify : RockNotify → Message

-- `getType`
abbrev pub get_type : Message → ℕ
get_type (request r) = 1
get_type (response r) = 2
get_type (notify n) = 3

-- `RockRequest::createResponse`; what is not set keeps the value of the constructors.
abbrev pub create_response : RockRequest → RockResponse
create_response r = record {
  sn = r.sn;
  cmd = r.cmd;
  result = 404;
  res_str = 117 ∷ 110 ∷ 97 ∷ 118 ∷ 97 ∷ 108 ∷ 105 ∷ 97 ∷ 98 ∷ 108 ∷ 101 ∷ [];
  body = [];
}

-- `RockBody::serializeToByteArray` and `parseFromByteArray`.
abbrev pub serialize_body : List ℕ → ByteArray → Outcome ByteArray
serialize_body body b = write_string_f32 body b

abbrev pub parse_body : ByteArray → Outcome (List ℕ × ByteArray)
parse_body b = read_string_f32 b

-- `Request`, `Response` and `Notify`, without the body.
unfoldable pub serialize_request : RockRequest → ByteArray → Outcome ByteArray
serialize_request r b = do
  c ← write_fuint8 (get_type (request r)) b
  d ← write_uint32 r.sn c
  write_uint32 r.cmd d

unfoldable pub serialize_response : RockResponse → ByteArray → Outcome ByteArray
serialize_response r b = do
  c ← write_fuint8 (get_type (response r)) b
  d ← write_uint32 r.sn c
  e ← write_uint32 r.cmd d
  f ← write_uint32 r.result e
  write_string_vint r.res_str f

unfoldable pub serialize_notify : RockNotify → ByteArray → Outcome ByteArray
serialize_notify n b = do c ← write_fuint8 (get_type (notify n)) b; write_uint32 n.notify c

unfoldable pub serialize : Message → ByteArray → Outcome ByteArray
serialize (request r) b = do c ← serialize_request r b; serialize_body r.body c
serialize (response r) b = do c ← serialize_response r b; serialize_body r.body c
serialize (notify n) b = do c ← serialize_notify n b; serialize_body n.body c

-- `catch(...)` turns an exception into a failure.
abbrev pub caught {ℓ} : {A : Type ℓ} → Outcome A → Outcome (Option A)
caught (ok a) = ok (some a)
caught oor = ok none
caught fault = fault

-- `Message::toByteArray`, into a new byte array with the block size that is the default.
unfoldable pub to_byte_array : ℕ → Message → Outcome (Option ByteArray)
to_byte_array fresh msg = caught (serialize msg (byte_array fresh 4096))

unfoldable pub parse_request : ByteArray → Outcome (Message × ByteArray)
parse_request b = do
  (sn, c) ← read_uint32 b
  (cmd, d) ← read_uint32 c
  (body, e) ← parse_body d
  ok (request (record { sn = sn; cmd = cmd; body = body }), e)

unfoldable pub parse_response : ByteArray → Outcome (Message × ByteArray)
parse_response b = do
  (sn, c) ← read_uint32 b
  (cmd, d) ← read_uint32 c
  (result, e) ← read_uint32 d
  (res_str, f) ← read_string_vint e
  (body, g) ← parse_body f
  ok (response (record { sn = sn; cmd = cmd; result = result; res_str = res_str; body = body }), g)

unfoldable pub parse_notify : ByteArray → Outcome (Message × ByteArray)
parse_notify b = do
  (n, c) ← read_uint32 b
  (body, d) ← parse_body c
  ok (notify (record { notify = n; body = body }), d)

-- The decoder behind the header: the type, and the message of that type. Each failure is a null message.
unfoldable pub parse_typed : ℕ → ByteArray → Outcome (Option (Message × ByteArray))
parse_typed type b =
    if type == 1
    then caught (parse_request b)
    else if type == 2
    then caught (parse_response b)
    else if type == 3
    then caught (parse_notify b)
    else ok none

unfoldable pub parse_from : ByteArray → Outcome (Option Message)
parse_from b = elim (read_fuint8 b) [
  | ok (type, c) ↦ (do
    r ← parse_typed type c
    ok (elim r [ none ↦ none | some (msg, d) ↦ some msg ]))
  | oor ↦ ok none
  | fault ↦ fault
]

-- The header, its members in the order of the struct.
pub record RockMsgHeader : Type 0 where
  pub magic : List ℕ
  pub version : ℕ
  pub flag : ℕ
  pub length : ℕ

abbrev pub rock_magic : List ℕ
rock_magic = 0x12 ∷ 0x21 ∷ []

abbrev pub rock_msg_header : RockMsgHeader
rock_msg_header = record { magic = rock_magic; version = 1; flag = 0; length = 0 }

-- The header that `serializeTo` sends for a body of `len` bytes, compressed or not, and its bytes in
-- memory: the machine is little-endian.
abbrev pub header_for : Bool → ℕ → RockMsgHeader
header_for zipped len = record rock_msg_header {
  flag = if zipped then 1 else 0;
  length = byteswap 4 len;
}

unfoldable pub header_bytes : RockMsgHeader → List ℕ
header_bytes h = h.magic ++ (h.version ∷ h.flag ∷ le_bytes 4 h.length)

abbrev pub header_of : List ℕ → RockMsgHeader
header_of bytes = record {
  magic = take 2 bytes;
  version = from_le (take 1 (drop 2 bytes));
  flag = from_le (take 1 (drop 3 bytes));
  length = from_le (drop 4 bytes);
}

-- `memcmp` on arrays of one length is zero.
unfoldable pub same_bytes : List ℕ → List ℕ → Bool
same_bytes [] [] = true
same_bytes [] (y ∷ ys) = false
same_bytes (x ∷ xs) [] = false
same_bytes (x ∷ xs) (y ∷ ys) = (x == y) && same_bytes xs ys

-- The checks of `parseFrom` on the header: the flag and the body's length, or the null message.
unfoldable pub check_header : ℕ → RockMsgHeader → Option (ℕ × ℕ)
check_header max_length h =
    if not (same_bytes h.magic rock_magic)
    then none
    else if not (h.version == 1)
    then none
    else if leb max_length (byteswap 4 h.length)
    then none
    else some (h.flag, byteswap 4 h.length)
