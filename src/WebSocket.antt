-- ===== src/WebSocket.antt =====
-- src/http/WSSession.h and src/http/WSSession.cpp: the frames of WebSocket messages on a stream.
-- The length that `WSSendMessage` leaves without a value (`junk`) and the value of `rand()` are
-- arguments, and so is the greatest size of a message, which the configuration holds.
pub mod Frames
pub mod Parts
pub mod Round
pub mod RoundTrip
pub mod Empty
pub mod Progress
pub mod Termination
mod Tests
use Prim.Native.Nat.{bit_xor}
use routn.Base.{
  ℕ, zero, suc, ◌+◌, ◌-◌, ◌*◌, ◌/◌, ◌%◌, ◌^◌, Bool, true, false, not, ◌&&◌, ◌||◌, Option, none,
  some, List, [], ◌∷◌, ◌++◌, length, get_elem?, ltb, leb, ◌==◌, if◌then◌else◌,
}
use routn.Base.Bytes.{le_bytes, from_le, byteswap}
use routn.Stream.{
  Outcome, ok, overrun, ◌>>=◌, Answer, Accept, is_positive, read_loop, read_fix_size,
  write_fix_size,
}

pub record WsFrameHead : Type 0 where
  pub opcode : ℕ
  pub fin : Bool
  pub payload : ℕ
  pub mask : Bool

abbrev pub bit : Bool → ℕ → ℕ
bit b n = if b then n else 0

-- The two bytes of the packed bit fields; rsv1, rsv2 and rsv3 are 0.
abbrev pub head_bytes : WsFrameHead → List ℕ
head_bytes h = (h.opcode % 16 + bit h.fin 128) ∷ (h.payload % 128 + bit h.mask 128) ∷ []

abbrev pub head_of : List ℕ → WsFrameHead
head_of (a ∷ b ∷ rest) = record {
  opcode = a % 16;
  fin = leb 128 a;
  payload = b % 128;
  mask = leb 128 b;
}
head_of bytes = record { opcode = 0; fin = false; payload = 0; mask = false }

pub record WsFrameMessage : Type 0 where
  pub opcode : ℕ
  pub payload : List ℕ

pub record Connection : Type 0 where
  pub input : List Answer
  pub accepts : List Accept
  pub output : List ℕ
  pub closed : Bool

-- `data[i] ^= mask[i % 4]`
unfoldable pub apply_mask : List ℕ → ℕ → List ℕ → List ℕ
apply_mask mask i [] = []
apply_mask mask i (x ∷ xs) =
    let m : ℕ = elim (get_elem? mask (i % 4)) [ none ↦ 0 | some m ↦ m ] in
    bit_xor x m ∷ apply_mask mask (suc i) xs

-- `writeFixSize`: whether the result is above 0.
unfoldable pub write : List ℕ → Connection → Outcome (Bool × Connection)
write bytes s = do
  (r, sent, accepts) ← write_fix_size s.accepts bytes
  ok (is_positive r, record s { accepts = accepts; output = s.output ++ sent })

abbrev pub close : Connection → Connection
close s = record s { closed = true }

-- The message as it is afterwards, and the result of type `int32_t`; -1 is 2^32 - 1.
abbrev pub Sent : Type 0
Sent = Connection × WsFrameMessage × ℕ

abbrev pub on_write :
    List ℕ → WsFrameMessage → Connection → (Connection → Outcome Sent) → Outcome Sent
on_write bytes msg s k =
    write bytes s >>= (λ r. if r.0 then k r.1 else ok (close r.1, msg, 2 ^ 32 - 1))

-- The bytes behind the head, where the length does not fit into it.
unfoldable pub length_bytes : ℕ → ℕ → List ℕ
length_bytes junk size =
    if ltb size 126
    then []
    else if ltb size 65536
    then le_bytes 2 (byteswap 2 size)
    else le_bytes 8 (byteswap 8 junk)

abbrev pub head_for : WsFrameMessage → Bool → Bool → WsFrameHead
head_for msg client fin =
    let size = length msg.payload in
    record {
      opcode = msg.opcode;
      fin = fin;
      payload = if ltb size 126 then size else if ltb size 65536 then 126 else 127;
      mask = client;
    }

abbrev pub masked : Bool → List ℕ → WsFrameMessage → WsFrameMessage
masked client mask msg =
    if client then record msg { payload = apply_mask mask 0 msg.payload } else msg

-- The last parts of `WSSendMessage`: the data, the mask of a client, and a length that the head does
-- not hold. `msg'` is the message that is masked where a client sends it.
unfoldable pub send_data : WsFrameMessage → Connection → Outcome Sent
send_data msg' s =
    on_write msg'.payload msg' s (λ s'. ok (s', msg', (length msg'.payload + 2) % 2 ^ 32))

unfoldable pub send_mask : Bool → List ℕ → WsFrameMessage → Connection → Outcome Sent
send_mask client mask msg' s =
    if client then on_write mask msg' s (send_data msg') else send_data msg' s

unfoldable pub send_length :
    ℕ → Bool → List ℕ → WsFrameMessage → WsFrameMessage → Connection → Outcome Sent
send_length junk client mask msg msg' s =
    let size = length msg.payload in
    if ltb size 126
    then send_mask client mask msg' s
    else on_write (length_bytes junk size) msg s (send_mask client mask msg')

unfoldable pub ws_send_message : ℕ → ℕ → WsFrameMessage → Bool → Bool → Connection → Outcome Sent
ws_send_message junk rand_val msg client fin s =
    let mask = le_bytes 4 rand_val in
    on_write (head_bytes (head_for msg client fin)) msg s
      (send_length junk client mask msg (masked client mask msg))

abbrev pub control_head : ℕ → WsFrameHead
control_head opcode = record { opcode = opcode; fin = true; payload = 0; mask = false }

-- `WSPing` and `WSPong`, whose opcodes are 9 and 10: whether the result is above 0.
unfoldable pub ws_control : ℕ → Connection → Outcome (Bool × Connection)
ws_control opcode s =
    write (head_bytes (control_head opcode)) s >>= (λ r. ok (if r.0 then r else (false, close r.1)))

-- One round of the loop of `WSRecvMessage`: it goes on, returns a message, or breaks off.
pub data Step : Type 0 where
  next : ℕ → List ℕ → Connection → Step
  done : WsFrameMessage → Connection → Step
  broke : Connection → Step

abbrev pub on_read : ℕ → Connection → (List ℕ → Connection → Outcome Step) → Outcome Step
on_read n s k = read_fix_size s.input n >>= (λ r.
    let s' = record s { input = r.2 } in if is_positive r.0 then k r.1 s' else ok (broke s'))

abbrev pub read_length : WsFrameHead → Connection → (ℕ → Connection → Outcome Step) → Outcome Step
read_length h s k =
    if h.payload == 126
    then on_read 2 s (λ xs s'. k (byteswap 2 (from_le xs)) s')
    else if h.payload == 127
    then on_read 8 s (λ xs s'. k (byteswap 8 (from_le xs)) s')
    else k h.payload s

abbrev pub read_mask :
    WsFrameHead → Connection → (List ℕ → Connection → Outcome Step) → Outcome Step
read_mask h s k = if h.mask then on_read 4 s k else k (0 ∷ 0 ∷ 0 ∷ 0 ∷ []) s

-- The read into `data`, which has been resized to `cur_len + length`, a sum that may wrap.
abbrev pub read_payload : ℕ → ℕ → Connection → (List ℕ → Connection → Outcome Step) → Outcome Step
read_payload cur_len len s k =
    let room = (cur_len + len) % 2 ^ 64 - cur_len in
    read_loop room len s.input 0 len [] >>= (λ r.
      let s' = record s { input = r.2 } in if is_positive r.0 then k r.1 s' else ok (broke s'))

-- The parts of a round that follow the length: the data are taken over, and the last frame of a message
-- ends the loop.
unfoldable pub store_frame : WsFrameHead → ℕ → List ℕ → List ℕ → List ℕ → Connection → Step
store_frame h opcode payload mask xs s =
    let opcode' = if opcode == 0 && not (h.opcode == 0) then h.opcode else opcode in
    let all = payload ++ (if h.mask then apply_mask mask 0 xs else xs) in
    if h.fin then done (record { opcode = opcode'; payload = all }) s else next opcode' all s

unfoldable pub read_data : ℕ → WsFrameHead → ℕ → List ℕ → ℕ → Connection → Outcome Step
read_data max_size h opcode payload len s =
    if leb max_size ((length payload + len) % 2 ^ 64)
    then ok (broke s)
    else read_mask h s (λ mask s2.
      read_payload (length payload) len s2 (λ xs s3. ok (store_frame h opcode payload mask xs s3)))

-- The round for the opcodes CONTINUE, TEXT_FRAME and BIN_FRAME.
unfoldable pub data_frame : Bool → ℕ → ℕ → List ℕ → WsFrameHead → Connection → Outcome Step
data_frame client max_size opcode payload h s =
    if not client && not h.mask
    then ok (broke s)
    else read_length h s (read_data max_size h opcode payload)

-- What a round does behind the head, by its opcode: PING is 9.
unfoldable pub by_opcode : Bool → ℕ → ℕ → List ℕ → WsFrameHead → Connection → Outcome Step
by_opcode client max_size opcode payload h s =
    let pong = ws_control 10 s >>= (λ r. ok (if r.0 then next opcode payload r.1 else broke r.1)) in
    if h.opcode == 9
    then pong
    else if leb h.opcode 2
    then data_frame client max_size opcode payload h s
    else ok (next opcode payload s)

unfoldable pub ws_round : Bool → ℕ → ℕ → List ℕ → Connection → Outcome Step
ws_round client max_size opcode payload s =
    on_read 2 s (λ xs s'. by_opcode client max_size opcode payload (head_of xs) s')

-- The result of `WSRecvMessage`, `nullptr` as `none`. The fuel counts the rounds; `out_of_fuel` is not
-- a result.
pub data Received : Type 0 where
  received : Option WsFrameMessage → Connection → Received
  out_of_fuel : Received

unfoldable pub ws_recv_loop : ℕ → Bool → ℕ → ℕ → List ℕ → Connection → Outcome Received
ws_recv_loop zero client max_size opcode payload s = ok out_of_fuel
ws_recv_loop (suc fuel) client max_size opcode payload s =
    ws_round client max_size opcode payload s >>= (λ r. elim r [
      | next opcode' payload' s' ↦ ws_recv_loop fuel client max_size opcode' payload' s'
      | done msg s' ↦ ok (received (some msg) s')
      | broke s' ↦ ok (received none (close s'))
    ])

unfoldable pub ws_recv_message : ℕ → Bool → ℕ → Connection → Outcome Received
ws_recv_message fuel client max_size s = ws_recv_loop fuel client max_size 0 [] s
