-- ===== src/WebSocket/Round.antt =====
-- One round of the loop of `WSRecvMessage` of src/http/WSSession.cpp, on a frame.
use mathlib.Core.List.{append_assoc}
use routn.Base.{
  ℕ, ◌+◌, ◌%◌, ◌^◌, ◌≤◌, ◌<◌, ◌≡◌, refl, ap, sym, ◌∙◌, Bool, true, false, not, ◌&&◌, List, [], ◌++◌,
  length, All, leb, ◌==◌, if◌then◌else◌, arith,
}
use routn.Base.Bytes.{le_bytes, IsByte, length-le_bytes, All-le_bytes}
use routn.Stream.{ok, Answer}
use routn.WebSocket.{
  WsFrameHead, WsFrameMessage, Connection, head_bytes, head_of, head_for, length_bytes, masked,
  Step, next, done, read_payload, store_frame, read_data, data_frame, by_opcode, ws_round,
}
use routn.WebSocket.Frames.{frame_bytes, read_lem, head_of-head_bytes, length-masked}
use routn.WebSocket.Parts.{
  Brings, from_input, read_length_lem, mask_of, read_mask_lem, read_payload_lem, opcode_after,
  store_frame_lem,
}

-- What a receiver makes of a frame, given what it has so far.
abbrev pub taken_over : WsFrameMessage → Bool → ℕ → List ℕ → Connection → Step
taken_over msg fin opcode sofar s =
    if fin
    then done (record { opcode = opcode_after opcode msg; payload = sofar ++ msg.payload }) s
    else next (opcode_after opcode msg) (sofar ++ msg.payload) s

-- A message for which the head and two bytes of length are enough, and which the receiver accepts
-- behind `n` bytes.
abbrev pub IsShort : ℕ → ℕ → WsFrameMessage → Type 0
IsShort max_size n msg =
    (msg.opcode ≤ 2)
    × (0 < length msg.payload)
    × (length msg.payload < 65536)
    × (n + length msg.payload < max_size)
    × All IsByte msg.payload

pub read_data_lem :
    (max_size rand_val : ℕ) (msg : WsFrameMessage) (client fin : Bool) (opcode : ℕ)
    (sofar ys : List ℕ) (s : Connection)
    → max_size < 2 ^ 31
    → IsShort max_size (length sofar) msg
    → (let mask = le_bytes 4 rand_val in
        Brings ((if client then mask else []) ++ ((masked client mask msg).payload ++ ys)) s
        → (input : List Answer) × (read_data max_size
              (head_for msg client fin)
              opcode
              sofar
              (length msg.payload)
              s
            ≡ ok (taken_over msg fin opcode sofar (from_input s input)))
          × Brings ys (from_input s input))
unfolding read_data
read_data_lem max_size rand_val msg client fin opcode sofar ys s m (h1, h2, h3, h4, h5) b =
    let mask = le_bytes 4 rand_val in
    let msg' = masked client mask msg in
    let same = length-masked client mask msg in
    let fits : leb max_size ((length sofar + length msg.payload) % 2 ^ 64) ≡ false = ground arith in
    let (i1, r1, b1) =
      read_mask_lem msg client fin mask (msg'.payload ++ ys) s (length-le_bytes 4 rand_val) b in
    let (i2, r2, b2) =
      read_payload_lem (length sofar) (length msg.payload) msg'.payload ys (from_input s i1)
        (sym same) b1 (omega (arith, same)) (omega (arith, same)) in
    let h = head_for msg client fin in
    let got = λ (mask : List ℕ) (xs : List ℕ) (s3 : Connection).
      ok (store_frame h opcode sofar mask xs s3) in
    let first = r1 (λ mask s2. read_payload (length sofar) (length msg.payload) s2 (got mask)) in
    let second = r2 (got (mask_of client mask)) in
    let third =
      store_frame_lem msg client fin mask opcode sofar (from_input s i2) (All-le_bytes 4 rand_val)
        h5 in
    (i2, rw (fits, read_data) (first ∙ second ∙ ap ok third), b2)

-- A client masks, and a server does not.
pub mask_suits : (client : Bool) → (not (not client) && not client) ≡ false
mask_suits true = refl
mask_suits false = refl

pub data_frame_lem :
    (max_size junk rand_val : ℕ) (msg : WsFrameMessage) (client fin : Bool) (opcode : ℕ)
    (sofar ys : List ℕ) (s : Connection)
    → max_size < 2 ^ 31
    → IsShort max_size (length sofar) msg
    → (let mask = le_bytes 4 rand_val in
        Brings
          (length_bytes junk (length msg.payload)
            ++ ((if client then mask else []) ++ ((masked client mask msg).payload ++ ys)))
          s
        → (input : List Answer) × (data_frame
              (not client)
              max_size
              opcode
              sofar
              (head_for msg client fin)
              s
            ≡ ok (taken_over msg fin opcode sofar (from_input s input)))
          × Brings ys (from_input s input))
unfolding data_frame
data_frame_lem max_size junk rand_val msg client fin opcode sofar ys s m short b =
    let mask = le_bytes 4 rand_val in
    let h = head_for msg client fin in
    let rest = (if client then mask else []) ++ ((masked client mask msg).payload ++ ys) in
    let (i1, r1, b1) = read_length_lem junk msg client fin rest s short.2 b in
    let (i2, r2, b2) =
      read_data_lem max_size rand_val msg client fin opcode sofar ys (from_input s i1) m short b1 in
    (i2, rw (mask_suits client, data_frame) (r1 (read_data max_size h opcode sofar) ∙ r2), b2)

pub frame_bytes-append :
    (junk rand_val : ℕ) (msg : WsFrameMessage) (client fin : Bool) (ys : List ℕ)
    → (let mask = le_bytes 4 rand_val in
        frame_bytes junk rand_val msg client fin ++ ys
        ≡ head_bytes (head_for msg client fin)
          ++ (length_bytes junk (length msg.payload)
              ++ ((if client then mask else []) ++ ((masked client mask msg).payload ++ ys))))
frame_bytes-append junk rand_val msg client fin ys =
    let mask = le_bytes 4 rand_val in
    let field = length_bytes junk (length msg.payload) in
    let m = if client then mask else [] in
    let body = (masked client mask msg).payload in
    ap (λ (l : List ℕ). head_bytes (head_for msg client fin) ++ l)
      (append_assoc field (m ++ body) ys ∙ ap (λ (l : List ℕ). field ++ l) (append_assoc m body ys))

pub payload-lt :
    (msg : WsFrameMessage) (client fin : Bool) → (head_for msg client fin).payload < 128
payload-lt msg client fin = ground arith

pub by_opcode_lem :
    (client : Bool) (max_size opcode : ℕ) (sofar : List ℕ) (msg : WsFrameMessage) (from fin : Bool)
    (s : Connection)
    → msg.opcode ≤ 2
    → by_opcode client max_size opcode sofar (head_for msg from fin) s
      ≡ data_frame client max_size opcode sofar (head_for msg from fin) s
unfolding by_opcode
by_opcode_lem client max_size opcode sofar msg from fin s h =
    let not_ping : (msg.opcode == 9) ≡ false = ground arith in
    let is_data : leb msg.opcode 2 ≡ true = ground arith in rw (not_ping, is_data) refl

-- A round that reads a frame takes it over, and leaves the bytes behind it.
pub ws_round_frame :
    (max_size junk rand_val : ℕ) (msg : WsFrameMessage) (client fin : Bool) (opcode : ℕ)
    (sofar ys : List ℕ) (s : Connection)
    → max_size < 2 ^ 31
    → IsShort max_size (length sofar) msg
    → Brings (frame_bytes junk rand_val msg client fin ++ ys) s
    → (input : List Answer) × (ws_round (not client) max_size opcode sofar s
        ≡ ok (taken_over msg fin opcode sofar (from_input s input)))
      × Brings ys (from_input s input)
unfolding ws_round
ws_round_frame max_size junk rand_val msg client fin opcode sofar ys s m short (o, b) =
    let mask = le_bytes 4 rand_val in
    let h = head_for msg client fin in
    let rest =
      length_bytes junk (length msg.payload)
      ++ ((if client then mask else []) ++ ((masked client mask msg).payload ++ ys)) in
    let (i1, r1, o1, b1) =
      read_lem (head_bytes h) rest s o (b ∙ frame_bytes-append junk rand_val msg client fin ys)
        (omega arith) (omega arith) in
    let (i2, r2, b2) =
      data_frame_lem max_size junk rand_val msg client fin opcode sofar ys (from_input s i1) m short
        (o1, b1) in
    let head : head_of (head_bytes h) ≡ h =
      head_of-head_bytes h (omega (arith, short.0)) (payload-lt msg client fin) in
    (
      i2,
      r1 (λ xs s'. by_opcode (not client) max_size opcode sofar (head_of xs) s')
          ∙ ap
              (λ (h' : WsFrameHead).
                by_opcode (not client) max_size opcode sofar h' (from_input s i1))
              head
          ∙ by_opcode_lem (not client) max_size opcode sofar msg client fin (from_input s i1)
              short.0
          ∙ r2,
      b2,
    )
