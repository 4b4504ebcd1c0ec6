-- ===== src/WebSocket/Parts.antt =====
-- The parts of a frame as `WSRecvMessage` of src/http/WSSession.cpp reads them.
use routn.Base.{
  ℕ, ◌+◌, ◌-◌, ◌%◌, ◌^◌, ◌<◌, ◌≡◌, refl, ap, ◌∙◌, Bool, true, false, not, ◌&&◌, List, [], ◌∷◌, ◌++◌,
  length, All, ltb, ◌==◌, if◌then◌else◌, arith, Bool-cases, inl, inr,
}
use routn.Base.Bytes.{
  le_bytes, from_le, byteswap, IsByte, length-le_bytes, from_le-le_bytes, byteswap-lt,
  byteswap-byteswap,
}
use routn.Stream.{Outcome, ok, ◌>>=◌, Answer, is_positive, read_loop, read_fix_size}
use routn.Stream.Whole.{bytes, IsOpen}
use routn.WebSocket.{
  WsFrameMessage, Connection, head_for, length_bytes, masked, Step, next, done, broke, read_length,
  read_mask, read_payload, store_frame,
}
use routn.WebSocket.Frames.{read_lem, apply_mask_twice, length_bytes_short}

-- The bytes that are to come on a connection.
abbrev pub Brings : List ℕ → Connection → Type 0
Brings xs s = IsOpen s.input × (bytes s.input ≡ xs)

abbrev pub from_input : Connection → List Answer → Connection
from_input s input = record s { input = input }

pub length_bytes_two :
    (junk size : ℕ)
    → ltb size 126 ≡ false
    → size < 65536
    → length_bytes junk size ≡ le_bytes 2 (byteswap 2 size)
unfolding length_bytes
length_bytes_two junk size long h =
    let two : ltb size 65536 ≡ true = ground arith in rw (long, two) refl

-- The length that the frame of a message tells.
pub read_length_lem :
    (junk : ℕ) (msg : WsFrameMessage) (client fin : Bool) (ys : List ℕ) (s : Connection)
    → length msg.payload < 65536
    → Brings (length_bytes junk (length msg.payload) ++ ys) s
    → (input : List Answer) × ((k : ℕ → Connection → Outcome Step)
        → read_length (head_for msg client fin) s k ≡ k (length msg.payload) (from_input s input))
      × Brings ys (from_input s input)
read_length_lem junk msg client fin ys s h (o, e) =
    let size = length msg.payload in
    elim (Bool-cases (ltb size 126)) [
      | inl short ↦
          let n1 : (size == 126) ≡ false = ground (arith, short) in
          let n2 : (size == 127) ≡ false = ground (arith, short) in
          (s.input, λ k. rw (short, n1, n2) refl, (o, rw (length_bytes_short junk size short) at e))
      | inr long ↦
          let w : ltb size 65536 ≡ true = ground arith in
          let field = le_bytes 2 (byteswap 2 size) in
          let two = length-le_bytes 2 (byteswap 2 size) in
          let back : byteswap 2 (from_le field) ≡ size =
            ap (byteswap 2) (from_le-le_bytes 2 (byteswap 2 size) (byteswap-lt 2 size))
            ∙ byteswap-byteswap 2 size (omega arith) in
          let (input, r, o', b) =
            read_lem field ys s o (rw (length_bytes_two junk size long h) at e) (omega (arith, two))
              (omega (arith, two)) in
          (
            input,
            λ k.
                rw (long, w)
                  ((rw two at (r (λ xs s'. k (byteswap 2 (from_le xs)) s'))) ∙ rw back refl),
            (o', b),
          )
    ]

abbrev pub mask_of : Bool → List ℕ → List ℕ
mask_of client mask = if client then mask else 0 ∷ 0 ∷ 0 ∷ 0 ∷ []

pub read_mask_lem :
    (msg : WsFrameMessage) (client fin : Bool) (mask ys : List ℕ) (s : Connection)
    → length mask ≡ 4
    → Brings ((if client then mask else []) ++ ys) s
    → (input : List Answer) × ((k : List ℕ → Connection → Outcome Step)
        → read_mask (head_for msg client fin) s k ≡ k (mask_of client mask) (from_input s input))
      × Brings ys (from_input s input)
read_mask_lem msg false fin mask ys s h (o, e) = (s.input, λ k. refl, (o, e))
read_mask_lem msg true fin mask ys s h (o, e) =
    let (input, r, o', b) = read_lem mask ys s o e (omega (arith, h)) (omega (arith, h)) in
    (input, λ k. rw h at (r k), (o', b))

pub read_room_lem :
    (room : ℕ) (xs ys : List ℕ) (s : Connection)
    → room ≡ length xs
    → Brings (xs ++ ys) s
    → 0 < length xs
    → length xs < 2 ^ 31
    → (input : List Answer) × ((k : List ℕ → Connection → Outcome Step)
        → (read_loop room (length xs) s.input 0 (length xs) [] >>= (λ r.
            if is_positive r.0 then k r.1 (from_input s r.2) else ok (broke (from_input s r.2))))
          ≡ k xs (from_input s input))
      × Brings ys (from_input s input)
unfolding read_fix_size
read_room_lem room xs ys s e (o, b) h1 h2 =
    rw e (let (input, r, o', b') = read_lem xs ys s o b h1 h2 in (input, r, (o', b')))

pub read_payload_lem :
    (cur_len n : ℕ) (xs ys : List ℕ) (s : Connection)
    → n ≡ length xs
    → Brings (xs ++ ys) s
    → 0 < length xs
    → cur_len + length xs < 2 ^ 31
    → (input : List Answer) × ((k : List ℕ → Connection → Outcome Step)
        → read_payload cur_len n s k ≡ k xs (from_input s input))
      × Brings ys (from_input s input)
read_payload_lem cur_len n xs ys s e b h1 h2 = rw e (
    read_room_lem ((cur_len + length xs) % 2 ^ 64 - cur_len) xs ys s (omega arith) b h1
      (omega arith))

-- The opcode that a message has once the frame is taken over.
abbrev pub opcode_after : ℕ → WsFrameMessage → ℕ
opcode_after opcode msg = if opcode == 0 && not (msg.opcode == 0) then msg.opcode else opcode

pub store_frame_lem :
    (msg : WsFrameMessage) (client fin : Bool) (mask : List ℕ) (opcode : ℕ) (sofar : List ℕ)
    (s : Connection)
    → All IsByte mask
    → All IsByte msg.payload
    → store_frame
        (head_for msg client fin)
        opcode
        sofar
        (mask_of client mask)
        (masked client mask msg).payload
        s
      ≡ (if fin
          then done (record { opcode = opcode_after opcode msg; payload = sofar ++ msg.payload }) s
          else next (opcode_after opcode msg) (sofar ++ msg.payload) s)
unfolding store_frame
store_frame_lem msg false fin mask opcode sofar s m b = refl
store_frame_lem msg true fin mask opcode sofar s m b =
    rw (apply_mask_twice mask 0 msg.payload m b) refl
