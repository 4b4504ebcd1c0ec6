-- ===== src/WebSocket/RoundTrip.antt =====
-- `WSRecvMessage` of src/http/WSSession.cpp returns what `WSSendMessage` on the other side sends, in one
-- frame or in several.
use mathlib.Core.List.{append_assoc}
use routn.Base.{
  ℕ, zero, suc, ◌+◌, ◌^◌, ◌≤◌, ◌<◌, ◌≡◌, refl, ◌∙◌, Bool, true, false, not, some, List, [], ◌∷◌,
  ◌++◌, length, arith, length-append,
}
use routn.Base.Bytes.{le_bytes}
use routn.Stream.{ok, ◌>>=◌, Answer}
use routn.WebSocket.{
  WsFrameMessage, Connection, masked, ws_send_message, received, ws_recv_loop, ws_recv_message,
}
use routn.WebSocket.Frames.{frame_bytes, Takes, ws_send_message_result}
use routn.WebSocket.Parts.{Brings, from_input, opcode_after}
use routn.WebSocket.Round.{IsShort, ws_round_frame}

-- A frame of a fragmented message: the length without a value and the random number that its call of
-- `WSSendMessage` has, and its part of the message.
pub record Fragment : Type 0 where
  pub junk : ℕ
  pub rand_val : ℕ
  pub part : WsFrameMessage

-- The last frame ends the message; each has a mask of its own.
abbrev pub all_frames : Fragment → List Fragment → Bool → List ℕ
all_frames m [] client = frame_bytes m.junk m.rand_val m.part client true
all_frames m (m' ∷ ms) client =
    frame_bytes m.junk m.rand_val m.part client false ++ all_frames m' ms client

abbrev pub AllShort : ℕ → ℕ → Fragment → List Fragment → Type 0
AllShort max_size n m [] = IsShort max_size n m.part
AllShort max_size n m (m' ∷ ms) =
    IsShort max_size n m.part × AllShort max_size (n + length m.part.payload) m' ms

abbrev pub all_payload : Fragment → List Fragment → List ℕ
all_payload m [] = m.part.payload
all_payload m (m' ∷ ms) = m.part.payload ++ all_payload m' ms

abbrev pub opcode_of : ℕ → Fragment → List Fragment → ℕ
opcode_of opcode m [] = opcode_after opcode m.part
opcode_of opcode m (m' ∷ ms) = opcode_of (opcode_after opcode m.part) m' ms

ws_recv_loop_lem :
    (fuel max_size : ℕ) (m : Fragment) (ms : List Fragment) (client : Bool) (opcode : ℕ)
    (sofar ys : List ℕ) (s : Connection)
    → length (m ∷ ms) ≤ fuel
    → max_size < 2 ^ 31
    → AllShort max_size (length sofar) m ms
    → Brings (all_frames m ms client ++ ys) s
    → (input : List Answer) × (ws_recv_loop fuel (not client) max_size opcode sofar s
        ≡ ok (
            received
              (some
                (record { opcode = opcode_of opcode m ms; payload = sofar ++ all_payload m ms }))
              (from_input s input)))
      × Brings ys (from_input s input)
unfolding ws_recv_loop
ws_recv_loop_lem zero max_size m ms client opcode sofar ys s f mx short b = absurd (omega arith)
ws_recv_loop_lem (suc fuel) max_size m [] client opcode sofar ys s f mx short b =
    let (i, r, b') =
      ws_round_frame max_size m.junk m.rand_val m.part client true opcode sofar ys s mx short b in
    (i, rw (r, ◌>>=◌) refl, b')
ws_recv_loop_lem (suc fuel) max_size m (m' ∷ ms) client opcode sofar ys s f mx short (o, b) =
    let more = all_frames m' ms client in
    let split = append_assoc (frame_bytes m.junk m.rand_val m.part client false) more ys in
    let (i, r, b') =
      ws_round_frame max_size m.junk m.rand_val m.part client false opcode sofar (more ++ ys) s mx
        short.0 (o, b ∙ split) in
    let len : length (sofar ++ m.part.payload) ≡ length sofar + length m.part.payload =
      length-append sofar m.part.payload in
    let (i', r', b'') =
      ws_recv_loop_lem fuel max_size m' ms client (opcode_after opcode m.part)
        (sofar ++ m.part.payload) ys (from_input s i) (omega arith) mx (rw len short.1) b' in
    (i', rw (r, ◌>>=◌, r', append_assoc sofar m.part.payload (all_payload m' ms)) refl, b'')

-- `WSRecvMessage` of a server on the frames of a client, each with a mask of its own, or of a client on
-- those of a server, that fragment a message returns the message, whatever the calls divide the bytes
-- into: its data are those of the frames in order, its opcode is the first that is not 0, and the bytes
-- behind it are left. The frames have an opcode of at most 2 and hold at least one and less than 65536
-- bytes, all data stay below the greatest size, which is below 2^31, and one round for each frame is
-- enough.
pub ws_recv_message_result :
    (fuel max_size : ℕ) (m : Fragment) (ms : List Fragment) (client : Bool) (ys : List ℕ)
    (s : Connection)
    → length (m ∷ ms) ≤ fuel
    → max_size < 2 ^ 31
    → AllShort max_size 0 m ms
    → Brings (all_frames m ms client ++ ys) s
    → (input : List Answer) × (ws_recv_message fuel (not client) max_size s
        ≡ ok (
            received
              (some (record { opcode = opcode_of 0 m ms; payload = all_payload m ms }))
              (from_input s input)))
      × Brings ys (from_input s input)
unfolding ws_recv_message
ws_recv_message_result fuel max_size m ms client ys s f mx short b =
    ws_recv_loop_lem fuel max_size m ms client 0 [] ys s f mx short b

-- What `WSSendMessage` sends of a whole message (`fin` is true) with an opcode of at most 2 and at least one
-- and less than 65536 bytes, on a stream that takes it, `WSRecvMessage` on the other side reads as that
-- message, whatever the calls divide the bytes into, and leaves the bytes behind it; two bytes of head are
-- counted in the sender's result. The message is shorter than the receiver's greatest size, which is below
-- 2^31.
pub recv-send :
    (max_size junk rand_val : ℕ) (msg : WsFrameMessage) (client : Bool) (ys : List ℕ)
    (s r : Connection)
    → max_size < 2 ^ 31
    → IsShort max_size 0 msg
    → Takes (length (frame_bytes junk rand_val msg client true)) s
    → Brings (frame_bytes junk rand_val msg client true ++ ys) r
    → (s' : Connection) × (msg' : WsFrameMessage) × (r' : Connection) × (ws_send_message junk
          rand_val msg client true s
        ≡ ok (s', msg', length msg.payload + 2))
      × (s'.output ≡ s.output ++ frame_bytes junk rand_val msg client true)
      × (ws_recv_message 1 (not client) max_size r ≡ ok (received (some msg) r'))
      × Brings ys r'
recv-send max_size junk rand_val msg client ys s r mx short t b =
    let (h1, h2, h3, h4, h5) = short in
    let (accepts, sent, ready) =
      ws_send_message_result junk rand_val msg client true s h2 (omega (arith, h3)) t in
    let whole : Fragment = record { junk = junk; rand_val = rand_val; part = msg } in
    let (input, got, b') =
      ws_recv_message_result 1 max_size whole [] client ys r (omega arith) mx short b in
    let same : opcode_after 0 msg ≡ msg.opcode = ground arith in
    (
      record s {
        accepts = accepts;
        output = s.output ++ frame_bytes junk rand_val msg client true;
      },
      masked client (le_bytes 4 rand_val) msg,
      from_input r input,
      sent,
      refl,
      got ∙ rw same refl,
      b',
    )
