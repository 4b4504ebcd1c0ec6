-- ===== src/WebSocket/Empty.antt =====
-- Empty messages on both sides of src/http/WSSession.cpp: the result 0 of a read or write of no bytes
-- counts as a failure.
use mathlib.Core.List.{append-nil, append_assoc}
use routn.Base.{
  ℕ, zero, suc, ◌-◌, ◌^◌, ◌≤◌, ◌<◌, ◌≡◌, refl, ap, ◌∙◌, Bool, true, false, not, none, List, [], ◌∷◌,
  ◌++◌, length, leb, if◌then◌else◌, arith,
}
use routn.Base.Bytes.{le_bytes, length-le_bytes}
use routn.Stream.{
  Outcome, ok, ◌>>=◌, Answer, got, read_fails, read_disconnected, Accept, took, write_fails,
  write_disconnected, read_loop, write_loop, write_fix_size,
}
use routn.Stream.Whole.{bytes, IsOpen}
use routn.WebSocket.{
  WsFrameHead, WsFrameMessage, Connection, read_payload, head_bytes, head_of, head_for, apply_mask,
  write, ws_send_message, send_mask, send_data, send_length, close, Step, broke, store_frame,
  read_mask, read_data, data_frame, by_opcode, ws_round, received, ws_recv_loop, ws_recv_message,
}
use routn.WebSocket.Frames.{
  Takes, sent_on, write_lem, read_lem, head_of-head_bytes, length_bytes_short,
}
use routn.WebSocket.Parts.{from_input, mask_of, read_length_lem, read_mask_lem}
use routn.WebSocket.Round.{mask_suits, by_opcode_lem}

write_fix_size_none : (accepts : List Accept) → write_fix_size accepts [] ≡ ok (0, [], accepts)
unfolding write_fix_size write_loop
write_fix_size_none [] = refl
write_fix_size_none (write_fails ∷ rest) = refl
write_fix_size_none (write_disconnected ∷ rest) = refl
write_fix_size_none (took zero ∷ rest) = refl
write_fix_size_none (took (suc k) ∷ rest) = refl

read_loop_none : (input : List Answer) → read_loop 0 0 input 0 0 [] ≡ ok (0, [], input)
unfolding read_loop
read_loop_none [] = refl
read_loop_none (read_fails ∷ rest) = refl
read_loop_none (read_disconnected ∷ rest) = refl
read_loop_none (got [] ∷ rest) = refl
read_loop_none (got (x ∷ xs) ∷ rest) = refl

write_none : (s : Connection) → write [] s ≡ ok (false, s)
unfolding write
write_none s = rw (write_fix_size_none s.accepts, ◌>>=◌, append-nil s.output) refl

-- On a stream that takes the head and the mask, `WSSendMessage` of a message with no data sends them,
-- closes the stream and returns -1.
pub ws_send_message_empty :
    (junk rand_val opcode : ℕ) (client fin : Bool) (s : Connection)
    → (let msg : WsFrameMessage = record { opcode = opcode; payload = [] } in
        let sent =
          head_bytes (head_for msg client fin) ++ (if client then le_bytes 4 rand_val else []) in
        Takes (length sent) s
        → (accepts : List Accept) × (ws_send_message junk rand_val msg client fin s
            ≡ ok (
              record s { accepts = accepts; output = s.output ++ sent; closed = true },
              msg,
              2 ^ 32 - 1,
            )))
unfolding ws_send_message send_length send_mask send_data apply_mask
ws_send_message_empty junk rand_val opcode false fin s t =
    let msg : WsFrameMessage = record { opcode = opcode; payload = [] } in
    let head = head_bytes (head_for msg false fin) in
    let (a, r, t') = write_lem 0 head s (omega arith) (omega arith) (t.0, omega (arith, t.1)) in
    (a, rw (r, ◌>>=◌, write_none (sent_on head a s), ◌>>=◌) refl)
ws_send_message_empty junk rand_val opcode true fin s t =
    let msg : WsFrameMessage = record { opcode = opcode; payload = [] } in
    let head = head_bytes (head_for msg true fin) in
    let mask = le_bytes 4 rand_val in
    let four = length-le_bytes 4 rand_val in
    let (a, r, t') =
      write_lem 4 head s (omega arith) (omega arith) (t.0, omega (arith, t.1, four)) in
    let (b, r', t'') =
      write_lem 0 mask (sent_on head a s) (omega (arith, four)) (omega (arith, four))
        (t'.0, omega (arith, t'.1, four)) in
    (
      b,
      rw
          (
            r,
            ◌>>=◌,
            r',
            ◌>>=◌,
            write_none (sent_on mask b (sent_on head a s)),
            ◌>>=◌,
            append_assoc s.output head mask,
          )
          refl,
    )

-- A read of no bytes ends the round, once the mask has been read.
read_data_none :
    (max_size : ℕ) (h : WsFrameHead) (mask : List ℕ) (s : Connection) (input : List Answer)
    → 0 < max_size
    → ((k : List ℕ → Connection → Outcome Step) → read_mask h s k ≡ k mask (from_input s input))
    → read_data max_size h 0 [] 0 s ≡ ok (broke (from_input s input))
unfolding read_data
read_data_none max_size h mask s input h1 r =
    let fits : leb max_size 0 ≡ false = ground arith in
    let stored = λ (m : List ℕ) (xs : List ℕ) (s3 : Connection). ok (store_frame h 0 [] m xs s3) in
    rw (fits, read_data)
      (r (λ m s2. read_payload 0 0 s2 (stored m)) ∙ rw (read_loop_none input, ◌>>=◌) refl)

-- A connection that brings a frame with no data makes `WSRecvMessage` close it and return no message.
pub ws_recv_message_empty :
    (fuel max_size rand_val opcode : ℕ) (client fin : Bool) (ys : List ℕ) (s : Connection)
    → opcode ≤ 2
    → 0 < max_size
    → IsOpen s.input
    → (let msg : WsFrameMessage = record { opcode = opcode; payload = [] } in
        bytes s.input
          ≡ head_bytes (head_for msg client fin)
            ++ ((if client then le_bytes 4 rand_val else []) ++ ys)
        → (s' : Connection) × (ws_recv_message (suc fuel) (not client) max_size s
            ≡ ok (received none s'))
          × (s'.closed ≡ true)
          × (bytes s'.input ≡ ys))
unfolding ws_recv_message ws_recv_loop ws_round data_frame
ws_recv_message_empty fuel max_size rand_val opcode client fin ys s h1 h2 o e =
    let msg : WsFrameMessage = record { opcode = opcode; payload = [] } in
    let mask = le_bytes 4 rand_val in
    let h = head_for msg client fin in
    let rest = (if client then mask else []) ++ ys in
    let (i1, r1, o1, b1) = read_lem (head_bytes h) rest s o e (omega arith) (omega arith) in
    let head : head_of (head_bytes h) ≡ h = head_of-head_bytes h (omega arith) (omega arith) in
    let s1 = from_input s i1 in
    let none_more = length_bytes_short 0 0 refl in
    let (i2, r2, b2) =
      read_length_lem 0 msg client fin rest s1 (omega arith) (o1, rw none_more b1) in
    let (i3, r3, b3) =
      read_mask_lem msg client fin mask ys (from_input s i2) (length-le_bytes 4 rand_val) b2 in
    let s3 = from_input s i3 in
    let stop : read_data max_size h 0 [] 0 (from_input s i2) ≡ ok (broke s3) =
      read_data_none max_size h (mask_of client mask) (from_input s i2) i3 h2 r3 in
    let round : ws_round (not client) max_size 0 [] s ≡ ok (broke s3) =
      r1 (λ xs s'. by_opcode (not client) max_size 0 [] (head_of xs) s')
      ∙ ap (λ (h' : WsFrameHead). by_opcode (not client) max_size 0 [] h' s1) head
      ∙ by_opcode_lem (not client) max_size 0 [] msg client fin s1 h1
      ∙ rw (mask_suits client, data_frame) (r2 (read_data max_size h 0 []) ∙ stop) in
    (close s3, rw (round, ◌>>=◌) refl, refl, b3.1)
