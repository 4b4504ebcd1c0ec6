-- ===== src/WebSocket/Tests.antt =====
-- The properties of WebSocket messages at messages of two bytes.
use mathlib.Core.List.{append-nil}
use routn.Base.{ℕ, ◌-◌, ◌^◌, ◌≡◌, true, false, some, List, [], ◌∷◌, ◌++◌, replicate, arith}
use routn.Base.Bytes.{le_bytes}
use routn.Stream.{ok, Answer, got, Accept, took}
use routn.WebSocket.{
  WsFrameMessage, Connection, apply_mask, length_bytes, ws_send_message, received, ws_recv_message,
}
use routn.WebSocket.Frames.{frame_bytes}
use routn.WebSocket.Parts.{Brings}
use routn.WebSocket.RoundTrip.{Fragment, all_frames, ws_recv_message_result, recv-send}
use routn.WebSocket.Empty.{ws_send_message_empty}

abbrev text : WsFrameMessage
text = record { opcode = 1; payload = 104 ∷ 105 ∷ [] }

abbrev more : WsFrameMessage
more = record { opcode = 0; payload = 33 ∷ [] }

abbrev sender : Connection
sender = record { input = []; accepts = replicate 16 (took 1); output = []; closed = false }

abbrev bringing : List ℕ → Connection
bringing xs = record { input = got xs ∷ []; accepts = []; output = []; closed = false }

recv-send_example :
    (s' : Connection) × (msg' : WsFrameMessage) × (r' : Connection) × (ws_send_message 0 7 text true
        true sender
      ≡ ok (s', msg', 4))
    × (s'.output ≡ [] ++ frame_bytes 0 7 text true true)
    × (ws_recv_message 1 false 1000 (bringing (frame_bytes 0 7 text true true ++ (9 ∷ [])))
        ≡ ok (received (some text) r'))
    × Brings (9 ∷ []) r'
unfolding length_bytes le_bytes apply_mask
recv-send_example =
    recv-send 1000 0 7 text true (9 ∷ []) sender
      (bringing (frame_bytes 0 7 text true true ++ (9 ∷ []))) (omega arith) (omega arith)
      (tt, omega arith) (tt, append-nil (frame_bytes 0 7 text true true ++ (9 ∷ [])))

-- Frames with different masks.
abbrev fragment : ℕ → WsFrameMessage → Fragment
fragment rand_val m = record { junk = 0; rand_val = rand_val; part = m }

abbrev fragments : List ℕ
fragments = all_frames (fragment 7 text) (fragment 1000 more ∷ []) true ++ (9 ∷ [])

ws_recv_message_result_example :
    (input : List Answer) × (ws_recv_message 2 false 1000 (bringing fragments)
      ≡ ok (
          received
            (some (record { opcode = 1; payload = 104 ∷ 105 ∷ 33 ∷ [] }))
            (record (bringing fragments) { input = input })))
    × Brings (9 ∷ []) (record (bringing fragments) { input = input })
unfolding length_bytes
ws_recv_message_result_example =
    ws_recv_message_result 2 1000 (fragment 7 text) (fragment 1000 more ∷ []) true (9 ∷ [])
      (bringing fragments) (omega arith) (omega arith) (omega arith) (tt, append-nil fragments)

ws_send_message_empty_example :
    (accepts : List Accept) × (ws_send_message 0 7
        (record { opcode = 1; payload = [] })
        false
        true
        sender
      ≡ ok (
        record sender { accepts = accepts; output = [] ++ (129 ∷ 0 ∷ []); closed = true },
        record { opcode = 1; payload = [] },
        2 ^ 32 - 1,
      ))
ws_send_message_empty_example = ws_send_message_empty 0 7 1 false true sender (omega arith)
