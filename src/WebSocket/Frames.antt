-- ===== src/WebSocket/Frames.antt =====
-- What `WSSendMessage` of src/http/WSSession.cpp puts on a stream, and what a round of `WSRecvMessage`
-- makes of it.
use mathlib.Core.List.{append_assoc}
use routn.Base.{
  ℕ, zero, suc, ◌+◌, ◌%◌, ◌^◌, ◌≤◌, ◌<◌, ◌≡◌, refl, ap, ◌∙◌, Bool, true, false, none, some, List,
  [], ◌∷◌, ◌++◌, length, get_elem?, take, drop, All, ltb, if◌then◌else◌, arith, Bool-cases, inl,
  inr, length-append, take-length-append, drop-length-append,
}
use routn.Base.Bytes.{le_bytes, byteswap, IsByte, length-le_bytes}
use routn.Base.Bits.{xor_twice}
use routn.Stream.{Outcome, ok, ◌>>=◌, Answer, Accept, int, is_positive}
use routn.Stream.Whole.{bytes, IsOpen, IsReady, read_fix_size_whole, write_fix_size_whole}
use routn.WebSocket.{
  WsFrameHead, WsFrameMessage, Connection, Sent, head_bytes, head_of, head_for, length_bytes,
  masked, apply_mask, write, send_data, send_mask, send_length, ws_send_message, Step, on_read,
}

-- All that goes out for a message.
abbrev pub frame_bytes : ℕ → ℕ → WsFrameMessage → Bool → Bool → List ℕ
frame_bytes junk rand_val msg client fin =
    let mask = le_bytes 4 rand_val in
    head_bytes (head_for msg client fin)
    ++ (length_bytes junk (length msg.payload)
        ++ ((if client then mask else []) ++ (masked client mask msg).payload))

int_positive : (n : ℕ) → 0 < n → n < 2 ^ 31 → is_positive (int n) ≡ true
int_positive n h1 h2 = let e : int n ≡ n = omega arith in rw e (ground arith)

-- The stream takes at least so many bytes.
abbrev pub Takes : ℕ → Connection → Type 0
Takes n s = IsReady s.accepts × (n ≤ length s.accepts)

abbrev pub sent_on : List ℕ → List Accept → Connection → Connection
sent_on xs accepts s = record s { accepts = accepts; output = s.output ++ xs }

pub write_lem :
    (n : ℕ) (xs : List ℕ) (s : Connection)
    → 0 < length xs
    → length xs < 2 ^ 31
    → Takes (length xs + n) s
    → (accepts : List Accept) × (write xs s ≡ ok (true, sent_on xs accepts s))
      × Takes n (sent_on xs accepts s)
unfolding write
write_lem n xs s h1 h2 (ready, enough) =
    let (accepts, r, ready', left) = write_fix_size_whole xs s.accepts ready (omega arith) in
    (accepts, rw (r, ◌>>=◌, int_positive (length xs) h1 h2) refl, (ready', omega arith))

pub read_lem :
    (xs ys : List ℕ) (s : Connection)
    → IsOpen s.input
    → bytes s.input ≡ xs ++ ys
    → 0 < length xs
    → length xs < 2 ^ 31
    → (input : List Answer) × ((k : List ℕ → Connection → Outcome Step)
        → on_read (length xs) s k ≡ k xs (record s { input = input }))
      × IsOpen input
      × (bytes input ≡ ys)
read_lem xs ys s o e h1 h2 =
    let enough : length xs ≤ length (bytes s.input) =
      omega (arith, ap length e, length-append xs ys) in
    let (input, r, b, o') = read_fix_size_whole (length xs) s.input o enough in
    let these : take (length xs) (bytes s.input) ≡ xs = rw e (take-length-append xs ys) in
    let those : drop (length xs) (bytes s.input) ≡ ys = rw e (drop-length-append xs ys) in
    (input, λ k. rw (r, ◌>>=◌, int_positive (length xs) h1 h2, these) refl, o', b ∙ those)

mask-lt :
    (mask : List ℕ) (i : ℕ)
    → All IsByte mask
    → (elim (get_elem? mask i) [ none ↦ 0 | some m ↦ m ]) < 256
mask-lt [] i h = omega arith
mask-lt (x ∷ xs) zero h = h.0
mask-lt (x ∷ xs) (suc i) h = mask-lt xs i h.1

pub apply_mask_twice :
    (mask : List ℕ) (i : ℕ) (xs : List ℕ)
    → All IsByte mask
    → All IsByte xs
    → apply_mask mask i (apply_mask mask i xs) ≡ xs
unfolding apply_mask
apply_mask_twice mask i [] hm h = refl
apply_mask_twice mask i (x ∷ xs) hm h =
    let m : ℕ = elim (get_elem? mask (i % 4)) [ none ↦ 0 | some m ↦ m ] in
    rw (xor_twice 8 x m h.0 (mask-lt mask (i % 4) hm))
      (ap (◌∷◌ x) (apply_mask_twice mask (suc i) xs hm h.1))

pub length-apply_mask :
    (mask : List ℕ) (i : ℕ) (xs : List ℕ) → length (apply_mask mask i xs) ≡ length xs
unfolding apply_mask
length-apply_mask mask i [] = refl
length-apply_mask mask i (x ∷ xs) = ap suc (length-apply_mask mask (suc i) xs)

pub head_of-head_bytes :
    (h : WsFrameHead) → h.opcode < 16 → h.payload < 128 → head_of (head_bytes h) ≡ h
head_of-head_bytes h h1 h2 = elim (Bool-cases h.fin) [
  | inl f ↦ elim (Bool-cases h.mask) [ inl m ↦ ground arith | inr m ↦ ground arith ]
  | inr f ↦ elim (Bool-cases h.mask) [ inl m ↦ ground arith | inr m ↦ ground arith ]
]

-- A part of `WSSendMessage` sends the bytes, and the message is then `msg`.
abbrev Sends : List ℕ → WsFrameMessage → Connection → Outcome Sent → Type 0
Sends xs msg s r =
    (accepts : List Accept) × (r ≡ ok (sent_on xs accepts s, msg, length msg.payload + 2))
    × IsReady accepts

Sends-append :
    (xs ys : List ℕ) (accepts : List Accept) (msg : WsFrameMessage) (s : Connection)
    (r : Outcome Sent)
    → Sends ys msg (sent_on xs accepts s) r
    → Sends (xs ++ ys) msg s r
Sends-append xs ys accepts msg s r (accepts', e, ready) =
    (accepts', e ∙ rw (append_assoc s.output xs ys) refl, ready)

Sends-result :
    (xs : List ℕ) (msg : WsFrameMessage) (s : Connection) (r : Outcome Sent) (n : ℕ)
    → length msg.payload ≡ n
    → Sends xs msg s r
    → (accepts : List Accept) × (r ≡ ok (sent_on xs accepts s, msg, n + 2)) × IsReady accepts
Sends-result xs msg s r n e (accepts, q, ready) = (accepts, q ∙ rw e refl, ready)

send_data_lem :
    (msg : WsFrameMessage) (s : Connection)
    → 0 < length msg.payload
    → length msg.payload < 2 ^ 31
    → Takes (length msg.payload) s
    → Sends msg.payload msg s (send_data msg s)
unfolding send_data
send_data_lem msg s h1 h2 (ready, enough) =
    let (accepts, r, (ready', left)) = write_lem 0 msg.payload s h1 h2 (ready, omega arith) in
    let small : (length msg.payload + 2) % 2 ^ 32 ≡ length msg.payload + 2 = omega arith in
    (accepts, rw (r, ◌>>=◌, small) refl, ready')

send_mask_lem :
    (client : Bool) (mask : List ℕ) (msg : WsFrameMessage) (s : Connection)
    → 0 < length mask
    → length mask < 2 ^ 31
    → 0 < length msg.payload
    → length msg.payload < 2 ^ 31
    → Takes (length ((if client then mask else []) ++ msg.payload)) s
    → Sends ((if client then mask else []) ++ msg.payload) msg s (send_mask client mask msg s)
unfolding send_mask
send_mask_lem false mask msg s m1 m2 h1 h2 t = send_data_lem msg s h1 h2 t
send_mask_lem true mask msg s m1 m2 h1 h2 (ready, enough) =
    let (accepts, r, t) =
      write_lem (length msg.payload) mask s m1 m2
        (ready, omega (arith, length-append mask msg.payload)) in
    Sends-append mask msg.payload accepts msg s (send_mask true mask msg s)
      (rw (r, ◌>>=◌, send_mask) (send_data_lem msg (sent_on mask accepts s) h1 h2 t))

pub length_bytes_short : (junk size : ℕ) → ltb size 126 ≡ true → length_bytes junk size ≡ []
unfolding length_bytes
length_bytes_short junk size h = rw h refl

length-length_bytes :
    (junk size : ℕ)
    → ltb size 126 ≡ false
    → (0 < length (length_bytes junk size)) × (length (length_bytes junk size) < 2 ^ 31)
unfolding length_bytes
length-length_bytes junk size h = elim (Bool-cases (ltb size 65536)) [
  | inl two ↦ rw (h, two, length-le_bytes 2 (byteswap 2 size)) (omega arith)
  | inr eight ↦ rw (h, eight, length-le_bytes 8 (byteswap 8 junk)) (omega arith)
]

send_length_lem :
    (junk : ℕ) (client : Bool) (mask : List ℕ) (msg msg' : WsFrameMessage) (s : Connection)
    → 0 < length mask
    → length mask < 2 ^ 31
    → 0 < length msg'.payload
    → length msg'.payload < 2 ^ 31
    → (let tail = (if client then mask else []) ++ msg'.payload in
        Takes (length (length_bytes junk (length msg.payload) ++ tail)) s
        → Sends
            (length_bytes junk (length msg.payload) ++ tail)
            msg'
            s
            (send_length junk client mask msg msg' s))
unfolding send_length
send_length_lem junk client mask msg msg' s m1 m2 h1 h2 t =
    elim (Bool-cases (ltb (length msg.payload) 126)) [
      | inl short ↦
          let none_more = length_bytes_short junk (length msg.payload) short in
          rw (short, none_more) (send_mask_lem client mask msg' s m1 m2 h1 h2 (rw none_more at t))
      | inr long ↦
          let tail = (if client then mask else []) ++ msg'.payload in
          let field = length_bytes junk (length msg.payload) in
          let (f1, f2) = length-length_bytes junk (length msg.payload) long in
          let (accepts, r, t') =
            write_lem (length tail) field s f1 f2
              (t.0, omega (arith, t.1, length-append field tail)) in
          Sends-append field tail accepts msg' s (send_length junk client mask msg msg' s) (
            rw (long, r, ◌>>=◌, send_length)
              (send_mask_lem client mask msg' (sent_on field accepts s) m1 m2 h1 h2 t'))
    ]

pub length-masked :
    (client : Bool) (mask : List ℕ) (msg : WsFrameMessage)
    → length (masked client mask msg).payload ≡ length msg.payload
length-masked false mask msg = refl
length-masked true mask msg = length-apply_mask mask 0 msg.payload

-- On a stream that takes as many bytes as the frame has, `WSSendMessage` of a message that is not empty
-- and shorter than 2^31 sends its frame and returns the length of the data and 2; a client's message is
-- masked then.
pub ws_send_message_result :
    (junk rand_val : ℕ) (msg : WsFrameMessage) (client fin : Bool) (s : Connection)
    → 0 < length msg.payload
    → length msg.payload < 2 ^ 31
    → Takes (length (frame_bytes junk rand_val msg client fin)) s
    → (accepts : List Accept) × (ws_send_message junk rand_val msg client fin s
        ≡ ok (
          record s {
            accepts = accepts;
            output = s.output ++ frame_bytes junk rand_val msg client fin;
          },
          masked client (le_bytes 4 rand_val) msg,
          length msg.payload + 2,
        ))
      × IsReady accepts
unfolding ws_send_message
ws_send_message_result junk rand_val msg client fin s h1 h2 t =
    let mask = le_bytes 4 rand_val in
    let msg' = masked client mask msg in
    let head = head_bytes (head_for msg client fin) in
    let tail =
      length_bytes junk (length msg.payload) ++ ((if client then mask else []) ++ msg'.payload) in
    let same : length msg'.payload ≡ length msg.payload = length-masked client mask msg in
    let four = length-le_bytes 4 rand_val in
    let (accepts, r, t') =
      write_lem (length tail) head s (omega arith) (omega arith) (t.0, omega (arith, t.1)) in
    Sends-result (head ++ tail) msg' s (ws_send_message junk rand_val msg client fin s)
      (length msg.payload) same
      (Sends-append head tail accepts msg' s (ws_send_message junk rand_val msg client fin s) (
        rw (r, ◌>>=◌, ws_send_message)
          (send_length_lem junk client mask msg msg' (sent_on head accepts s) (omega (arith, four))
            (omega (arith, four)) (omega (arith, same)) (omega (arith, same)) t')))
