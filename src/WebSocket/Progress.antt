-- ===== src/WebSocket/Progress.antt =====
-- That a round of `WSRecvMessage` of src/http/WSSession.cpp takes something off the stream, or spins only
-- where the connection does not last.
use routn.Base.{
  ℕ, ◌+◌, ◌-◌, ◌<◌, ◌≡◌, refl, Bool, true, false, List, [], ◌++◌, length, ◌==◌, if◌then◌else◌,
  arith, leb, not, ◌&&◌, ◌%◌, ◌^◌, inl, inr, Bool-cases,
}
use routn.Base.Bytes.{byteswap, from_le}
use routn.Stream.{
  Outcome, ok, overrun, spins, ◌>>=◌, is_positive, Read, write_fix_size, Written, read_fix_size,
}
use routn.Stream.Steady.{
  IsSteady, TakesSteadily, EndsRead, EndsWrite, read_loop-EndsRead, write_fix_size-EndsWrite,
}
use routn.Stream.Leaves.{left_on, Leaves, LeavesLess, any_read, first_read}
use routn.WebSocket.{
  WsFrameHead, Connection, write, ws_control, Step, next, done, broke, on_read, read_length,
  read_mask, read_payload, store_frame, read_data, data_frame, by_opcode, ws_round, head_of,
  head_bytes, control_head, close,
}

-- Both directions of the connection stay connected.
abbrev pub StaysConnected : Connection → Type 0
StaysConnected s = IsSteady s.input × TakesSteadily s.accepts

-- `P` says that the connection stays connected from the start of the round on; less than `m` is left.
abbrev pub Fine : Type 0 → ℕ → Connection → Type 0
Fine P m s = (left_on s.input < m) × (P → StaysConnected s)

-- A round goes on only with a connection that is fine, and spins only if the connection does not stay.
abbrev pub GoesOn : Type 0 → ℕ → Step → Type 0
GoesOn P m (next opcode payload s) = Fine P m s
GoesOn P m (done msg s) = Unit
GoesOn P m (broke s) = Unit

abbrev pub Below : Type 0 → ℕ → Outcome Step → Type 0
Below P m overrun = Unit
Below P m spins = ¬ P
Below P m (ok r) = GoesOn P m r

-- What follows a read.
abbrev pub on_result :
    Connection → (List ℕ → Connection → Outcome Step) → Outcome Read → Outcome Step
on_result s k o = o >>= (λ r.
    let s' = record s { input = r.2 } in if is_positive r.0 then k r.1 s' else ok (broke s'))

any_result :
    (P : Type 0) (m n : ℕ) (s : Connection) (k : List ℕ → Connection → Outcome Step)
    (o : Outcome Read)
    → Leaves n o
    → (P → EndsRead o)
    → n < m
    → (P → StaysConnected s)
    → ((xs : List ℕ) (s' : Connection) → Fine P m s' → Below P m (k xs s'))
    → Below P m (on_result s k o)
any_result P m n s k overrun l ends h c b = tt
any_result P m n s k spins l ends h c b = ends
any_result P m n s k (ok r) l ends h c b = elim (Bool-cases (is_positive r.0)) [
  | inl e ↦ rw e (b r.1 (record s { input = r.2 }) (omega (arith, l, h), (λ p. (ends p, (c p).1))))
  | inr e ↦ rw e tt
]

first_result :
    (P : Type 0) (m : ℕ) (s : Connection) (k : List ℕ → Connection → Outcome Step)
    (o : Outcome Read)
    → LeavesLess m o
    → (P → EndsRead o)
    → (P → StaysConnected s)
    → ((xs : List ℕ) (s' : Connection) → Fine P m s' → Below P m (k xs s'))
    → Below P m (on_result s k o)
first_result P m s k overrun l ends c b = tt
first_result P m s k spins l ends c b = ends
first_result P m s k (ok r) l ends c b = elim (Bool-cases (is_positive r.0)) [
  | inl e ↦ rw e (b r.1 (record s { input = r.2 }) (l e, (λ p. (ends p, (c p).1))))
  | inr e ↦ rw e tt
]

-- A write leaves the input, and the connection connected.
abbrev pub SameInput : Connection → Outcome (Bool × Connection) → Type 0
SameInput s overrun = Unit
SameInput s spins = ¬ TakesSteadily s.accepts
SameInput s (ok r) = (r.1.input ≡ s.input) × (TakesSteadily s.accepts → TakesSteadily r.1.accepts)

write-SameInput : (bytes : List ℕ) (s : Connection) → SameInput s (write bytes s)
unfolding write
write-SameInput bytes s =
    sent_result (write_fix_size s.accepts bytes) (write_fix_size-EndsWrite s.accepts bytes)
  where
    sent_result :
        (o : Outcome Written)
        → (TakesSteadily s.accepts → EndsWrite o)
        → SameInput s (
            o >>= (λ r. ok (is_positive r.0, record s { accepts = r.2; output = s.output ++ r.1 })))
    sent_result overrun h = tt
    sent_result spins h = h
    sent_result (ok r) h = (refl, h)

ws_control-SameInput : (opcode : ℕ) (s : Connection) → SameInput s (ws_control opcode s)
unfolding ws_control
ws_control-SameInput opcode s =
    closed_result _ (write-SameInput (head_bytes (control_head opcode)) s)
  where
    closed_result :
        (o : Outcome (Bool × Connection))
        → SameInput s o
        → SameInput s (o >>= (λ r. ok (if r.0 then r else (false, close r.1))))
    closed_result overrun h = tt
    closed_result spins h = h
    closed_result (ok (true, s')) h = h
    closed_result (ok (false, s')) h = h

module _ (P : Type 0) (m : ℕ) where
  on_read-Below :
      (n : ℕ) (s : Connection) (k : List ℕ → Connection → Outcome Step)
      → Fine P m s
      → ((xs : List ℕ) (s' : Connection) → Fine P m s' → Below P m (k xs s'))
      → Below P m (on_read n s k)
  unfolding read_fix_size
  on_read-Below n s k h b =
      any_result P m _ s k _ (any_read n n 0 n s.input [])
        (λ p. read_loop-EndsRead n n s.input 0 n [] (h.1 p).0) h.0 h.1 b

  read_payload-Below :
      (cur len : ℕ) (s : Connection) (k : List ℕ → Connection → Outcome Step)
      → Fine P m s
      → ((xs : List ℕ) (s' : Connection) → Fine P m s' → Below P m (k xs s'))
      → Below P m (read_payload cur len s k)
  read_payload-Below cur len s k h b =
      let room = (cur + len) % 2 ^ 64 - cur in
      any_result P m _ s k _ (any_read room len 0 len s.input [])
        (λ p. read_loop-EndsRead room len s.input 0 len [] (h.1 p).0) h.0 h.1 b

  read_mask-Below :
      (hd : WsFrameHead) (s : Connection) (k : List ℕ → Connection → Outcome Step)
      → Fine P m s
      → ((xs : List ℕ) (s' : Connection) → Fine P m s' → Below P m (k xs s'))
      → Below P m (read_mask hd s k)
  read_mask-Below hd s k h b = elim (Bool-cases hd.mask) [
    | inl e ↦ rw e (on_read-Below 4 s k h b)
    | inr e ↦ rw e (b _ s h)
  ]

  store_frame-GoesOn :
      (hd : WsFrameHead) (opcode : ℕ) (payload mask xs : List ℕ) (s : Connection)
      → Fine P m s
      → GoesOn P m (store_frame hd opcode payload mask xs s)
  unfolding store_frame
  store_frame-GoesOn hd opcode payload mask xs s h = elim (Bool-cases hd.fin) [
    | inl e ↦ rw e tt
    | inr e ↦ rw e h
  ]

  read_data-Below :
      (max_size : ℕ) (hd : WsFrameHead) (opcode : ℕ) (payload : List ℕ) (len : ℕ) (s : Connection)
      → Fine P m s
      → Below P m (read_data max_size hd opcode payload len s)
  unfolding read_data
  read_data-Below max_size hd opcode payload len s h =
      elim (Bool-cases (leb max_size ((length payload + len) % 2 ^ 64))) [
        | inl e ↦ rw e tt
        | inr e ↦
            let k = λ (mask : List ℕ) (xs : List ℕ) (s3 : Connection).
              ok (store_frame hd opcode payload mask xs s3) in
            rw e (
              read_mask-Below hd s (λ mask s2. read_payload (length payload) len s2 (k mask)) h
                (λ mask s2 h2.
                  read_payload-Below (length payload) len s2 (k mask) h2
                    (λ xs s3 h3. store_frame-GoesOn hd opcode payload mask xs s3 h3)))
      ]

  read_length-Below :
      (hd : WsFrameHead) (s : Connection) (k : ℕ → Connection → Outcome Step)
      → Fine P m s
      → ((n : ℕ) (s' : Connection) → Fine P m s' → Below P m (k n s'))
      → Below P m (read_length hd s k)
  read_length-Below hd s k h b = elim (Bool-cases (hd.payload == 126)) [
    | inl two ↦ rw two (
        on_read-Below 2 s (λ xs s'. k (byteswap 2 (from_le xs)) s') h
          (λ xs s' h'. b (byteswap 2 (from_le xs)) s' h'))
    | inr more ↦ elim (Bool-cases (hd.payload == 127)) [
      | inl eight ↦
          rw (more, eight)
            (on_read-Below 8 s (λ xs s'. k (byteswap 8 (from_le xs)) s') h
              (λ xs s' h'. b (byteswap 8 (from_le xs)) s' h'))
      | inr small ↦ rw (more, small) (b hd.payload s h)
    ]
  ]

  data_frame-Below :
      (client : Bool) (max_size opcode : ℕ) (payload : List ℕ) (hd : WsFrameHead) (s : Connection)
      → Fine P m s
      → Below P m (data_frame client max_size opcode payload hd s)
  unfolding data_frame
  data_frame-Below client max_size opcode payload hd s h =
      elim (Bool-cases (not client && not hd.mask)) [
        | inl e ↦ rw e tt
        | inr e ↦ rw e (
            read_length-Below hd s (read_data max_size hd opcode payload) h
              (λ n s' h'. read_data-Below max_size hd opcode payload n s' h'))
      ]

  pong_result :
      (opcode : ℕ) (payload : List ℕ) (s : Connection) (o : Outcome (Bool × Connection))
      → Fine P m s
      → SameInput s o
      → Below P m (o >>= (λ r. ok (if r.0 then next opcode payload r.1 else broke r.1)))
  pong_result opcode payload s overrun h same = tt
  pong_result opcode payload s spins h same = λ p. same (h.1 p).1
  pong_result opcode payload s (ok (true, s')) h (e, takes) =
      let same : s'.input ≡ s.input = e in
      (rw same h.0, (λ p. (rw same (h.1 p).0, takes (h.1 p).1)))
  pong_result opcode payload s (ok (false, s')) h same = tt

  by_opcode-Below :
      (client : Bool) (max_size opcode : ℕ) (payload : List ℕ) (hd : WsFrameHead) (s : Connection)
      → Fine P m s
      → Below P m (by_opcode client max_size opcode payload hd s)
  unfolding by_opcode
  by_opcode-Below client max_size opcode payload hd s h = elim (Bool-cases (hd.opcode == 9)) [
    | inl ping ↦ rw ping (pong_result opcode payload s _ h (ws_control-SameInput 10 s))
    | inr e ↦ rw e (elim (Bool-cases (leb hd.opcode 2)) [
      | inl data_ ↦ rw data_ (data_frame-Below client max_size opcode payload hd s h)
      | inr more ↦ rw more h
    ])
  ]

pub ws_round-Below :
    (client : Bool) (max_size opcode : ℕ) (payload : List ℕ) (s : Connection)
    → Below (StaysConnected s) (left_on s.input) (ws_round client max_size opcode payload s)
unfolding ws_round read_fix_size
ws_round-Below client max_size opcode payload s =
    let P : Type 0 = StaysConnected s in
    first_result P (left_on s.input) s _ _ (first_read 2 1 s.input)
      (λ p. read_loop-EndsRead 2 2 s.input 0 2 [] p.0) (λ p. p)
      (λ xs s' h.
        by_opcode-Below P (left_on s.input) client max_size opcode payload (head_of xs) s' h)
