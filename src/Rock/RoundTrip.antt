-- ===== src/Rock/RoundTrip.antt =====
-- The messages of src/rpc/RockProtocol.cpp: what `toByteArray` makes, `parseFrom` takes apart.
use mathlib.Core.List.{append_assoc}
use mathlib.Core.Path.{subst}
use routn.Base.{ℕ, ◌^◌, ◌<◌, ◌≡◌, refl, ap, ◌∙◌, some, List, ◌++◌, length, arith}
use routn.Base.Bytes.{le_bytes}
use routn.ByteArray.{ByteArray, byte_array, Endian, big, ok, ◌>>=◌, set_position}
use routn.ByteArray.Invariant.{IsValid, byte_array-IsValid}
use routn.ByteArray.Ahead.{ahead, rewind}
use routn.ByteArray.Codec.{write_fuint8, read_fuint8, write_uint32, read_uint32, groups}
use routn.ByteArray.Text.{write_string_f32, read_string_f32, write_string_vint, read_string_vint}
use routn.ByteArray.RoundTrip.{Decodes, uint32-Decodes}
use routn.Rock.{
  RockRequest, RockResponse, RockNotify, Message, request, response, notify, get_type,
  serialize_request, serialize_response, serialize_notify, serialize, to_byte_array, parse_request,
  parse_response, parse_notify, parse_typed, parse_from, caught,
}
use routn.Rock.Compose.{
  Stores, Stores-then, Decodes-then, Decodes-done, fuint8-Stores, fuint8-Decodes, uint32-Stores,
  f32_bytes, vint_bytes, f32-Stores, f32-Decodes, vint-Stores, vint-Decodes,
}

-- The fields fit their types, and the texts are not empty.
abbrev pub Fits : Message → Type 0
Fits (request r) =
    (r.sn < 2 ^ 32) × (r.cmd < 2 ^ 32) × (0 < length r.body) × (length r.body < 2 ^ 32)
Fits (response r) =
    (r.sn < 2 ^ 32)
    × (r.cmd < 2 ^ 32)
    × (r.result < 2 ^ 32)
    × (0 < length r.res_str)
    × (length r.res_str < 2 ^ 32)
    × (0 < length r.body)
    × (length r.body < 2 ^ 32)
Fits (notify n) = (n.notify < 2 ^ 32) × (0 < length n.body) × (length n.body < 2 ^ 32)

-- The bytes of a message behind its type.
abbrev payload : Message → Endian → List ℕ
payload (request r) o = groups 4 r.sn ++ (groups 4 r.cmd ++ f32_bytes r.body o)
payload (response r) o =
    groups 4 r.sn
    ++ (groups 4 r.cmd ++ (groups 4 r.result ++ (vint_bytes r.res_str ++ f32_bytes r.body o)))
payload (notify n) o = groups 4 n.notify ++ f32_bytes n.body o

module _ (o : Endian) where
  request-Stores :
      (r : RockRequest)
      → Fits (request r)
      → Stores
          (serialize (request r))
          ((le_bytes 1 1 ++ (groups 4 r.sn ++ groups 4 r.cmd)) ++ f32_bytes r.body o)
          o
  unfolding serialize serialize_request
  request-Stores r (s, c, filled, fits) =
      Stores-then (serialize_request r) (write_string_f32 r.body) _ _ o
        (Stores-then (write_fuint8 1) (λ b. write_uint32 r.sn b >>= write_uint32 r.cmd) _ _ o
          (fuint8-Stores 1 o)
          (Stores-then (write_uint32 r.sn) (write_uint32 r.cmd) _ _ o (uint32-Stores r.sn o)
            (uint32-Stores r.cmd o)))
        (f32-Stores r.body o filled fits)

  response-Stores :
      (r : RockResponse)
      → Fits (response r)
      → Stores
          (serialize (response r))
          ((le_bytes 1 2
              ++ (groups 4 r.sn ++ (groups 4 r.cmd ++ (groups 4 r.result ++ vint_bytes r.res_str))))
            ++ f32_bytes r.body o)
          o
  unfolding serialize serialize_response
  response-Stores r (s, c, t, filled', fits', filled, fits) =
      Stores-then (serialize_response r) (write_string_f32 r.body) _ _ o
        (Stores-then (write_fuint8 2)
          (λ b. write_uint32 r.sn b >>= (λ d.
            write_uint32 r.cmd d
            >>= (λ e. write_uint32 r.result e >>= write_string_vint r.res_str)))
          _ _ o (fuint8-Stores 2 o)
          (Stores-then (write_uint32 r.sn)
            (λ d.
              write_uint32 r.cmd d
              >>= (λ e. write_uint32 r.result e >>= write_string_vint r.res_str))
            _ _ o (uint32-Stores r.sn o)
            (Stores-then (write_uint32 r.cmd)
              (λ e. write_uint32 r.result e >>= write_string_vint r.res_str) _ _ o
              (uint32-Stores r.cmd o)
              (Stores-then (write_uint32 r.result) (write_string_vint r.res_str) _ _ o
                (uint32-Stores r.result o) (vint-Stores r.res_str o filled' fits')))))
        (f32-Stores r.body o filled fits)

  notify-Stores :
      (n : RockNotify)
      → Fits (notify n)
      → Stores (serialize (notify n)) ((le_bytes 1 3 ++ groups 4 n.notify) ++ f32_bytes n.body o) o
  unfolding serialize serialize_notify
  notify-Stores n (s, filled, fits) =
      Stores-then (serialize_notify n) (write_string_f32 n.body) _ _ o
        (Stores-then (write_fuint8 3) (write_uint32 n.notify) _ _ o (fuint8-Stores 3 o)
          (uint32-Stores n.notify o))
        (f32-Stores n.body o filled fits)

  serialize-Stores :
      (msg : Message)
      → Fits msg
      → Stores (serialize msg) (le_bytes 1 (get_type msg) ++ payload msg o) o
  serialize-Stores (request r) h =
      let e =
        append_assoc (le_bytes 1 1) (groups 4 r.sn ++ groups 4 r.cmd) (f32_bytes r.body o)
        ∙ ap (◌++◌ (le_bytes 1 1))
            (append_assoc (groups 4 r.sn) (groups 4 r.cmd) (f32_bytes r.body o)) in
      subst (λ (bytes : List ℕ). Stores (serialize (request r)) bytes o) e (request-Stores r h)
  serialize-Stores (response r) h =
      let sn = groups 4 r.sn in
      let cmd = groups 4 r.cmd in
      let result = groups 4 r.result in
      let str = vint_bytes r.res_str in
      let body = f32_bytes r.body o in
      let e =
        append_assoc (le_bytes 1 2) (sn ++ (cmd ++ (result ++ str))) body
        ∙ ap (◌++◌ (le_bytes 1 2)) (
            append_assoc sn (cmd ++ (result ++ str)) body
            ∙ ap (◌++◌ sn) (
                append_assoc cmd (result ++ str) body
                ∙ ap (◌++◌ cmd) (append_assoc result str body))) in
      subst (λ (bytes : List ℕ). Stores (serialize (response r)) bytes o) e (response-Stores r h)
  serialize-Stores (notify n) h =
      subst (λ (bytes : List ℕ). Stores (serialize (notify n)) bytes o)
        (append_assoc (le_bytes 1 3) (groups 4 n.notify) (f32_bytes n.body o)) (notify-Stores n h)

  request-Decodes :
      (r : RockRequest)
      → Fits (request r)
      → Decodes parse_request (request r) (payload (request r) o) o
  unfolding parse_request
  request-Decodes r (s, c, filled, fits) =
      Decodes-then read_uint32
        (λ sn b. read_uint32 b >>= (λ p.
          read_string_f32 p.1
          >>= (λ q. ok (request (record { sn = sn; cmd = p.0; body = q.0 }), q.1))))
        r.sn (request r) _ _ o (uint32-Decodes r.sn o s)
        (Decodes-then read_uint32
          (λ cmd b.
            read_string_f32 b
            >>= (λ q. ok (request (record { sn = r.sn; cmd = cmd; body = q.0 }), q.1)))
          r.cmd (request r) _ _ o (uint32-Decodes r.cmd o c)
          (Decodes-done read_string_f32
            (λ body b. ok (request (record { sn = r.sn; cmd = r.cmd; body = body }), b)) r.body
            (request r) _ o (f32-Decodes r.body o filled fits) (λ b. refl)))

  notify-Decodes :
      (n : RockNotify) → Fits (notify n) → Decodes parse_notify (notify n) (payload (notify n) o) o
  unfolding parse_notify
  notify-Decodes n (s, filled, fits) =
      Decodes-then read_uint32
        (λ v b. read_string_f32 b >>= (λ q. ok (notify (record { notify = v; body = q.0 }), q.1)))
        n.notify (notify n) _ _ o (uint32-Decodes n.notify o s)
        (Decodes-done read_string_f32
          (λ body b. ok (notify (record { notify = n.notify; body = body }), b)) n.body (notify n) _
          o (f32-Decodes n.body o filled fits) (λ b. refl))

  response-Decodes :
      (r : RockResponse)
      → Fits (response r)
      → Decodes parse_response (response r) (payload (response r) o) o
  unfolding parse_response
  response-Decodes r (s, c, t, filled', fits', filled, fits) =
      Decodes-then read_uint32
        (λ sn b. read_uint32 b >>= (λ p. read_uint32 p.1 >>= (λ p'.
          read_string_vint p'.1 >>= (λ p''. read_string_f32 p''.1 >>= (λ q. ok (
            response (record { sn = sn; cmd = p.0; result = p'.0; res_str = p''.0; body = q.0 }),
            q.1,
          ))))))
        r.sn (response r) _ _ o (uint32-Decodes r.sn o s)
        (Decodes-then read_uint32
          (λ cmd b. read_uint32 b >>= (λ p'. read_string_vint p'.1 >>= (λ p''.
            read_string_f32 p''.1 >>= (λ q. ok (
              response
                  (record { sn = r.sn; cmd = cmd; result = p'.0; res_str = p''.0; body = q.0 }),
              q.1,
            )))))
          r.cmd (response r) _ _ o (uint32-Decodes r.cmd o c)
          (Decodes-then read_uint32
            (λ result b. read_string_vint b >>= (λ p''. read_string_f32 p''.1 >>= (λ q. ok (
              response
                  (record { sn = r.sn; cmd = r.cmd; result = result; res_str = p''.0; body = q.0 }),
              q.1,
            ))))
            r.result (response r) _ _ o (uint32-Decodes r.result o t)
            (Decodes-then read_string_vint
              (λ str b. read_string_f32 b >>= (λ q. ok (
                response (record {
                  sn = r.sn;
                  cmd = r.cmd;
                  result = r.result;
                  res_str = str;
                  body = q.0;
                }),
                q.1,
              )))
              r.res_str (response r) _ _ o (vint-Decodes r.res_str o filled' fits')
              (Decodes-done read_string_f32
                (λ body b. ok (
                  response (record {
                    sn = r.sn;
                    cmd = r.cmd;
                    result = r.result;
                    res_str = r.res_str;
                    body = body;
                  }),
                  b,
                ))
                r.body (response r) _ o (f32-Decodes r.body o filled fits) (λ b. refl)))))

  -- The type's case parses the payload.
  typed_lem :
      (msg : Message) (d : ByteArray) (rest : List ℕ)
      → Fits msg
      → IsValid d
      → d.endian ≡ o
      → ahead d ≡ payload msg o ++ rest
      → (e : ByteArray) × (parse_typed (get_type msg) d ≡ ok (some (msg, e)))
  unfolding parse_typed
  typed_lem (request r) d rest h v b lies =
      let (e, q, _) = request-Decodes r h d rest v b lies in (e, ap caught q)
  typed_lem (response r) d rest h v b lies =
      let (e, q, _) = response-Decodes r h d rest v b lies in (e, ap caught q)
  typed_lem (notify n) d rest h v b lies =
      let (e, q, _) = notify-Decodes n h d rest v b lies in (e, ap caught q)

small_type : (msg : Message) → get_type msg < 256
small_type (request r) = omega arith
small_type (response r) = omega arith
small_type (notify n) = omega arith

parse_from_lem :
    (d c e : ByteArray) (t : ℕ) (msg : Message)
    → read_fuint8 d ≡ ok (t, c)
    → parse_typed t c ≡ ok (some (msg, e))
    → parse_from d ≡ ok (some msg)
unfolding parse_from
parse_from_lem d c e t msg g q = rw (g, parse_from) (rw q refl)

-- `toByteArray` succeeds on a message whose fields fit 32 bits and whose texts are not empty, and
-- `parseFrom` returns this message when the position is set back to the start.
pub parse_from-to_byte_array :
    (fresh : ℕ) (msg : Message)
    → Fits msg
    → (b : ByteArray) × (d : ByteArray) × (to_byte_array fresh msg ≡ ok (some b))
      × (set_position 0 b ≡ ok d)
      × (parse_from d ≡ ok (some msg))
unfolding to_byte_array byte_array
parse_from-to_byte_array fresh msg h =
    let start : ByteArray = byte_array fresh 4096 in
    let valid : IsValid start = byte_array-IsValid fresh 4096 (omega arith) in
    let (b, w, st) = serialize-Stores big msg h start valid refl in
    let (d, s, r) = rewind _ start b valid st in
    let lies = r.lies ∙ append_assoc (le_bytes 1 (get_type msg)) (payload msg big) r.rest in
    let (c, g, p) =
      fuint8-Decodes (get_type msg) big (small_type msg) d _ r.valid r.same_endian lies in
    let (e, q) = typed_lem big msg c r.rest h p.valid (p.same_endian ∙ r.same_endian) p.left in
    (b, d, ap caught w, s, parse_from_lem d c e (get_type msg) msg g q)
