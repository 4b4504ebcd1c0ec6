-- ===== src/Rock/Tests.antt =====
-- The properties of the RPC messages at one response.
use routn.Base.{◌≡◌, some, [], ◌∷◌, arith}
use routn.ByteArray.{ByteArray, ok, set_position}
use routn.Rock.{RockResponse, response, to_byte_array, parse_from}
use routn.Rock.RoundTrip.{Fits, parse_from-to_byte_array}

abbrev reply : RockResponse
reply = record { sn = 300; cmd = 7; result = 200; res_str = 111 ∷ 107 ∷ []; body = 1 ∷ 2 ∷ 3 ∷ [] }

reply-Fits : Fits (response reply)
reply-Fits =
    (omega arith, omega arith, omega arith, omega arith, omega arith, omega arith, omega arith)

parse_from-to_byte_array_example :
    (b : ByteArray) × (d : ByteArray) × (to_byte_array 0 (response reply) ≡ ok (some b))
    × (set_position 0 b ≡ ok d)
    × (parse_from d ≡ ok (some (response reply)))
parse_from-to_byte_array_example = parse_from-to_byte_array 0 (response reply) reply-Fits
