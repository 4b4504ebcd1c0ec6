-- ===== src/Util/Url.antt =====
-- `UrlEncode` and `UrlDecode` of src/Util.cpp. The string that is built, `ss`, is made only at the first
-- byte that changes, and then begins with what stands before it.
pub mod Plain
pub mod RoundTrip
use routn.Base.{
  ℕ, zero, suc, ◌+◌, ◌*◌, ◌/◌, ◌%◌, Bool, true, false, not, ◌&&◌, ◌||◌, Option, none, some, List,
  [], ◌∷◌, ◌++◌, replicate, leb, ◌==◌, if◌then◌else◌,
}
use routn.Util.Tables.{entry}

-- The table has 1 at `-`, `.`, the digits, `=`, the letters, `_` and `~`.
abbrev pub uri_chars : List ℕ
uri_chars =
    replicate 45 0
    ++ (replicate 2 1
        ++ (replicate 1 0
            ++ (replicate 10 1
                ++ (replicate 3 0
                    ++ (1 ∷ replicate 3 0
                        ++ (replicate 26 1
                            ++ (replicate 4 0
                                ++ (1 ∷ 0 ∷ replicate 26 1
                                    ++ (replicate 3 0 ++ (1 ∷ replicate 129 0))))))))))

abbrev pub xdigit_chars : List ℕ
xdigit_chars =
    replicate 49 0
    ++ (1 ∷ 2 ∷ 3 ∷ 4 ∷ 5 ∷ 6 ∷ 7 ∷ 8 ∷ 9 ∷ replicate 7 0
        ++ (10 ∷ 11 ∷ 12 ∷ 13 ∷ 14 ∷ 15 ∷ replicate 26 0
            ++ (10 ∷ 11 ∷ 12 ∷ 13 ∷ 14 ∷ 15 ∷ replicate 153 0)))

-- "0123456789ABCDEF"
abbrev pub hexdigits : List ℕ
hexdigits = 48 ∷ 49 ∷ 50 ∷ 51 ∷ 52 ∷ 53 ∷ 54 ∷ 55 ∷ 56 ∷ 57 ∷ 65 ∷ 66 ∷ 67 ∷ 68 ∷ 69 ∷ 70 ∷ []

unfoldable pub char_is_unreserved : ℕ → Bool
char_is_unreserved c = not (entry uri_chars c == 0)

-- `isxdigit` of the C library.
abbrev pub within : ℕ → ℕ → ℕ → Bool
within a b c = leb a c && leb c b

unfoldable pub is_xdigit : ℕ → Bool
is_xdigit c = within 48 57 c || within 65 70 c || within 97 102 c

unfoldable pub hex : ℕ → ℕ
hex n = entry hexdigits n

unfoldable pub xdigit : ℕ → ℕ
xdigit c = entry xdigit_chars c

-- What is appended for a byte that is not unreserved; ' ' is 32, '+' is 43, '%' is 37.
unfoldable pub escaped : Bool → ℕ → List ℕ
escaped space_as_plus c =
    if c == 32 && space_as_plus then 43 ∷ [] else 37 ∷ hex (c / 16) ∷ hex (c % 16) ∷ []

-- `ss`, where it is made now from what stands before.
abbrev pub begun : List ℕ → Option (List ℕ) → List ℕ
begun before none = before
begun before (some ss) = ss

abbrev pub append_if : Option (List ℕ) → ℕ → Option (List ℕ)
append_if none c = none
append_if (some ss) c = some (ss ++ (c ∷ []))

unfoldable pub encode_loop : Bool → List ℕ → List ℕ → Option (List ℕ) → Option (List ℕ)
encode_loop space_as_plus before [] ss = ss
encode_loop space_as_plus before (c ∷ rest) ss =
    encode_loop space_as_plus (before ++ (c ∷ [])) rest (
      if not (char_is_unreserved c)
      then some (begun before ss ++ escaped space_as_plus c)
      else append_if ss c)

unfoldable pub url_encode : List ℕ → Bool → List ℕ
url_encode str space_as_plus = begun str (encode_loop space_as_plus [] str none)

-- The two digits behind a '%', where both are there and are digits.
abbrev pub is_escape : ℕ → ℕ → ℕ → Bool
is_escape c a b = c == 37 && (is_xdigit a && is_xdigit b)

abbrev pub unescaped : ℕ → ℕ → ℕ
unescaped a b = xdigit a * 16 + xdigit b

-- `ss` behind a byte that is no escape.
abbrev pub decoded : Bool → List ℕ → ℕ → Option (List ℕ) → Option (List ℕ)
decoded space_as_plus before c ss =
    if c == 43 && space_as_plus then some (begun before ss ++ (32 ∷ [])) else append_if ss c

unfoldable pub decode_loop : Bool → List ℕ → List ℕ → Option (List ℕ) → Option (List ℕ)
decode_loop space_as_plus before [] ss = ss
decode_loop space_as_plus before (c ∷ []) ss = decoded space_as_plus before c ss
decode_loop space_as_plus before (c ∷ a ∷ []) ss =
    decode_loop space_as_plus (before ++ (c ∷ [])) (a ∷ []) (decoded space_as_plus before c ss)
decode_loop space_as_plus before (c ∷ a ∷ b ∷ rest) ss =
    let one =
      decode_loop space_as_plus (before ++ (c ∷ [])) (a ∷ b ∷ rest)
        (decoded space_as_plus before c ss) in
    let three =
      decode_loop space_as_plus (before ++ (c ∷ a ∷ b ∷ [])) rest
        (some (begun before ss ++ (unescaped a b ∷ []))) in
    if is_escape c a b then three else one

unfoldable pub url_decode : List ℕ → Bool → List ℕ
url_decode str space_as_plus = begun str (decode_loop space_as_plus [] str none)
