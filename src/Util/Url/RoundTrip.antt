-- ===== src/Util/Url/RoundTrip.antt =====
-- That `UrlDecode` undoes `UrlEncode`, both of src/Util.cpp.
use routn.Base.{
  ℕ, ◌+◌, ◌*◌, ◌/◌, ◌%◌, ◌<◌, ◌≡◌, refl, ap, ◌∙◌, Bool, true, false, ◌&&◌, List, [], ◌∷◌, ◌++◌, All,
  ◌==◌, ==_iff, Bool-cases, inl, inr, arith,
}
use routn.Base.Bytes.{IsByte}
use routn.Util.Tables.{both, all_below-lt}
use routn.Util.Url.{char_is_unreserved, is_xdigit, hex, xdigit, escaped, url_encode, url_decode}
use routn.Util.Url.Plain.{plain_encode, plain_byte, plain_decode, url-plain}

-- A digit that is written is a digit, and is read as what it was written for.
abbrev digit : ℕ → Bool
digit n = is_xdigit (hex n) && xdigit (hex n) == n

digits : (n : ℕ) → n < 16 → digit n ≡ true
unfolding is_xdigit hex xdigit
digits n h = all_below-lt digit 16 n refl h

hex_digit : (n : ℕ) → n < 16 → (is_xdigit (hex n) ≡ true) × (xdigit (hex n) ≡ n)
hex_digit n h =
    let (a, b) = both (is_xdigit (hex n)) (xdigit (hex n) == n) (digits n h) in
    (a, (==_iff (xdigit (hex n)) n).0 b)

-- A byte that needs no escape is neither '+' nor '%'.
unreserved-plain : (c : ℕ) → char_is_unreserved c ≡ true → ((c == 43) ≡ false) × ((c == 37) ≡ false)
unfolding char_is_unreserved
unreserved-plain c h = (not_plus, not_percent)
  where
    not_plus : (c == 43) ≡ false
    not_plus = elim (Bool-cases (c == 43)) [
      | inl e ↦
          let same : c ≡ 43 = (==_iff c 43).0 e in let h' : false ≡ true = rw same at h in absurd cc
      | inr e ↦ e
    ]

    not_percent : (c == 37) ≡ false
    not_percent = elim (Bool-cases (c == 37)) [
      | inl e ↦
          let same : c ≡ 37 = (==_iff c 37).0 e in let h' : false ≡ true = rw same at h in absurd cc
      | inr e ↦ e
    ]

decode_plain :
    (p : Bool) (c : ℕ) (rest : List ℕ)
    → (c == 37) ≡ false
    → plain_decode p (c ∷ rest) ≡ plain_byte p c ∷ plain_decode p rest
decode_plain p c [] h = refl
decode_plain p c (a ∷ []) h = refl
decode_plain p c (a ∷ b ∷ rest) h = rw h refl

escaped-decode :
    (p : Bool) (c : ℕ) (rest : List ℕ)
    → c < 256
    → plain_decode p (escaped p c ++ rest) ≡ c ∷ plain_decode p rest
unfolding escaped
escaped-decode p c rest h = elim (Bool-cases (c == 32 && p)) [
  | inl e ↦
      let (space, plus) = both (c == 32) p e in
      let same : c ≡ 32 = (==_iff c 32).0 space in rw (same, plus) (decode_plain true 43 rest refl)
  | inr e ↦
      let (high, high_value) = hex_digit (c / 16) (omega (arith, h)) in
      let (low, low_value) = hex_digit (c % 16) (omega arith) in
      let whole : c / 16 * 16 + c % 16 ≡ c = omega arith in
      rw (e, high, low, high_value, low_value, whole) refl
]

plain-RoundTrip :
    (p : Bool) (str : List ℕ) → All IsByte str → plain_decode p (plain_encode p str) ≡ str
plain-RoundTrip p [] h = refl
plain-RoundTrip p (c ∷ rest) (byte, bytes) =
    let ih = plain-RoundTrip p rest bytes in
    elim (Bool-cases (char_is_unreserved c)) [
      | inl e ↦
          let (not_plus, not_percent) = unreserved-plain c e in
          rw (e, decode_plain p c (plain_encode p rest) not_percent, not_plus, ih) refl
      | inr e ↦ rw (e, escaped-decode p c (plain_encode p rest) byte, ih) refl
    ]

-- `UrlDecode` of what `UrlEncode` answers for a text is the text, where both take '+' for a space or both
-- do not.
pub url_decode-url_encode :
    (str : List ℕ) (space_as_plus : Bool)
    → All IsByte str
    → url_decode (url_encode str space_as_plus) space_as_plus ≡ str
url_decode-url_encode str p h =
    (url-plain (url_encode str p) p).1
    ∙ ap (plain_decode p) (url-plain str p).0
    ∙ plain-RoundTrip p str h
