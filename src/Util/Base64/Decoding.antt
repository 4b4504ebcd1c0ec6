-- ===== src/Util/Base64/Decoding.antt =====
-- That nothing of a text is lost in the answer of `base64encode` of src/Util.cpp.
use routn.Base.{
  ℕ, ◌+◌, ◌*◌, ◌/◌, ◌%◌, ◌^◌, ◌<◌, ◌≡◌, refl, ap, ◌∙◌, Bool, List, [], ◌∷◌, ◌++◌, length, All, ◌==◌,
  if◌then◌else◌, arith,
}
use routn.Base.Bytes.{IsByte}
use routn.Util.Base64.{group, base64encode}
use routn.Util.Base64.Digits.{value, value-digit}

-- The bytes of four digits, the last two of which may be padding.
abbrev pub bytes_of : ℕ → ℕ → ℕ → ℕ → List ℕ
bytes_of w x y z = (w * 4 + x / 16) ∷ (x % 16 * 16 + y / 4) ∷ (y % 4 * 64 + z) ∷ []

-- The decoder of RFC 4648, on whole groups.
abbrev pub base64_decode : Bool → List ℕ → List ℕ
base64_decode url (w ∷ x ∷ y ∷ z ∷ rest) =
    let v = value url in
    let whole = bytes_of (v w) (v x) (v y) (v z) ++ base64_decode url rest in
    if y == 61
    then (v w * 4 + v x / 16) ∷ []
    else if z == 61
    then (v w * 4 + v x / 16) ∷ (v x % 16 * 16 + v y / 4) ∷ []
    else whole
base64_decode url other = []

module _ (url : Bool) (a b c : ℕ) (ha : a < 256) (hb : b < 256) (hc : c < 256) where
  abbrev packed : ℕ
  packed = (a * 256 + b) * 256 + c

  -- The four digits of a group have the bytes.
  first_byte : packed / 2 ^ 18 * 4 + packed / 2 ^ 12 % 64 / 16 ≡ a
  first_byte = omega (arith, ha, hb, hc)

  second_byte : packed / 2 ^ 12 % 64 % 16 * 16 + packed / 2 ^ 6 % 64 / 4 ≡ b
  second_byte = omega (arith, ha, hb, hc)

  third_byte : packed / 2 ^ 6 % 64 % 4 * 64 + packed % 64 ≡ c
  third_byte = omega (arith, ha, hb, hc)

  small : packed / 2 ^ 18 < 64
  small = omega (arith, ha, hb, hc)

  pub one_of : base64_decode url (group url packed 2) ≡ a ∷ []
  unfolding group
  one_of =
      let (v1, p1) = value-digit url (packed / 2 ^ 18) small in
      let (v2, p2) = value-digit url (packed / 2 ^ 12 % 64) (omega arith) in
      rw (v1, v2, first_byte) refl

  pub two_of : base64_decode url (group url packed 1) ≡ a ∷ b ∷ []
  unfolding group
  two_of =
      let (v1, p1) = value-digit url (packed / 2 ^ 18) small in
      let (v2, p2) = value-digit url (packed / 2 ^ 12 % 64) (omega arith) in
      let (v3, p3) = value-digit url (packed / 2 ^ 6 % 64) (omega arith) in
      rw (p3, v1, v2, v3, first_byte, second_byte) refl

  pub three_of :
      (rest : List ℕ)
      → base64_decode url (group url packed 0 ++ rest) ≡ a ∷ b ∷ c ∷ base64_decode url rest
  unfolding group
  three_of rest =
      let (v1, p1) = value-digit url (packed / 2 ^ 18) small in
      let (v2, p2) = value-digit url (packed / 2 ^ 12 % 64) (omega arith) in
      let (v3, p3) = value-digit url (packed / 2 ^ 6 % 64) (omega arith) in
      let (v4, p4) = value-digit url (packed % 64) (omega arith) in
      rw (p3, p4, v1, v2, v3, v4, first_byte, second_byte, third_byte) refl

-- A decoder gets every text back, from four bytes for each three begun.
pub base64_decode-base64encode :
    (data_ : List ℕ) (url : Bool)
    → All IsByte data_
    → (base64_decode url (base64encode data_ url) ≡ data_)
      × (length (base64encode data_ url) ≡ 4 * ((length data_ + 2) / 3))
unfolding base64encode group
base64_decode-base64encode [] url h = (refl, refl)
base64_decode-base64encode (a ∷ []) url (ha, h) =
    let e : a * 256 * 256 ≡ (a * 256 + 0) * 256 + 0 = omega arith in
    (
      ap (λ p. base64_decode url (group url p 2)) e
          ∙ one_of url a 0 0 ha (omega arith) (omega arith),
      refl,
    )
base64_decode-base64encode (a ∷ b ∷ []) url (ha, (hb, h)) =
    let e : (a * 256 + b) * 256 ≡ (a * 256 + b) * 256 + 0 = omega arith in
    (ap (λ p. base64_decode url (group url p 1)) e ∙ two_of url a b 0 ha hb (omega arith), refl)
base64_decode-base64encode (a ∷ b ∷ c ∷ rest) url (ha, (hb, (hc, h))) =
    let (ih, il) = base64_decode-base64encode rest url h in
    (
      three_of url a b c ha hb hc (base64encode rest url) ∙ ap (λ xs. a ∷ b ∷ c ∷ xs) ih,
      omega (arith, il),
    )
