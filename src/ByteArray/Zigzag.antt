-- ===== src/ByteArray/Zigzag.antt =====
-- The zigzag codes of src/ByteArray.cpp as arithmetic, and what they recover.
use routn.Base.{ℕ, ◌+◌, ◌-◌, ◌*◌, ◌%◌, ◌^◌, ◌≤◌, ◌<◌, ◌≡◌, ◌∙◌, ap, ◌⊎◌, inl, inr, ◌↔◌, arith}
use routn.Base.Bits.{and_01, xor_none, xor_ones}
use routn.ByteArray.Codec.{encode_zigzag32, encode_zigzag64, decode_zigzag32, decode_zigzag64}

decode32_even : (h : ℕ) → h < 2 ^ 31 → decode_zigzag32 (h * 2) ≡ h
unfolding decode_zigzag32
decode32_even h p = ground (arith, and_01 (h * 2), xor_none 32 h (omega arith))

decode32_odd : (h : ℕ) → h < 2 ^ 31 → decode_zigzag32 (h * 2 + 1) ≡ 2 ^ 32 - 1 - h
unfolding decode_zigzag32
decode32_odd h p = ground (arith, and_01 (h * 2 + 1), xor_ones 32 h (omega arith))

decode64_even : (h : ℕ) → h < 2 ^ 63 → decode_zigzag64 (h * 2) ≡ h
unfolding decode_zigzag64
decode64_even h p = ground (arith, and_01 (h * 2), xor_none 64 h (omega arith))

decode64_odd : (h : ℕ) → h < 2 ^ 63 → decode_zigzag64 (h * 2 + 1) ≡ 2 ^ 64 - 1 - h
unfolding decode_zigzag64
decode64_odd h p = ground (arith, and_01 (h * 2 + 1), xor_ones 64 h (omega arith))

-- Numbers near zero, of either sign, get small codes.
pub encode32_cases :
    (v : ℕ)
    → v < 2 ^ 32
    → ((v < 2 ^ 31) × (encode_zigzag32 v ≡ v * 2))
      ⊎ ((2 ^ 31 ≤ v) × (encode_zigzag32 v ≡ (2 ^ 32 - 1 - v) * 2 + 1))
unfolding encode_zigzag32
encode32_cases v h = ground arith

-- On 32 bits the code is undone by the decoder.
pub decode_zigzag32-encode : (v : ℕ) → v < 2 ^ 32 → decode_zigzag32 (encode_zigzag32 v) ≡ v
decode_zigzag32-encode v h = elim (encode32_cases v h) [
  | inl (p, e) ↦ ap decode_zigzag32 e ∙ decode32_even v p
  | inr (p, e) ↦ ap decode_zigzag32 e ∙ decode32_odd (2 ^ 32 - 1 - v) (omega arith) ∙ omega arith
]

pub encode32-lt : (v : ℕ) → v < 2 ^ 32 → encode_zigzag32 v < 2 ^ 32
unfolding encode_zigzag32
encode32-lt v h = ground arith

pub encode64-lt : (v : ℕ) → encode_zigzag64 v < 2 ^ 32
unfolding encode_zigzag64
encode64-lt v = ground arith

encode64_cases :
    (v : ℕ)
    → v < 2 ^ 64
    → ((v < 2 ^ 63) × (encode_zigzag64 v ≡ v % 2 ^ 31 * 2))
      ⊎ ((2 ^ 63 ≤ v) × (encode_zigzag64 v ≡ (2 ^ 64 - 1 - v) % 2 ^ 31 * 2 + 1))
unfolding encode_zigzag64
encode64_cases v h = ground arith

-- The 64-bit code keeps 32 bits: it is undone exactly on the numbers of 32 bits.
pub decode_zigzag64-encode_iff :
    (v : ℕ)
    → v < 2 ^ 64
    → (decode_zigzag64 (encode_zigzag64 v) ≡ v) ↔ ((v < 2 ^ 31) ⊎ (2 ^ 64 - 2 ^ 31 ≤ v))
decode_zigzag64-encode_iff v h = elim (encode64_cases v h) [
  | inl (p, e) ↦
      let d : decode_zigzag64 (encode_zigzag64 v) ≡ v % 2 ^ 31 =
        ap decode_zigzag64 e ∙ decode64_even (v % 2 ^ 31) (omega arith) in
      (λ r. inl (omega arith), λ s. omega arith)
  | inr (p, e) ↦
      let d : decode_zigzag64 (encode_zigzag64 v) ≡ 2 ^ 64 - 1 - (2 ^ 64 - 1 - v) % 2 ^ 31 =
        ap decode_zigzag64 e ∙ decode64_odd ((2 ^ 64 - 1 - v) % 2 ^ 31) (omega arith) in
      (λ r. inr (omega arith), λ s. omega arith)
]
