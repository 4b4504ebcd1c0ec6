-- ===== src/Util/Url/Plain.antt =====
-- `UrlEncode` and `UrlDecode` of src/Util.cpp without the string that is made late: what they answer, byte
-- by byte.
use routn.Base.{
  ℕ, ◌≡◌, refl, ap, sym, ◌∙◌, Bool, ◌&&◌, Option, none, some, List, [], ◌∷◌, ◌++◌, ◌==◌,
  if◌then◌else◌, Bool-cases, inl, inr,
}
use mathlib.Core.List.{append-nil, append_assoc}
use routn.Util.Url.{
  char_is_unreserved, escaped, begun, append_if, encode_loop, url_encode, is_escape, unescaped,
  decoded, decode_loop, url_decode,
}

-- Each byte, or what is written for it.
abbrev pub plain_encode : Bool → List ℕ → List ℕ
plain_encode space_as_plus [] = []
plain_encode space_as_plus (c ∷ rest) =
    (if char_is_unreserved c then c ∷ [] else escaped space_as_plus c)
    ++ plain_encode space_as_plus rest

abbrev pub plain_byte : Bool → ℕ → ℕ
plain_byte space_as_plus c = if c == 43 && space_as_plus then 32 else c

abbrev pub plain_decode : Bool → List ℕ → List ℕ
plain_decode space_as_plus [] = []
plain_decode space_as_plus (c ∷ []) = plain_byte space_as_plus c ∷ []
plain_decode space_as_plus (c ∷ a ∷ []) =
    plain_byte space_as_plus c ∷ plain_decode space_as_plus (a ∷ [])
plain_decode space_as_plus (c ∷ a ∷ b ∷ rest) =
    let one = plain_byte space_as_plus c ∷ plain_decode space_as_plus (a ∷ b ∷ rest) in
    let three = unescaped a b ∷ plain_decode space_as_plus rest in
    if is_escape c a b then three else one

begun-append_if :
    (before : List ℕ) (ss : Option (List ℕ)) (c : ℕ)
    → begun (before ++ (c ∷ [])) (append_if ss c) ≡ begun before ss ++ (c ∷ [])
begun-append_if before none c = refl
begun-append_if before (some ss) c = refl

begun_nil :
    (before : List ℕ) (ss : Option (List ℕ)) → begun (before ++ []) ss ≡ begun before ss ++ []
begun_nil before none = refl
begun_nil before (some ss) = sym (append-nil ss)

-- One more byte stands before, and the string so far has grown by `xs`.
grown :
    (before ys rest : List ℕ) (ss ss' o : Option (List ℕ)) (xs out : List ℕ)
    → begun (before ++ ys) ss' ≡ begun before ss ++ xs
    → begun ((before ++ ys) ++ rest) o ≡ begun (before ++ ys) ss' ++ out
    → begun (before ++ (ys ++ rest)) o ≡ begun before ss ++ (xs ++ out)
grown before ys rest ss ss' o xs out e ih =
    ap (λ z. begun z o) (sym (append_assoc before ys rest))
    ∙ ih
    ∙ ap (λ z. z ++ out) e
    ∙ append_assoc (begun before ss) xs out

encode_loop_lem :
    (p : Bool) (before rest : List ℕ) (ss : Option (List ℕ))
    → begun (before ++ rest) (encode_loop p before rest ss) ≡ begun before ss ++ plain_encode p rest
unfolding encode_loop
encode_loop_lem p before [] ss = begun_nil before ss
encode_loop_lem p before (c ∷ rest) ss = elim (Bool-cases (char_is_unreserved c)) [
  | inl e ↦ rw e (
      grown before (c ∷ []) rest ss (append_if ss c)
        (encode_loop p (before ++ (c ∷ [])) rest (append_if ss c)) (c ∷ []) (plain_encode p rest)
        (begun-append_if before ss c)
        (encode_loop_lem p (before ++ (c ∷ [])) rest (append_if ss c)))
  | inr e ↦
      let ss' : Option (List ℕ) = some (begun before ss ++ escaped p c) in
      rw e (
        grown before (c ∷ []) rest ss ss' (encode_loop p (before ++ (c ∷ [])) rest ss')
          (escaped p c) (plain_encode p rest) refl
          (encode_loop_lem p (before ++ (c ∷ [])) rest ss'))
]

begun-decoded :
    (p : Bool) (before : List ℕ) (c : ℕ) (ss : Option (List ℕ))
    → begun (before ++ (c ∷ [])) (decoded p before c ss) ≡ begun before ss ++ (plain_byte p c ∷ [])
begun-decoded p before c ss = elim (Bool-cases (c == 43 && p)) [
  | inl e ↦ rw e refl
  | inr e ↦ rw e (begun-append_if before ss c)
]

decode_loop_lem :
    (p : Bool) (before rest : List ℕ) (ss : Option (List ℕ))
    → begun (before ++ rest) (decode_loop p before rest ss) ≡ begun before ss ++ plain_decode p rest
unfolding decode_loop
decode_loop_lem p before [] ss = begun_nil before ss
decode_loop_lem p before (c ∷ []) ss = begun-decoded p before c ss
decode_loop_lem p before (c ∷ a ∷ []) ss =
    grown before (c ∷ []) (a ∷ []) ss (decoded p before c ss)
      (decode_loop p (before ++ (c ∷ [])) (a ∷ []) (decoded p before c ss)) (plain_byte p c ∷ [])
      (plain_decode p (a ∷ [])) (begun-decoded p before c ss)
      (decode_loop_lem p (before ++ (c ∷ [])) (a ∷ []) (decoded p before c ss))
decode_loop_lem p before (c ∷ a ∷ b ∷ rest) ss = elim (Bool-cases (is_escape c a b)) [
  | inl e ↦
      let ss' : Option (List ℕ) = some (begun before ss ++ (unescaped a b ∷ [])) in
      let ys = c ∷ a ∷ b ∷ [] in
      rw e (
        grown before ys rest ss ss' (decode_loop p (before ++ ys) rest ss') (unescaped a b ∷ [])
          (plain_decode p rest) refl (decode_loop_lem p (before ++ ys) rest ss'))
  | inr e ↦ rw e (
      grown before (c ∷ []) (a ∷ b ∷ rest) ss (decoded p before c ss)
        (decode_loop p (before ++ (c ∷ [])) (a ∷ b ∷ rest) (decoded p before c ss))
        (plain_byte p c ∷ []) (plain_decode p (a ∷ b ∷ rest)) (begun-decoded p before c ss)
        (decode_loop_lem p (before ++ (c ∷ [])) (a ∷ b ∷ rest) (decoded p before c ss)))
]

-- Both functions answer what a pass without the string that is made late answers: `UrlEncode` writes
-- every byte or its escape, and `UrlDecode` reads the bytes and escapes from the left.
pub url-plain :
    (str : List ℕ) (space_as_plus : Bool)
    → (url_encode str space_as_plus ≡ plain_encode space_as_plus str)
      × (url_decode str space_as_plus ≡ plain_decode space_as_plus str)
unfolding url_encode url_decode
url-plain str p = (encode_loop_lem p [] str none, decode_loop_lem p [] str none)
