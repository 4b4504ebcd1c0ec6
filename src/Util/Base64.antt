-- ===== src/Util/Base64.antt =====
-- `base64encode` of src/Util.cpp.
pub mod Digits
pub mod Decoding
use routn.Base.{
  ℕ, zero, suc, ◌+◌, ◌*◌, ◌/◌, ◌%◌, ◌^◌, Bool, true, false, not, List, [], ◌∷◌, ◌++◌, replicate,
  ◌==◌, if◌then◌else◌,
}
use routn.Util.Tables.{entry}

abbrev pub run_from : ℕ → ℕ → List ℕ
run_from a zero = []
run_from a (suc n) = a ∷ run_from (suc a) n

-- The capital and small letters, the digits, and `-` and `_` or `+` and `/`.
unfoldable pub base64_chars : Bool → List ℕ
base64_chars url =
    run_from 65 26
    ++ (run_from 97 26 ++ (run_from 48 10 ++ (if url then 45 ∷ 95 ∷ [] else 43 ∷ 47 ∷ [])))

unfoldable pub digit : Bool → ℕ → ℕ
digit url n = entry (base64_chars url) n

-- The digits of three bytes in `packed`, of which `padding` are not there; '=' is 61.
unfoldable pub group : Bool → ℕ → ℕ → List ℕ
group url packed padding =
    digit url (packed / 2 ^ 18)
    ∷ digit url (packed / 2 ^ 12 % 64)
    ∷ ((if not (padding == 2) then digit url (packed / 2 ^ 6 % 64) ∷ [] else [])
        ++ ((if padding == 0 then digit url (packed % 64) ∷ [] else []) ++ replicate padding 61))

-- The loop over the bytes, three in a round as long as there are.
unfoldable pub base64encode : List ℕ → Bool → List ℕ
base64encode [] url = []
base64encode (a ∷ []) url = group url (a * 256 * 256) 2
base64encode (a ∷ b ∷ []) url = group url ((a * 256 + b) * 256) 1
base64encode (a ∷ b ∷ c ∷ rest) url = group url ((a * 256 + b) * 256 + c) 0 ++ base64encode rest url
