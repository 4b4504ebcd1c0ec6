-- ===== src/Util/Base64/Digits.antt =====
-- The digits of base64, the table in `base64encode` of src/Util.cpp.
use routn.Base.{
  ℕ, suc, ◌<◌, ◌≡◌, refl, Bool, true, false, not, ◌&&◌, List, [], ◌∷◌, ◌==◌, ==_iff, if◌then◌else◌,
}
use routn.Util.Tables.{both, all_below, all_below-lt}
use routn.Util.Base64.{base64_chars, digit}

-- Where a byte stands in a table.
abbrev pub position : List ℕ → ℕ → ℕ
position [] c = 0
position (x ∷ table) c = if x == c then 0 else suc (position table c)

unfoldable pub value : Bool → ℕ → ℕ
value url c = position (base64_chars url) c

abbrev is_digit : Bool → ℕ → Bool
is_digit url n = (value url (digit url n) == n) && not (digit url n == 61)

all_digits : (url : Bool) → all_below (is_digit url) 64 ≡ true
unfolding value digit base64_chars
all_digits true = refl
all_digits false = refl

negated : (b : Bool) → not b ≡ true → b ≡ false
negated true h = absurd cc
negated false h = refl

-- A digit has its value, and is no padding.
pub value-digit :
    (url : Bool) (n : ℕ) → n < 64 → (value url (digit url n) ≡ n) × ((digit url n == 61) ≡ false)
value-digit url n h =
    let (a, b) =
      both (value url (digit url n) == n) (not (digit url n == 61))
        (all_below-lt (is_digit url) 64 n (all_digits url) h) in
    ((==_iff (value url (digit url n)) n).0 a, negated (digit url n == 61) b)
