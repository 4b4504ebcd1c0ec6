-- ===== src/Util/Trim.antt =====
-- `Trim`, `TrimLeft` and `TrimRight` of src/Util.cpp. Positions are of type size_t, and `npos` is 2^64 - 1.
pub mod Ends
use routn.Base.{
  ℕ, zero, suc, ◌+◌, ◌-◌, ◌%◌, ◌^◌, Bool, true, false, Option, none, some, List, [], ◌∷◌, take,
  drop, ◌==◌, if◌then◌else◌,
}

abbrev pub has : List ℕ → ℕ → Bool
has [] c = false
has (x ∷ xs) c = if x == c then true else has xs c

abbrev pub next_position : Option ℕ → Option ℕ
next_position none = none
next_position (some i) = some (suc i)

-- `std::string::find_first_not_of` and `find_last_not_of`, `none` for `npos`.
unfoldable pub find_first_not_of : List ℕ → List ℕ → Option ℕ
find_first_not_of delimit [] = none
find_first_not_of delimit (c ∷ str) =
    let rest = next_position (find_first_not_of delimit str) in
    if has delimit c then rest else some 0

unfoldable pub find_last_not_of : List ℕ → List ℕ → Option ℕ
find_last_not_of delimit [] = none
find_last_not_of delimit (c ∷ str) = elim (find_last_not_of delimit str) [
  | some i ↦ some (suc i)
  | none ↦ if has delimit c then none else some 0
]

abbrev pub or_npos : Option ℕ → ℕ
or_npos none = 2 ^ 64 - 1
or_npos (some i) = i

-- `substr(begin, n)`
abbrev pub substr : List ℕ → ℕ → ℕ → List ℕ
substr str begin n = take n (drop begin str)

unfoldable pub trim : List ℕ → List ℕ → List ℕ
trim str delimit = elim (find_first_not_of delimit str) [
  | none ↦ []
  | some begin ↦
      substr str begin ((or_npos (find_last_not_of delimit str) + 2 ^ 64 - begin + 1) % 2 ^ 64)
]

unfoldable pub trim_left : List ℕ → List ℕ → List ℕ
trim_left str delimit = elim (find_first_not_of delimit str) [
  | none ↦ []
  | some begin ↦ drop begin str
]

unfoldable pub trim_right : List ℕ → List ℕ → List ℕ
trim_right str delimit = elim (find_last_not_of delimit str) [
  | none ↦ []
  | some end ↦ substr str 0 end
]
