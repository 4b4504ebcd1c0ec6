-- ===== src/Util/Replace.antt =====
-- The three functions `replace` of src/Util.cpp. Their loop is on fuel; `none` says that it has not ended.
-- Where a single character is looked for or put in, it is a text of one byte.
pub mod Single
use routn.Base.{
  ℕ, zero, suc, ◌+◌, Bool, true, false, Option, none, some, List, [], ◌∷◌, ◌++◌, length, take, drop,
  leb, ◌==◌, if◌then◌else◌,
}
use routn.Util.Trim.{next_position}

abbrev pub begins_with : List ℕ → List ℕ → Bool
begins_with [] str = true
begins_with (p ∷ ps) [] = false
begins_with (p ∷ ps) (c ∷ str) = if p == c then begins_with ps str else false

-- The first place of a text in another.
unfoldable pub place_of : List ℕ → List ℕ → Option ℕ
place_of text [] = if begins_with text [] then some 0 else none
place_of text (c ∷ str) =
    let later = next_position (place_of text str) in
    if begins_with text (c ∷ str) then some 0 else later

-- `str.find(text, index)`
unfoldable pub find_from : List ℕ → List ℕ → ℕ → Option ℕ
find_from str text index =
    if leb index (length str)
    then elim (place_of text (drop index str)) [ none ↦ none | some i ↦ some (index + i) ]
    else none

unfoldable pub replaced_at : List ℕ → List ℕ → List ℕ → ℕ → List ℕ
replaced_at str text replace_with index =
    take index str ++ (replace_with ++ drop (index + length text) str)

unfoldable pub replace_loop : ℕ → List ℕ → List ℕ → List ℕ → Option ℕ → Option (List ℕ)
replace_loop fuel text replace_with str none = some str
replace_loop zero text replace_with str (some index) = none
replace_loop (suc fuel) text replace_with str (some index) =
    let str' = replaced_at str text replace_with index in
    replace_loop fuel text replace_with str' (find_from str' text (index + length replace_with))

unfoldable pub replace : ℕ → List ℕ → List ℕ → List ℕ → Option (List ℕ)
replace fuel str text replace_with = replace_loop fuel text replace_with str (find_from str text 0)
