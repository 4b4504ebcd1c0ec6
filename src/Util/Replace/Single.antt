-- ===== src/Util/Replace/Single.antt =====
-- What `replace` of src/Util.cpp answers for a single character, and that it does not end for an empty text.
use mathlib.Core.List.{append_assoc}
use routn.Base.{
  ℕ, zero, suc, ◌+◌, ◌≤◌, ◌≡◌, refl, ap, sym, ◌∙◌, true, false, Option, none, some, List, [], ◌∷◌,
  ◌++◌, length, length-append, length-take, take, drop, take-length-append, drop-length-append,
  drop-drop, leb, ◌==◌, ==_iff, if◌then◌else◌, Bool-cases, inl, inr, arith,
}
use routn.Util.Trim.{next_position}
use routn.Util.Replace.{place_of, find_from, replaced_at, replace_loop, replace}

-- Every byte `c` makes way for the text.
abbrev pub plain_replace : ℕ → List ℕ → List ℕ → List ℕ
plain_replace c replace_with [] = []
plain_replace c replace_with (x ∷ str) =
    (if c == x then replace_with else x ∷ []) ++ plain_replace c replace_with str

-- Where the search finds nothing, there is nothing to replace; else the front has none.
abbrev Found : ℕ → List ℕ → List ℕ → Option ℕ → Type 0
Found c w str none = plain_replace c w str ≡ str
Found c w str (some i) =
    (front : List ℕ) × (back : List ℕ) × (str ≡ front ++ (c ∷ back))
    × (length front ≡ i)
    × (plain_replace c w str ≡ front ++ (w ++ plain_replace c w back))

one_more :
    (c : ℕ) (w : List ℕ) (x : ℕ) (str : List ℕ) (o : Option ℕ)
    → (c == x) ≡ false
    → Found c w str o
    → Found c w (x ∷ str) (next_position o)
one_more c w x str none e f = rw (e, f) refl
one_more c w x str (some i) e (front, back, split, len, all) =
    (x ∷ front, back, ap (◌∷◌ x) split, ap suc len, rw e (ap (◌∷◌ x) all))

place_of-Found : (c : ℕ) (w str : List ℕ) → Found c w str (place_of (c ∷ []) str)
unfolding place_of
place_of-Found c w [] = refl
place_of-Found c w (x ∷ str) = elim (Bool-cases (c == x)) [
  | inl e ↦
      let same : c ≡ x = (==_iff c x).0 e in
      rw e ([], str, ap (λ z. z ∷ str) (sym same), refl, rw e refl)
  | inr e ↦ rw e (one_more c w x str (place_of (c ∷ []) str) e (place_of-Found c w str))
]

-- The search from behind a front is the search in the rest.
abbrev behind : ℕ → Option ℕ → Option ℕ
behind n none = none
behind n (some i) = some (n + i)

find_from-append :
    (front str text : List ℕ)
    → find_from (front ++ str) text (length front) ≡ behind (length front) (place_of text str)
unfolding find_from
find_from-append front str text =
    let inside : leb (length front) (length (front ++ str)) ≡ true =
      ground (arith, length-append front str) in
    rw (inside, drop-length-append front str) (same (place_of text str))
  where
    same :
        (o : Option ℕ)
        → elim o as (λ x. Option ℕ) [ none ↦ none | some i ↦ some (length front + i) ]
          ≡ behind (length front) o
    same none = refl
    same (some i) = refl

replaced_at-append :
    (front w back : List ℕ) (c : ℕ)
    → replaced_at (front ++ (c ∷ back)) (c ∷ []) w (length front) ≡ (front ++ w) ++ back
unfolding replaced_at
replaced_at-append front w back c =
    let rest : drop (length front + 1) (front ++ (c ∷ back)) ≡ back =
      sym (drop-drop 1 (length front) (front ++ (c ∷ back)))
      ∙ ap (drop 1) (drop-length-append front (c ∷ back)) in
    rw (take-length-append front (c ∷ back), rest) (sym (append_assoc front w back))

-- One round of the loop, where the rest of the loop does what it should.
round :
    (c : ℕ) (w : List ℕ) (fuel : ℕ) (front str : List ℕ) (o : Option ℕ)
    → Found c w str o
    → length str ≤ suc fuel
    → ((done back : List ℕ)
        → length back ≤ fuel
        → replace_loop fuel
            (c ∷ [])
            w
            (done ++ back)
            (find_from (done ++ back) (c ∷ []) (length done))
          ≡ some (done ++ plain_replace c w back))
    → replace_loop (suc fuel) (c ∷ []) w (front ++ str) (behind (length front) o)
      ≡ some (front ++ plain_replace c w str)
unfolding replace_loop
round c w fuel front str none f h ih = ap (λ z. some (front ++ z)) (sym f)
round c w fuel front str (some i) (fr, back, split, len, all) h ih =
    let done = front ++ fr in
    let whole : front ++ str ≡ done ++ (c ∷ back) =
      ap (λ z. front ++ z) split ∙ sym (append_assoc front fr (c ∷ back)) in
    let place : length front + i ≡ length done = omega (arith, len, length-append front fr) in
    let next_text : replaced_at (front ++ str) (c ∷ []) w (length front + i) ≡ (done ++ w) ++ back =
      rw (whole, place) (replaced_at-append done w back c) in
    let next_place : length front + i + length w ≡ length (done ++ w) =
      omega (arith, place, length-append done w) in
    let size : length str ≡ length fr + suc (length back) =
      ap length split ∙ length-append fr (c ∷ back) in
    let rest = λ (text : List ℕ) (index : ℕ).
      replace_loop fuel (c ∷ []) w text (find_from text (c ∷ []) index) in
    ap (λ z. rest z (length front + i + length w)) next_text
    ∙ ap (rest ((done ++ w) ++ back)) next_place
    ∙ ih (done ++ w) back (omega (arith, h, size))
    ∙ ap some (
        append_assoc done w (plain_replace c w back)
        ∙ append_assoc front fr (w ++ plain_replace c w back)
        ∙ ap (λ z. front ++ z) (sym all))

replace_loop_lem :
    (c : ℕ) (w : List ℕ) (fuel : ℕ) (front str : List ℕ)
    → length str ≤ fuel
    → replace_loop fuel (c ∷ []) w (front ++ str) (find_from (front ++ str) (c ∷ []) (length front))
      ≡ some (front ++ plain_replace c w str)
unfolding replace_loop place_of
replace_loop_lem c w zero front [] h = rw (find_from-append front [] (c ∷ [])) refl
replace_loop_lem c w zero front (x ∷ str) h = absurd (omega arith)
replace_loop_lem c w (suc fuel) front str h = rw (find_from-append front str (c ∷ [])) (
    round c w fuel front str (place_of (c ∷ []) str) (place_of-Found c w str) h
      (λ done back l. replace_loop_lem c w fuel done back l))

-- For a single character `replace` ends, after as many rounds as the text has bytes at most, and answers
-- the text with every such character replaced; what is put in is not searched.
pub replace_single :
    (c : ℕ) (replace_with str : List ℕ)
    → replace (length str) str (c ∷ []) replace_with ≡ some (plain_replace c replace_with str)
unfolding replace
replace_single c w str = replace_loop_lem c w (length str) [] str (omega arith)

find_empty : (str : List ℕ) (index : ℕ) → index ≤ length str → find_from str [] index ≡ some index
unfolding find_from place_of
find_empty str index h =
    let inside : leb index (length str) ≡ true = ground arith in
    let here : place_of [] (drop index str) ≡ some 0 = anywhere (drop index str) in
    let zero_more : index + 0 ≡ index = omega arith in rw (inside, here) (ap some zero_more)
  where
    anywhere : (xs : List ℕ) → place_of [] xs ≡ some 0
    anywhere [] = refl
    anywhere (x ∷ xs) = refl

replaced_size :
    (w str : List ℕ) (index : ℕ)
    → index ≤ length str
    → index + length w ≤ length (replaced_at str [] w index)
unfolding replaced_at
replaced_size w str index h = omega (
  arith,
  h,
  length-append (take index str) (w ++ drop (index + 0) str),
  length-append w (drop (index + 0) str),
  length-take index str,
)

endless_loop :
    (w str : List ℕ) (fuel index : ℕ)
    → index ≤ length str
    → replace_loop fuel [] w str (some index) ≡ none
unfolding replace_loop
endless_loop w str zero index h = refl
endless_loop w str (suc fuel) index h =
    let str' = replaced_at str [] w index in
    let size = replaced_size w str index h in
    rw (replace_loop, find_empty str' (index + length w) size)
      (endless_loop w str' fuel (index + length w) size)

-- For an empty text `replace` does not end, however many rounds it runs.
pub replace_endless :
    (fuel : ℕ) (replace_with str : List ℕ) → replace fuel str [] replace_with ≡ none
unfolding replace
replace_endless fuel w str =
    rw (find_empty str 0 (omega arith)) (endless_loop w str fuel 0 (omega arith))
