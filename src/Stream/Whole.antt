-- ===== src/Stream/Whole.antt =====
-- `readFixSize` and `writeFixSize` of src/streams/Stream.cpp over any division of the bytes into calls.
use mathlib.Core.List.{append_assoc, append-nil}
use routn.Base.{
  ℕ, zero, suc, ◌+◌, ◌-◌, ◌^◌, ◌≤◌, ◌<◌, min, ◌≡◌, refl, ap, sym, ◌∙◌, true, false, List, [], ◌∷◌,
  ◌++◌, length, take, drop, over, ltb, ◌==◌, arith, Bool-cases, inl, inr, length-append,
  length-take, take-append-drop, drop_all, drop-drop, take-append_left, take-append_right,
  drop-append_left, drop-append_right,
}
use routn.Stream.{
  ok, overrun, ◌>>=◌, Answer, got, read_fails, read_disconnected, Accept, took, write_fails,
  write_disconnected, int, back, forth, store, read_loop, read_fix_size, write_loop, write_fix_size,
  send,
}

-- The bytes that are to come, where each answer has some.
abbrev pub bytes : List Answer → List ℕ
bytes [] = []
bytes (got xs ∷ rest) = xs ++ bytes rest
bytes (read_fails ∷ rest) = bytes rest
bytes (read_disconnected ∷ rest) = bytes rest

abbrev pub IsOpen : List Answer → Type 0
IsOpen [] = Unit
IsOpen (got [] ∷ rest) = ⊥
IsOpen (got (x ∷ xs) ∷ rest) = IsOpen rest
IsOpen (read_fails ∷ rest) = ⊥
IsOpen (read_disconnected ∷ rest) = ⊥

over_end : (xs ys : List ℕ) → over xs (length xs) ys ≡ xs ++ ys
over_end [] ys = refl
over_end (x ∷ xs) ys = ap (◌∷◌ x) (over_end xs ys)

store_end :
    (len : ℕ) (xs buffer : List ℕ)
    → length buffer + length xs ≤ len
    → store len (length buffer) xs buffer ≡ ok (buffer ++ xs)
store_end len xs buffer h =
    let fits : ltb len (length buffer + length xs) ≡ false = ground arith in
    rw (fits, over_end buffer xs) refl

drop-IsOpen :
    (n : ℕ) (xs : List ℕ) (rest : List Answer)
    → n < length xs
    → IsOpen rest
    → IsOpen (got (drop n xs) ∷ rest)
drop-IsOpen n [] rest h o = absurd (omega arith)
drop-IsOpen zero (x ∷ xs) rest h o = o
drop-IsOpen (suc n) (x ∷ xs) rest h o = drop-IsOpen n xs rest (omega arith) o

read_loop_lem :
    (len left : ℕ) (input : List Answer) (buffer : List ℕ)
    → IsOpen input
    → length buffer + left ≡ len
    → left ≤ length (bytes input)
    → (input' : List Answer) × (read_loop len len input (length buffer) left buffer
        ≡ ok (int len, buffer ++ take left (bytes input), input'))
      × (bytes input' ≡ drop left (bytes input))
      × IsOpen input'
unfolding read_loop
read_loop_lem len zero [] buffer o e h = ([], rw (append-nil buffer) refl, refl, tt)
read_loop_lem len (suc left) [] buffer o e h = absurd (omega arith)
read_loop_lem len left (read_fails ∷ rest) buffer o e h = absurd o
read_loop_lem len left (read_disconnected ∷ rest) buffer o e h = absurd o
read_loop_lem len left (got [] ∷ rest) buffer o e h = absurd o
read_loop_lem len zero (got (x ∷ xs) ∷ rest) buffer o e h =
    (got (x ∷ xs) ∷ rest, rw (append-nil buffer) refl, refl, o)
read_loop_lem len (suc left) (got (x ∷ xs) ∷ rest) buffer o e h =
    let ys = x ∷ xs in
    let more : (suc left == 0) ≡ false = ground arith in
    elim (Bool-cases (ltb (suc left) (length ys))) [
      | inl small ↦
          let lt : suc left < length ys = ground (arith, small) in
          let whole = take-append_left (suc left) ys (bytes rest) (omega arith) in
          let fits = length-take (suc left) ys in
          (
            got (drop (suc left) ys) ∷ rest,
            rw
                (
                  more,
                  small,
                  store_end len (take (suc left) ys) buffer (omega (arith, fits)),
                  ◌>>=◌,
                  whole,
                )
                refl,
            sym (drop-append_left (suc left) ys (bytes rest) (omega arith)),
            drop-IsOpen (suc left) ys rest lt o,
          )
      | inr all ↦
          let le : length ys ≤ suc left = ground (arith, all) in
          let len_more = length-append buffer ys in
          let (input', r, b, o') =
            read_loop_lem len (suc left - length ys) rest (buffer ++ ys) o (omega (arith, len_more))
              (omega (arith, length-append ys (bytes rest))) in
          (
            input',
            rw
                (
                  more,
                  all,
                  store_end len ys buffer (omega arith),
                  ◌>>=◌,
                  ← len_more,
                  r,
                  take-append_right (suc left) ys (bytes rest) le,
                  append_assoc buffer ys (take (suc left - length ys) (bytes rest)),
                )
                refl,
            b ∙ sym (drop-append_right (suc left) ys (bytes rest) le),
            o',
          )
    ]

-- Where every call of `read` gets some bytes, `readFixSize` of a length for which there are enough
-- returns the length and the first bytes, however they are divided; the others are left.
pub read_fix_size_whole :
    (len : ℕ) (input : List Answer)
    → IsOpen input
    → len ≤ length (bytes input)
    → (input' : List Answer) × (read_fix_size input len
        ≡ ok (int len, take len (bytes input), input'))
      × (bytes input' ≡ drop len (bytes input))
      × IsOpen input'
unfolding read_fix_size
read_fix_size_whole len input o h = read_loop_lem len len input [] o (omega arith) h

read_loop_short :
    (len left : ℕ) (input : List Answer) (buffer : List ℕ)
    → IsOpen input
    → length buffer + left ≡ len
    → length (bytes input) < left
    → read_loop len len input (length buffer) left buffer ≡ ok (0, buffer ++ bytes input, [])
unfolding read_loop
read_loop_short len zero input buffer o e h = absurd (omega arith)
read_loop_short len (suc left) [] buffer o e h =
    let more : (suc left == 0) ≡ false = ground arith in rw (more, append-nil buffer) refl
read_loop_short len left (read_fails ∷ rest) buffer o e h = absurd o
read_loop_short len left (read_disconnected ∷ rest) buffer o e h = absurd o
read_loop_short len left (got [] ∷ rest) buffer o e h = absurd o
read_loop_short len (suc left) (got (x ∷ xs) ∷ rest) buffer o e h =
    let ys = x ∷ xs in
    let len_more = length-append buffer ys in
    let total = length-append ys (bytes rest) in
    let more : (suc left == 0) ≡ false = ground arith in
    let all : ltb (suc left) (length ys) ≡ false = ground (arith, total) in
    let r =
      read_loop_short len (suc left - length ys) rest (buffer ++ ys) o
        (omega (arith, len_more, total)) (omega (arith, total)) in
    rw
      (
        more,
        all,
        store_end len ys buffer (omega (arith, total)),
        ◌>>=◌,
        ← len_more,
        r,
        append_assoc buffer ys (bytes rest),
      )
      refl

-- Where the stream is closed before enough bytes have come, `readFixSize` returns 0 and all bytes are
-- gone.
pub read_fix_size_short :
    (len : ℕ) (input : List Answer)
    → IsOpen input
    → length (bytes input) < len
    → read_fix_size input len ≡ ok (0, bytes input, [])
unfolding read_fix_size
read_fix_size_short len input o h = read_loop_short len len input [] o (omega arith) h

store_far : (len : ℕ) (xs : List ℕ) → len + 1 < 2 ^ 64 → store len (back 0) xs [] ≡ overrun
store_far len xs h = let out : ltb len (back 0 + length xs) ≡ true = ground arith in rw out refl

-- Where the first call of `read` fails and bytes come then, `readFixSize` stores them before the buffer.
pub read_fix_size_overruns :
    (len : ℕ) (x : ℕ) (xs : List ℕ) (rest : List Answer)
    → 0 < len
    → len + 1 < 2 ^ 64
    → read_fix_size (read_fails ∷ got (x ∷ xs) ∷ rest) len ≡ overrun
unfolding read_fix_size read_loop
read_fix_size_overruns len x xs rest h1 h2 =
    let one : (len == 0) ≡ false = ground arith in
    let two : (forth len == 0) ≡ false = ground arith in
    rw (one, two, store_far len (take (forth len) (x ∷ xs)) h2, store_far len (x ∷ xs) h2)
      (elim (Bool-cases (ltb (forth len) (length (x ∷ xs)))) [
        | inl small ↦ rw small refl
        | inr all ↦ rw all refl
      ])

-- Every call of `write` takes some bytes.
abbrev pub IsReady : List Accept → Type 0
IsReady [] = Unit
IsReady (took zero ∷ rest) = ⊥
IsReady (took (suc k) ∷ rest) = IsReady rest
IsReady (write_fails ∷ rest) = ⊥
IsReady (write_disconnected ∷ rest) = ⊥

send_lem :
    (offset n : ℕ) (buffer : List ℕ)
    → offset + n ≤ length buffer
    → send offset n buffer ≡ ok (take n (drop offset buffer))
send_lem offset n buffer h =
    let fits : ltb (length buffer) (offset + n) ≡ false = ground arith in rw fits refl

write_loop_lem :
    (buffer : List ℕ) (accepts : List Accept) (offset left : ℕ) (sent : List ℕ)
    → IsReady accepts
    → offset + left ≡ length buffer
    → left ≤ length accepts
    → (accepts' : List Accept) × (write_loop buffer accepts offset left sent
        ≡ ok (int (length buffer), sent ++ drop offset buffer, accepts'))
      × IsReady accepts'
      × (length accepts ≤ length accepts' + left)
unfolding write_loop
write_loop_lem buffer [] offset (suc left) sent o e h = absurd (omega arith)
write_loop_lem buffer (write_fails ∷ rest) offset left sent o e h = absurd o
write_loop_lem buffer (write_disconnected ∷ rest) offset left sent o e h = absurd o
write_loop_lem buffer (took zero ∷ rest) offset left sent o e h = absurd o
write_loop_lem buffer [] offset zero sent o e h =
    ([], rw (drop_all offset buffer (omega arith), append-nil sent) refl, tt, omega arith)
write_loop_lem buffer (took (suc k) ∷ rest) offset zero sent o e h = (
  took (suc k) ∷ rest,
  rw (drop_all offset buffer (omega arith), append-nil sent) refl,
  o,
  omega arith,
)
write_loop_lem buffer (took (suc k) ∷ rest) offset (suc left) sent o e h =
    let more : (suc left == 0) ≡ false = ground arith in
    let n = min (suc left) (suc k) in
    let xs = take n (drop offset buffer) in
    let (accepts', r, o', m) =
      write_loop_lem buffer rest (offset + n) (suc left - n) (sent ++ xs) o (omega arith)
        (omega arith) in
    let cut : xs ++ drop (offset + n) buffer ≡ drop offset buffer =
      ap (λ (l : List ℕ). xs ++ l) (sym (drop-drop n offset buffer))
      ∙ take-append-drop n (drop offset buffer) in
    (
      accepts',
      rw
          (
            more,
            send_lem offset n buffer (omega arith),
            ◌>>=◌,
            r,
            append_assoc sent xs (drop (offset + n) buffer),
            cut,
          )
          refl,
      o',
      omega arith,
    )

-- Where every call of `write` takes some bytes, and there are as many calls as bytes, `writeFixSize`
-- returns the length and sends the buffer, each byte once and in order; it makes no more calls than
-- there are bytes.
pub write_fix_size_whole :
    (buffer : List ℕ) (accepts : List Accept)
    → IsReady accepts
    → length buffer ≤ length accepts
    → (accepts' : List Accept) × (write_fix_size accepts buffer
        ≡ ok (int (length buffer), buffer, accepts'))
      × IsReady accepts'
      × (length accepts ≤ length accepts' + length buffer)
unfolding write_fix_size
write_fix_size_whole buffer accepts o h =
    write_loop_lem buffer accepts 0 (length buffer) [] o (omega arith) h
