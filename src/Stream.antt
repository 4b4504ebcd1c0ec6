-- ===== src/Stream.antt =====
-- src/streams/Stream.cpp: `readFixSize` and `writeFixSize`, the loops that read and write a whole
-- buffer. What the calls of `read` and `write` answer is a list: some bytes (none of them where the peer
-- has closed), an error, or that the stream is not connected, which every call from then on answers by
-- -1. When the list is at its end the peer has closed, and every call answers 0.
pub mod Whole
pub mod Leaves
pub mod Steady
mod Tests
use routn.Base.{
  ℕ, zero, suc, ◌+◌, ◌-◌, ◌%◌, ◌^◌, min, Bool, true, false, ◌&&◌, List, [], ◌∷◌, ◌++◌, length, take,
  drop, over, ltb, leb, ◌==◌, if◌then◌else◌,
}

-- `overrun` is an access outside of the buffer. `spins` is a loop all of whose further calls fail: it goes
-- on, one byte more being left after each, until `left` has run through all values of a size_t.
pub data Outcome {ℓ} (A : Type ℓ) : Type ℓ where
  ok : A → Outcome A
  overrun : Outcome A
  spins : Outcome A

infixl 5 ◌>>=◌
abbrev pub ◌>>=◌ {ℓ κ} : {A : Type ℓ} {B : Type κ} → Outcome A → (A → Outcome B) → Outcome B
ok a >>= f = f a
overrun >>= f = overrun
spins >>= f = spins

pub data Answer : Type 0 where
  got : List ℕ → Answer
  read_fails : Answer
  read_disconnected : Answer

pub data Accept : Type 0 where
  took : ℕ → Accept
  write_fails : Accept
  write_disconnected : Accept

-- The `int` that a call returns, by its bit pattern, and whether it is above 0.
abbrev pub int : ℕ → ℕ
int n = n % 2 ^ 32

abbrev pub is_positive : ℕ → Bool
is_positive n = leb 1 n && ltb n (2 ^ 31)

-- `len` is a size_t, so that the error -1 is a huge length, and adding it takes one away.
abbrev pub back : ℕ → ℕ
back n = (n + 2 ^ 64 - 1) % 2 ^ 64

abbrev pub forth : ℕ → ℕ
forth n = (n + 1) % 2 ^ 64

-- The result, what the buffer holds, and the answers that are left.
abbrev pub Read : Type 0
Read = ℕ × List ℕ × List Answer

-- The bytes that one call of `read` stores, if they fit the buffer.
abbrev pub store : ℕ → ℕ → List ℕ → List ℕ → Outcome (List ℕ)
store cap offset xs buffer =
    if ltb cap (offset + length xs) then overrun else ok (over buffer offset xs)

-- A buffer of `cap` bytes, of which `len` are asked for.
unfoldable pub read_loop : ℕ → ℕ → List Answer → ℕ → ℕ → List ℕ → Outcome Read
read_loop cap len [] offset left buffer =
    if left == 0 then ok (int len, buffer, []) else ok (0, buffer, [])
read_loop cap len (read_fails ∷ rest) offset left buffer =
    let more = read_loop cap len rest (back offset) (forth left) buffer in
    if left == 0 then ok (int len, buffer, read_fails ∷ rest) else more
read_loop cap len (read_disconnected ∷ rest) offset left buffer =
    if left == 0 then ok (int len, buffer, read_disconnected ∷ rest) else spins
read_loop cap len (got [] ∷ rest) offset left buffer =
    if left == 0 then ok (int len, buffer, got [] ∷ rest) else ok (0, buffer, rest)
read_loop cap len (got (x ∷ xs) ∷ rest) offset left buffer =
    let more =
      store cap offset (x ∷ xs) buffer
      >>= (λ b. read_loop cap len rest (offset + length (x ∷ xs)) (left - length (x ∷ xs)) b) in
    let last =
      store cap offset (take left (x ∷ xs)) buffer
      >>= (λ b. ok (int len, b, got (drop left (x ∷ xs)) ∷ rest)) in
    if left == 0
    then ok (int len, buffer, got (x ∷ xs) ∷ rest)
    else if ltb left (length (x ∷ xs))
    then last
    else more

-- `readFixSize(buffer, length)`
unfoldable pub read_fix_size : List Answer → ℕ → Outcome Read
read_fix_size input len = read_loop len len input 0 len []

-- The result, what was sent, and the answers that are left.
abbrev pub Written : Type 0
Written = ℕ × List ℕ × List Accept

-- The bytes that one call of `write` takes, if they lie in the buffer.
abbrev pub send : ℕ → ℕ → List ℕ → Outcome (List ℕ)
send offset n buffer =
    if ltb (length buffer) (offset + n) then overrun else ok (take n (drop offset buffer))

unfoldable pub write_loop : List ℕ → List Accept → ℕ → ℕ → List ℕ → Outcome Written
write_loop buffer [] offset left sent =
    if left == 0 then ok (int (length buffer), sent, []) else ok (0, sent, [])
write_loop buffer (write_fails ∷ rest) offset left sent =
    let more = write_loop buffer rest (back offset) (forth left) sent in
    if left == 0 then ok (int (length buffer), sent, write_fails ∷ rest) else more
write_loop buffer (write_disconnected ∷ rest) offset left sent =
    if left == 0 then ok (int (length buffer), sent, write_disconnected ∷ rest) else spins
write_loop buffer (took zero ∷ rest) offset left sent =
    if left == 0 then ok (int (length buffer), sent, took zero ∷ rest) else ok (0, sent, rest)
write_loop buffer (took (suc k) ∷ rest) offset left sent =
    let n = min left (suc k) in
    let more =
      send offset n buffer
      >>= (λ xs. write_loop buffer rest (offset + n) (left - n) (sent ++ xs)) in
    if left == 0 then ok (int (length buffer), sent, took (suc k) ∷ rest) else more

-- `writeFixSize(buffer, length)`
unfoldable pub write_fix_size : List Accept → List ℕ → Outcome Written
write_fix_size accepts buffer = write_loop buffer accepts 0 (length buffer) []
