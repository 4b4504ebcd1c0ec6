-- ===== src/Stream/Leaves.antt =====
-- What a run of `readFixSize` of src/streams/Stream.cpp leaves on the stream.
use routn.Base.{
  ℕ, suc, ◌+◌, ◌-◌, ◌≤◌, ◌<◌, ◌≡◌, Bool, true, false, List, [], ◌∷◌, length, take, length-drop, ltb,
  ◌==◌, if◌then◌else◌, arith, inl, inr, Bool-cases,
}
use routn.Stream.{
  Outcome, ok, overrun, ◌>>=◌, Answer, got, read_fails, read_disconnected, spins, is_positive, back,
  forth, Read, store, read_loop,
}

-- How much is left on the stream: the bytes and the calls.
abbrev pub left_on : List Answer → ℕ
left_on [] = 0
left_on (got xs ∷ rest) = 1 + length xs + left_on rest
left_on (read_fails ∷ rest) = 1 + left_on rest
left_on (read_disconnected ∷ rest) = 1 + left_on rest

abbrev pub Leaves : ℕ → Outcome Read → Type 0
Leaves m overrun = Unit
Leaves m spins = Unit
Leaves m (ok r) = left_on r.2 ≤ m

-- A read of at least one byte that answers more than 0 leaves less.
abbrev pub LeavesLess : ℕ → Outcome Read → Type 0
LeavesLess m overrun = Unit
LeavesLess m spins = Unit
LeavesLess m (ok r) = is_positive r.0 ≡ true → left_on r.2 < m

Leaves-le : (m n : ℕ) (o : Outcome Read) → m ≤ n → Leaves m o → Leaves n o
Leaves-le m n overrun h l = tt
Leaves-le m n spins h l = tt
Leaves-le m n (ok r) h l = omega (arith, h, l)

Leaves-less : (m n : ℕ) (o : Outcome Read) → m < n → Leaves m o → LeavesLess n o
Leaves-less m n overrun h l = tt
Leaves-less m n spins h l = tt
Leaves-less m n (ok r) h l = λ e. omega (arith, h, l)

after_store :
    (m : ℕ) (o : Outcome (List ℕ)) (k : List ℕ → Outcome Read)
    → ((b : List ℕ) → Leaves m (k b))
    → Leaves m (o >>= k)
after_store m overrun k h = tt
after_store m spins k h = tt
after_store m (ok b) k h = h b

-- A call of `read` takes one off at least, where anything is asked for and left.
abbrev pub less_if : Bool → ℕ → ℕ
less_if b n = if b then n else n - 1

less_if-le : (b : Bool) (n : ℕ) → less_if b n ≤ n
less_if-le true n = omega arith
less_if-le false n = omega arith

read_loop-Leaves :
    (cap len : ℕ) (input : List Answer) (offset left : ℕ) (buffer : List ℕ)
    → Leaves (less_if (left == 0) (left_on input)) (read_loop cap len input offset left buffer)
unfolding read_loop
read_loop-Leaves cap len [] offset left buffer = elim (Bool-cases (left == 0)) [
  | inl e ↦ rw e (omega arith)
  | inr e ↦ rw e (omega arith)
]
read_loop-Leaves cap len (read_fails ∷ rest) offset left buffer = elim (Bool-cases (left == 0)) [
  | inl e ↦ rw e (omega arith)
  | inr e ↦ rw e (
      Leaves-le _ _ _ (omega (arith, less_if-le (forth left == 0) (left_on rest)))
        (read_loop-Leaves cap len rest (back offset) (forth left) buffer))
]
read_loop-Leaves cap len (read_disconnected ∷ rest) offset left buffer =
    elim (Bool-cases (left == 0)) [ inl e ↦ rw e (omega arith) | inr e ↦ rw e tt ]
read_loop-Leaves cap len (got [] ∷ rest) offset left buffer = elim (Bool-cases (left == 0)) [
  | inl e ↦ rw e (omega arith)
  | inr e ↦ rw e (omega arith)
]
read_loop-Leaves cap len (got (x ∷ xs) ∷ rest) offset left buffer = elim (Bool-cases (left == 0)) [
  | inl e ↦ rw e (omega arith)
  | inr e ↦ elim (Bool-cases (ltb left (length (x ∷ xs)))) [
    | inl small ↦
        let some_left : 1 ≤ left = ground (arith, e) in
        rw (e, small)
          (after_store _ (store cap offset (take left (x ∷ xs)) buffer) _
            (λ b. omega (arith, length-drop left (x ∷ xs), some_left)))
    | inr all ↦
        let m = length (x ∷ xs) in
        rw (e, all)
          (after_store _ (store cap offset (x ∷ xs) buffer) _ (λ b.
            Leaves-le _ _ _ (omega (arith, less_if-le (left - m == 0) (left_on rest)))
              (read_loop-Leaves cap len rest (offset + m) (left - m) b)))
  ]
]

-- A read leaves no more than there was, and if it asks for a byte and answers more than 0, less.
pub any_read :
    (cap len offset left : ℕ) (input : List Answer) (buffer : List ℕ)
    → Leaves (left_on input) (read_loop cap len input offset left buffer)
any_read cap len offset left input buffer =
    Leaves-le _ _ _ (less_if-le (left == 0) (left_on input))
      (read_loop-Leaves cap len input offset left buffer)

left_on-cons : (a : Answer) (rest : List Answer) → 1 ≤ left_on (a ∷ rest)
left_on-cons (got xs) rest = omega arith
left_on-cons read_fails rest = omega arith
left_on-cons read_disconnected rest = omega arith

pub first_read :
    (cap len : ℕ) (input : List Answer)
    → LeavesLess (left_on input) (read_loop cap (suc len) input 0 (suc len) [])
unfolding read_loop
first_read cap len [] = let e : (suc len == 0) ≡ false = ground arith in rw e (λ p. absurd cc)
first_read cap len (a ∷ rest) =
    let e : (suc len == 0) ≡ false = ground arith in
    Leaves-less _ _ _ (rw e (omega (arith, left_on-cons a rest)))
      (read_loop-Leaves cap (suc len) (a ∷ rest) 0 (suc len) [])
