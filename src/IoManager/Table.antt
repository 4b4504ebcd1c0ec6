-- ===== src/IoManager/Table.antt =====
-- The event table of src/IoManager.cpp as a table of what waits: for each file descriptor what is to
-- run on a read event and what on a write event. `manager` is the state that stands for such a table.
use Prim.Native.Nat.{bit_or}
use mathlib.Core.List.{append-nil}
use routn.Base.{
  ℕ, zero, suc, ◌+◌, ◌-◌, ◌*◌, ◌/◌, ◌^◌, ◌≤◌, ◌<◌, ◌≡◌, refl, ap, ◌∙◌, true, Option, none, some,
  List, [], ◌∷◌, ◌++◌, length, get_elem?, set, replicate, take, take_all, leb, if◌then◌else◌, arith,
  Bool-cases, inl, inr, length-append, length-replicate, get_elem?_past, get_elem?-set, length-set,
  Option-cases,
}
use routn.IoManager.{
  Event, read, write, EventContext, FdContext, IoManager, Scheduled, fiber_task, callback_task,
  empty_context, new_contexts, context_resize,
}

-- What waits for a read event, and what for a write event.
abbrev pub Entry : Type 0
Entry = Option Scheduled × Option Scheduled

abbrev pub Table : Type 0
Table = List Entry

abbrev pub empty_entry : Entry
empty_entry = (none, none)

abbrev pub slot : Option Scheduled → EventContext
slot none = empty_context
slot (some (s, fiber_task f)) = record { scheduler = some s; fiber = some f; callback = none }
slot (some (s, callback_task k)) = record { scheduler = some s; fiber = none; callback = some k }

abbrev pub flag : Option Scheduled → ℕ → ℕ
flag none n = 0
flag (some w) n = n

abbrev pub context_of : ℕ → Option Scheduled → Option Scheduled → FdContext
context_of i r w = record {
  fd = i;
  read_context = slot r;
  write_context = slot w;
  events = bit_or (flag r 1) (flag w 4);
}

abbrev pub build : ℕ → Table → List FdContext
build i [] = []
build i ((r, w) ∷ t) = context_of i r w ∷ build (suc i) t

-- How many events are registered.
abbrev pub total : Table → ℕ
total [] = 0
total ((r, w) ∷ t) = flag r 1 + flag w 1 + total t

abbrev pub manager : Table → IoManager
manager t = record { contexts = build 0 t; pending = total t }

abbrev pub IsTable : Table → Type 0
IsTable t = (32 ≤ length t) × (length t ≤ 2 ^ 32)

abbrev pub side : Event → Entry → Option Scheduled
side read (r, w) = r
side write (r, w) = w

abbrev pub put_side : Event → Option Scheduled → Entry → Entry
put_side read x (r, w) = (x, w)
put_side write x (r, w) = (r, x)

-- What waits for the event, and the table in which this is replaced.
abbrev pub at : ℕ → Event → Table → Option Scheduled
at fd e t = elim (get_elem? t fd) [ none ↦ none | some x ↦ side e x ]

abbrev pub put_at : ℕ → Event → Option Scheduled → Table → Table
put_at fd e v t = elim (get_elem? t fd) [ none ↦ t | some x ↦ set t fd (put_side e v x) ]

abbrev pub grown : ℕ → Table → Table
grown fd t = if leb (length t) fd then t ++ replicate (fd * 3 / 2 - length t) empty_entry else t

pub length-build : (i : ℕ) (t : Table) → length (build i t) ≡ length t
length-build i [] = refl
length-build i ((r, w) ∷ t) = ap suc (length-build (suc i) t)

pub get_elem?-build :
    (i n j : ℕ) (t : Table) (r w : Option Scheduled)
    → get_elem? t n ≡ some (r, w)
    → i + n ≡ j
    → get_elem? (build i t) n ≡ some (context_of j r w)
get_elem?-build i n j [] r w h e = absurd cc
get_elem?-build i zero j ((r', w') ∷ t) r w h e =
    let ij : i ≡ j = omega arith in
    let er : r' ≡ r = cc in let ew : w' ≡ w = cc in rw (ij, er, ew) refl
get_elem?-build i (suc n) j ((r', w') ∷ t) r w h e =
    get_elem?-build (suc i) n j t r w h (omega arith)

pub set-build :
    (i n j : ℕ) (t : Table) (r w : Option Scheduled)
    → i + n ≡ j
    → set (build i t) n (context_of j r w) ≡ build i (set t n (r, w))
set-build i n j [] r w e = refl
set-build i zero j ((r', w') ∷ t) r w e = let ij : i ≡ j = omega arith in rw ij refl
set-build i (suc n) j ((r', w') ∷ t) r w e =
    ap (◌∷◌ (context_of i r' w')) (set-build (suc i) n j t r w (omega arith))

build-append :
    (i j n : ℕ) (t : Table)
    → i + length t ≡ j
    → build i t ++ new_contexts j n ≡ build i (t ++ replicate n empty_entry)
build-append i j zero [] e = refl
build-append i j (suc n) [] e =
    let ij : i ≡ j = omega arith in
    rw (← ij) (ap (◌∷◌ (context_of i none none)) (build-append (suc i) (suc i) n [] (omega arith)))
build-append i j n ((r, w) ∷ t) e =
    ap (◌∷◌ (context_of i r w)) (build-append (suc i) j n t (omega arith))

-- The vector grows to one and a half times the descriptor where this lies past its end.
pub context_resize-build :
    (fd : ℕ) (t : Table)
    → leb (length t) fd ≡ true
    → context_resize (fd * 3 / 2) (build 0 t)
      ≡ build 0 (t ++ replicate (fd * 3 / 2 - length t) empty_entry)
unfolding context_resize
context_resize-build fd t past = elim (Bool-cases (leb (fd * 3 / 2) (length t))) [
  | inl same ↦
      let le : length t ≤ fd = ground (arith, past) in
      let ge : fd * 3 / 2 ≤ length t = ground (arith, same) in
      let e : fd * 3 / 2 - length t ≡ 0 = omega arith in
      rw (length-build 0 t, same, e, append-nil t)
        (take_all (fd * 3 / 2) (build 0 t) (omega (arith, length-build 0 t)))
  | inr more ↦
      rw (length-build 0 t, more)
        (build-append 0 (length t) (fd * 3 / 2 - length t) t (omega arith))
]

take-build : (i n : ℕ) (t : Table) → take n (build i t) ≡ build i (take n t)
take-build i zero t = refl
take-build i (suc n) [] = refl
take-build i (suc n) ((r, w) ∷ t) = ap (◌∷◌ (context_of i r w)) (take-build (suc i) n t)

-- Where the vector is longer already, it is cut.
pub context_resize_cut :
    (size : ℕ) (t : Table)
    → size ≤ length t
    → context_resize size (build 0 t) ≡ build 0 (take size t)
unfolding context_resize
context_resize_cut size t h =
    let short : leb size (length t) ≡ true = ground arith in
    rw (length-build 0 t, short) (take-build 0 size t)

pub length-grown :
    (fd : ℕ) (t : Table)
    → IsTable t
    → fd < 2 ^ 31
    → IsTable (grown fd t) × (fd < length (grown fd t))
length-grown fd t v h = elim (Bool-cases (leb (length t) fd)) [
  | inr roomy ↦ rw roomy ((v.0, v.1), ground (arith, roomy))
  | inl past ↦
      let le : length t ≤ fd = ground (arith, past) in
      let e : length (t ++ replicate (fd * 3 / 2 - length t) empty_entry) ≡ fd * 3 / 2 = omega (
        arith,
        length-append t (replicate (fd * 3 / 2 - length t) empty_entry),
        length-replicate (fd * 3 / 2 - length t) empty_entry,
      ) in
      rw (past, e) ((omega (arith, v.0), omega arith), omega (arith, v.0))
]

at-replicate : (j n : ℕ) (e : Event) → at j e (replicate n empty_entry) ≡ none
at-replicate j zero e = refl
at-replicate zero (suc n) read = refl
at-replicate zero (suc n) write = refl
at-replicate (suc j) (suc n) e = at-replicate j n e

at-append :
    (j : ℕ) (e : Event) (t : Table) (n : ℕ) → at j e (t ++ replicate n empty_entry) ≡ at j e t
at-append j e [] n = at-replicate j n e
at-append zero e (x ∷ t) n = refl
at-append (suc j) e (x ∷ t) n = at-append j e t n

total-append : (t : Table) (n : ℕ) → total (t ++ replicate n empty_entry) ≡ total t
total-append [] zero = refl
total-append [] (suc n) = omega (arith, total-append [] n)
total-append ((r, w) ∷ t) n = omega (arith, total-append t n)

pub at-grown : (fd j : ℕ) (e : Event) (t : Table) → at j e (grown fd t) ≡ at j e t
at-grown fd j e t = elim (Bool-cases (leb (length t) fd)) [
  | inr roomy ↦ rw roomy refl
  | inl past ↦ rw past (at-append j e t (fd * 3 / 2 - length t))
]

pub total-grown : (fd : ℕ) (t : Table) → total (grown fd t) ≡ total t
total-grown fd t = elim (Bool-cases (leb (length t) fd)) [
  | inr roomy ↦ rw roomy refl
  | inl past ↦ rw past (total-append t (fd * 3 / 2 - length t))
]

flag-le : (o : Option Scheduled) (n : ℕ) → flag o n ≤ n
flag-le none n = omega arith
flag-le (some w) n = omega arith

pub total-le : (t : Table) → total t ≤ 2 * length t
total-le [] = omega arith
total-le ((r, w) ∷ t) = omega (arith, flag-le r 1, flag-le w 1, total-le t)

-- A replaced entry changes the number of registered events by its own.
pub total-set :
    (t : Table) (n : ℕ) (x y : Entry)
    → get_elem? t n ≡ some x
    → total (set t n y) + flag x.0 1 + flag x.1 1 ≡ total t + flag y.0 1 + flag y.1 1
total-set [] n x y h = absurd cc
total-set ((r, w) ∷ t) zero (r', w') (r2, w2) h =
    let er : r ≡ r' = cc in let ew : w ≡ w' = cc in rw (er, ew) (omega arith)
total-set ((r, w) ∷ t) (suc n) x y h = omega (arith, total-set t n x y h)

pub total-put_at :
    (fd : ℕ) (e : Event) (t : Table) (v r w : Option Scheduled)
    → get_elem? t fd ≡ some (r, w)
    → total (put_at fd e v t) + flag (side e (r, w)) 1 ≡ total t + flag v 1
total-put_at fd read t v r w g = rw (g, put_at) (omega (arith, total-set t fd (r, w) (v, w) g))
total-put_at fd write t v r w g = rw (g, put_at) (omega (arith, total-set t fd (r, w) (r, v) g))

pub length-put_at :
    (fd : ℕ) (e : Event) (v : Option Scheduled) (t : Table) → length (put_at fd e v t) ≡ length t
length-put_at fd e v t = elim (Option-cases (get_elem? t fd)) [
  | inl gone ↦ rw (gone, put_at) refl
  | inr (x, there) ↦ rw (there, put_at) (length-set t fd (put_side e v x))
]

pub at-put_at :
    (fd : ℕ) (e : Event) (v : Option Scheduled) (t : Table) (x : Entry)
    → get_elem? t fd ≡ some x
    → at fd e (put_at fd e v t) ≡ v
at-put_at fd read v t x g =
    let here : get_elem? (set t fd (v, x.1)) fd ≡ some (v, x.1) =
      get_elem?-set t fd fd (v, x.1) ∙ rw g (ground arith) in
    rw (g, put_at, here, at) refl
at-put_at fd write v t x g =
    let here : get_elem? (set t fd (x.0, v)) fd ≡ some (x.0, v) =
      get_elem?-set t fd fd (x.0, v) ∙ rw g (ground arith) in
    rw (g, put_at, here, at) refl

pub at_past : (j : ℕ) (e : Event) (t : Table) → length t ≤ j → at j e t ≡ none
at_past j e t h = rw (get_elem?_past t j h, at) refl
