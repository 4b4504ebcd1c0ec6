-- ===== src/Stream/Steady.antt =====
-- Streams that stay connected: the loops of src/streams/Stream.cpp end on them.
use routn.Base.{
  ℕ, zero, suc, ◌+◌, min, List, [], ◌∷◌, length, take, ltb, ◌==◌, inl, inr, Bool-cases,
}
use routn.Stream.{
  Outcome, ok, overrun, spins, Answer, got, read_fails, read_disconnected, Accept, took,
  write_fails, write_disconnected, back, forth, Read, Written, read_loop, write_loop,
  write_fix_size,
}

-- No call answers that the stream is not connected.
abbrev pub IsSteady : List Answer → Type 0
IsSteady [] = Unit
IsSteady (got xs ∷ rest) = IsSteady rest
IsSteady (read_fails ∷ rest) = IsSteady rest
IsSteady (read_disconnected ∷ rest) = ⊥

abbrev pub TakesSteadily : List Accept → Type 0
TakesSteadily [] = Unit
TakesSteadily (took n ∷ rest) = TakesSteadily rest
TakesSteadily (write_fails ∷ rest) = TakesSteadily rest
TakesSteadily (write_disconnected ∷ rest) = ⊥

abbrev pub EndsRead : Outcome Read → Type 0
EndsRead overrun = Unit
EndsRead spins = ⊥
EndsRead (ok r) = IsSteady r.2

abbrev pub EndsWrite : Outcome Written → Type 0
EndsWrite overrun = Unit
EndsWrite spins = ⊥
EndsWrite (ok r) = TakesSteadily r.2

pub read_loop-EndsRead :
    (cap len : ℕ) (input : List Answer) (offset left : ℕ) (buffer : List ℕ)
    → IsSteady input
    → EndsRead (read_loop cap len input offset left buffer)
unfolding read_loop
read_loop-EndsRead cap len [] offset left buffer h = elim (Bool-cases (left == 0)) [
  | inl e ↦ rw e tt
  | inr e ↦ rw e tt
]
read_loop-EndsRead cap len (read_fails ∷ rest) offset left buffer h =
    elim (Bool-cases (left == 0)) [
      | inl e ↦ rw e h
      | inr e ↦ rw e (read_loop-EndsRead cap len rest (back offset) (forth left) buffer h)
    ]
read_loop-EndsRead cap len (read_disconnected ∷ rest) offset left buffer h = absurd h
read_loop-EndsRead cap len (got [] ∷ rest) offset left buffer h = elim (Bool-cases (left == 0)) [
  | inl e ↦ rw e h
  | inr e ↦ rw e h
]
read_loop-EndsRead cap len (got (x ∷ xs) ∷ rest) offset left buffer h =
    elim (Bool-cases (left == 0)) [
      | inl e ↦ rw e h
      | inr e ↦ elim (Bool-cases (ltb left (length (x ∷ xs)))) [
        | inl small ↦
            rw (e, small)
              (elim (Bool-cases (ltb cap (offset + length (take left (x ∷ xs))))) [
                | inl far ↦ rw far tt
                | inr near ↦ rw near h
              ])
        | inr all ↦
            rw (e, all)
              (elim (Bool-cases (ltb cap (offset + length (x ∷ xs)))) [
                | inl far ↦ rw far tt
                | inr near ↦ rw near (read_loop-EndsRead cap len rest _ _ _ h)
              ])
      ]
    ]

write_loop-EndsWrite :
    (buffer : List ℕ) (accepts : List Accept) (offset left : ℕ) (sent : List ℕ)
    → TakesSteadily accepts
    → EndsWrite (write_loop buffer accepts offset left sent)
unfolding write_loop
write_loop-EndsWrite buffer [] offset left sent h = elim (Bool-cases (left == 0)) [
  | inl e ↦ rw e tt
  | inr e ↦ rw e tt
]
write_loop-EndsWrite buffer (write_fails ∷ rest) offset left sent h =
    elim (Bool-cases (left == 0)) [
      | inl e ↦ rw e h
      | inr e ↦ rw e (write_loop-EndsWrite buffer rest (back offset) (forth left) sent h)
    ]
write_loop-EndsWrite buffer (write_disconnected ∷ rest) offset left sent h = absurd h
write_loop-EndsWrite buffer (took zero ∷ rest) offset left sent h = elim (Bool-cases (left == 0)) [
  | inl e ↦ rw e h
  | inr e ↦ rw e h
]
write_loop-EndsWrite buffer (took (suc k) ∷ rest) offset left sent h =
    elim (Bool-cases (left == 0)) [
      | inl e ↦ rw e h
      | inr e ↦ rw e (elim (Bool-cases (ltb (length buffer) (offset + min left (suc k)))) [
        | inl far ↦ rw far tt
        | inr near ↦ rw near (write_loop-EndsWrite buffer rest _ _ _ h)
      ])
    ]

pub write_fix_size-EndsWrite :
    (accepts : List Accept) (buffer : List ℕ)
    → TakesSteadily accepts
    → EndsWrite (write_fix_size accepts buffer)
unfolding write_fix_size
write_fix_size-EndsWrite accepts buffer h =
    write_loop-EndsWrite buffer accepts 0 (length buffer) [] h
