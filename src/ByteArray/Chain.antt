-- ===== src/ByteArray/Chain.antt =====
-- The block loops of ByteArray.cpp over a chain of equal blocks, seen on the flat bytes.
use routn.Base.{
  ℕ, zero, suc, ◌+◌, ◌-◌, ◌*◌, ◌≤◌, ◌<◌, ◌≡◌, refl, ap, sym, min, inl, inr, true, false, List, [],
  ◌∷◌, ◌++◌, length, take, drop, replicate, over, leb, ◌==◌, if◌then◌else◌, arith, Bool-cases,
  tests, length-append, length-take, length-drop, length-replicate,
}
use routn.Base.Overwrite.{length-over, over-append_left, over-append_split}
use mathlib.Core.List.{append_assoc}
use routn.ByteArray.{ok, Node, new_node, write_chain}

unfoldable pub flat : List Node → List ℕ
flat [] = []
flat (n ∷ rest) = n.ptr ++ flat rest

-- Every block has `base` bytes.
abbrev pub Blocks : ℕ → List Node → Type 0
Blocks base [] = Unit {0}
Blocks base (n ∷ rest) = (n.size ≡ base) × (length n.ptr ≡ base) × Blocks base rest

pub length-flat : (base : ℕ) (ns : List Node) → Blocks base ns → length (flat ns) ≡ length ns * base
unfolding flat
length-flat base [] h = omega arith
length-flat base (n ∷ rest) h =
    omega (arith, length-append n.ptr (flat rest), length-flat base rest h.2)

pub flat-append : (ms ns : List Node) → flat (ms ++ ns) ≡ flat ms ++ flat ns
unfolding flat
flat-append [] ns = refl
flat-append (m ∷ ms) ns = rw (flat-append ms ns) (sym (append_assoc m.ptr (flat ms) (flat ns)))

pub Blocks-append :
    (base : ℕ) (ms ns : List Node) → Blocks base ms → Blocks base ns → Blocks base (ms ++ ns)
Blocks-append base [] ns hm hn = hn
Blocks-append base (m ∷ ms) ns hm hn = (hm.0, hm.1, Blocks-append base ms ns hm.2 hn)

pub Blocks-take : (base k : ℕ) (ns : List Node) → Blocks base ns → Blocks base (take k ns)
Blocks-take base zero ns h = tt
Blocks-take base (suc k) [] h = tt
Blocks-take base (suc k) (n ∷ ns) h = (h.0, h.1, Blocks-take base k ns h.2)

pub Blocks-drop : (base k : ℕ) (ns : List Node) → Blocks base ns → Blocks base (drop k ns)
Blocks-drop base zero ns h = h
Blocks-drop base (suc k) [] h = tt
Blocks-drop base (suc k) (n ∷ ns) h = Blocks-drop base k ns h.2

pub Blocks-replicate : (base k fresh : ℕ) → Blocks base (replicate k (new_node fresh base))
unfolding new_node
Blocks-replicate base zero fresh = tt
Blocks-replicate base (suc k) fresh =
    (refl, length-replicate base fresh, Blocks-replicate base k fresh)

-- What a write through the chain leaves: the flat bytes overwritten, the blocks kept, and the
-- cursor on the block of the next byte.
unfoldable pub Written : ℕ → List Node → ℕ → List ℕ → Type 0
Written base ns npos buf =
    (ns' : List Node) × (k : ℕ) × (write_chain ns npos buf ≡ ok (ns', k))
    × (flat ns' ≡ over (flat ns) npos buf)
    × Blocks base ns'
    × (length ns' ≡ length ns)
    × (k * base ≤ npos + length buf)
    × (npos + length buf < suc k * base)

module _ (base : ℕ) (n : Node) (rest : List Node) (npos : ℕ) (h : Blocks base (n ∷ rest)) where
  Written-within :
      (buf : List ℕ)
      → npos < base
      → 0 < length buf
      → leb (length buf) (n.size - npos) ≡ true
      → Written base (n ∷ rest) npos buf
  unfolding Written write_chain flat
  Written-within buf p q whole = (
    record n { ptr = over n.ptr npos buf } ∷ rest,
    if n.size == npos + length buf then 1 else 0,
    rw whole,
    sym (over-append_left n.ptr (flat rest) npos buf (ground arith)),
    (h.0, omega (tests, length-over n.ptr npos buf (omega arith)), h.2),
    refl,
    ground arith,
    ground arith,
  )

  Written-across :
      (buf : List ℕ)
      → npos < base
      → leb (length buf) (n.size - npos) ≡ false
      → Written base rest 0 (drop (n.size - npos) buf)
      → Written base (n ∷ rest) npos buf
  unfolding Written write_chain flat
  Written-across buf p part (ns', k, e, f, bl, len, lo, hi) = (
    record n { ptr = over n.ptr npos (take (n.size - npos) buf) } ∷ ns',
    suc k,
    rw (part, e),
    rw (f, sz) (sym (over-append_split n.ptr (flat rest) npos buf (omega arith) (ground arith))),
    (h.0, ground (arith, length-over n.ptr npos (take (n.size - npos) buf) (omega arith), tl), bl),
    ap suc len,
    ground (arith, dl),
    ground (arith, dl),
  )
    where
      sz : n.size - npos ≡ length n.ptr - npos
      sz = omega arith

      tl : length (take (n.size - npos) buf) ≡ min (n.size - npos) (length buf)
      tl = length-take (n.size - npos) buf

      dl : length (drop (n.size - npos) buf) ≡ length buf - (n.size - npos)
      dl = length-drop (n.size - npos) buf

-- A write that the chain has room for succeeds.
pub write_chain_fits :
    (base : ℕ) (ns : List Node) (npos : ℕ) (buf : List ℕ)
    → Blocks base ns
    → npos < base
    → 0 < length buf
    → npos + length buf ≤ length ns * base
    → Written base ns npos buf
write_chain_fits base [] npos buf h p q fits = absurd (omega arith)
write_chain_fits base (n ∷ rest) npos buf h p q fits =
    elim (Bool-cases (leb (length buf) (n.size - npos))) [
      | inl whole ↦ Written-within base n rest npos h buf p q whole
      | inr part ↦ Written-across base n rest npos h buf p part (
          write_chain_fits base rest 0 (drop (n.size - npos) buf) h.2 (omega arith)
            (ground (arith, length-drop (n.size - npos) buf))
            (ground (arith, length-drop (n.size - npos) buf)))
    ]
