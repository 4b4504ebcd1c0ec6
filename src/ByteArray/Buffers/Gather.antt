-- ===== src/ByteArray/Buffers/Gather.antt =====
-- The scatter/gather lists cover exactly the bytes that they are asked for.
use mathlib.Core.List.{append-nil, append_assoc}
use native.Mathlib.Nat.{mod-lt}
use routn.Base.{
  ℕ, zero, suc, ◌+◌, ◌-◌, ◌*◌, ◌%◌, ◌≤◌, ◌<◌, ◌≡◌, refl, ap, ◌∙◌, sym, inl, inr, true, false,
  Bool-cases, leb, min, List, [], ◌∷◌, ◌++◌, length, take, drop, arith, length-append, length-take,
  drop-drop, take-drop-take, take-append-drop,
}
use routn.ByteArray.{ByteArray, Node, ok, slice, get_read_size, get_capacity, add_capacity}
use routn.ByteArray.Chain.{flat, Blocks, Blocks-drop}
use routn.ByteArray.ReadChain.{slice-append_left, slice-append_split}
use routn.ByteArray.Invariant.{IsValid, add_capacity-Roomy}
use routn.ByteArray.Refinement.{view, offset, length-rest, flat-drop, cur-le-length}
use routn.ByteArray.Cursor.{view-add_capacity}
use routn.ByteArray.Ahead.{ahead}
use routn.ByteArray.Buffers.{
  Iovec, buffers_from, buffers_at_cur, clip_len, get_read_buffers, get_write_buffers,
}

abbrev block : List Node → ℕ → List ℕ
block [] i = []
block (n ∷ ns) zero = n.ptr
block (n ∷ ns) (suc i) = block ns i

-- The bytes that `readv`, `writev` or `sendmsg` would move through the list.
unfoldable pub gather : List Node → List Iovec → List ℕ
gather ns [] = []
gather ns (v ∷ vs) = slice (block ns v.node) v.offset v.len ++ gather ns vs

pub total_len : List Iovec → ℕ
total_len [] = 0
total_len (v ∷ vs) = v.len + total_len vs

block-append :
    (pre : List Node) (n : Node) (rest : List Node) → block (pre ++ (n ∷ rest)) (length pre) ≡ n.ptr
block-append [] n rest = refl
block-append (p ∷ pre) n rest = block-append pre n rest

-- `iovs` has `len` bytes, and they are those from `npos` on in the chain behind `pre`.
Covers : List Node → List Node → ℕ → ℕ → Type 0
Covers pre ns npos len =
    (iovs : List Iovec) × (buffers_from ns (length pre) npos len ≡ ok iovs)
    × (gather (pre ++ ns) iovs ≡ slice (flat ns) npos len)
    × (total_len iovs ≡ len)

module _ (base : ℕ) (pre : List Node) (x : Node) (rest : List Node) (npos len : ℕ)
    (h : Blocks base (x ∷ rest)) where
  Covers-within : npos < base → leb len (x.size - npos) ≡ true → Covers pre (x ∷ rest) npos len
  unfolding Covers buffers_from gather total_len flat
  Covers-within p whole = (
    record { node = length pre; offset = npos; len = len } ∷ [],
    rw whole,
    rw (block-append pre x rest, slice-append_left x.ptr (flat rest) npos len (ground arith))
        (append-nil (slice x.ptr npos len)),
    omega arith,
  )

  Covers-across :
      npos < base
      → leb len (x.size - npos) ≡ false
      → Covers (pre ++ (x ∷ [])) rest 0 (len - (x.size - npos))
      → Covers pre (x ∷ rest) npos len
  unfolding Covers buffers_from gather total_len flat
  Covers-across p part (iovs, e, g, t) = (
    record { node = length pre; offset = npos; len = x.size - npos } ∷ iovs,
    rw (part, rest_ok),
    rw (block-append pre x rest, tail, sz)
        (sym (slice-append_split x.ptr (flat rest) npos len (omega arith) (ground arith))),
    ground (arith, t),
  )
    where
      next : length (pre ++ (x ∷ [])) ≡ suc (length pre)
      next = omega (arith, length-append pre (x ∷ []))

      rest_ok : buffers_from rest (suc (length pre)) 0 (len - (x.size - npos)) ≡ ok iovs
      rest_ok = rw next at e

      tail : gather (pre ++ (x ∷ rest)) iovs ≡ slice (flat rest) 0 (len - (x.size - npos))
      tail = ap (λ (t : List Node). gather t iovs) (sym (append_assoc pre (x ∷ []) rest)) ∙ g

      sz : x.size - npos ≡ length x.ptr - npos
      sz = omega arith

covers :
    (base : ℕ) (pre ns : List Node) (npos len : ℕ)
    → Blocks base ns
    → npos < base
    → 0 < len
    → npos + len ≤ length ns * base
    → Covers pre ns npos len
covers base pre [] npos len h p q fits = absurd (omega arith)
covers base pre (x ∷ rest) npos len h p q fits = elim (Bool-cases (leb len (x.size - npos))) [
  | inl whole ↦ Covers-within base pre x rest npos len h p whole
  | inr part ↦ Covers-across base pre x rest npos len h p part (
      covers base (pre ++ (x ∷ [])) rest 0 (len - (x.size - npos)) h.2 (omega arith) (ground arith)
        (ground arith))
]

-- On a valid byte array: `len` bytes from the position on, as far as there is room for them.
at_cur_covers :
    (len : ℕ) (b : ByteArray)
    → IsValid b
    → 0 < len
    → len ≤ get_capacity b
    → (iovs : List Iovec) × (buffers_at_cur len b ≡ ok iovs)
      × (gather b.nodes iovs ≡ slice (flat b.nodes) b.position len)
      × (total_len iovs ≡ len)
unfolding buffers_at_cur Covers
at_cur_covers len b v some room =
    let (iovs, e, g, t) =
      covers b.base_size (take b.cur b.nodes) (drop b.cur b.nodes) (b.position % b.base_size) len
        (Blocks-drop b.base_size b.cur b.nodes v.blocks) (mod-lt b.position v.base_pos) some
        (rw (offset b v, length-rest b v) (omega (arith, v.cur_le))) in
    (
      iovs,
      (rw index at e),
      ap (λ (t : List Node). gather t iovs) (sym (take-append-drop b.cur b.nodes)) ∙ g ∙ here,
      t,
    )
  where
    index : length (take b.cur b.nodes) ≡ b.cur
    index = omega (arith, length-take b.cur b.nodes, cur-le-length b v)

    here :
        slice (flat (drop b.cur b.nodes)) (b.position % b.base_size) len
        ≡ slice (flat b.nodes) b.position len
    here =
        let e : b.cur * b.base_size + b.position % b.base_size ≡ b.position =
          omega (arith, offset b v, v.cur_le) in
        rw (flat-drop b.base_size b.cur b.nodes v.blocks (cur-le-length b v), drop-drop, e)

clipped_covers :
    (m len : ℕ) (b : ByteArray)
    → IsValid b
    → clip_len len b ≡ m
    → m ≤ get_read_size b
    → (iovs : List Iovec) × (get_read_buffers len b ≡ ok (m, iovs))
      × (gather b.nodes iovs ≡ take m (ahead b))
      × (total_len iovs ≡ m)
unfolding get_read_buffers ahead view
clipped_covers zero len b v e h =
    ([], rw (e, get_read_buffers), unfold gather in refl, unfold total_len in refl)
clipped_covers (suc m) len b v e h =
    let (iovs, r, g, t) = at_cur_covers (suc m) b v (omega arith) (omega (arith, v.size_le)) in
    (
      iovs,
      rw (e, get_read_buffers) (ground (arith, r)),
      g ∙ sym (take-drop-take (suc m) b.position b.size (flat b.nodes) (omega (arith, v.pos_le))),
      t,
    )

-- On a valid byte array the list of `getReadBuffers` has the first bytes ahead, `len` of them or as
-- many as there are, and the number returned is theirs.
pub get_read_buffers_covers :
    (len : ℕ) (b : ByteArray)
    → IsValid b
    → (iovs : List Iovec) × (get_read_buffers len b ≡ ok (min len (get_read_size b), iovs))
      × (gather b.nodes iovs ≡ take (min len (get_read_size b)) (ahead b))
      × (total_len iovs ≡ min len (get_read_size b))
get_read_buffers_covers len b v =
    clipped_covers (min len (get_read_size b)) len b v (ground arith) (omega arith)

-- On a valid byte array, for 0 < len, the list of `getWriteBuffers` has the `len` bytes of memory from
-- the position on; the array stays valid and its bytes and position stay.
pub get_write_buffers_covers :
    (len : ℕ) (b : ByteArray)
    → IsValid b
    → 0 < len
    → (iovs : List Iovec) × (c : ByteArray) × (get_write_buffers len b ≡ ok (len, iovs, c))
      × IsValid c
      × (gather c.nodes iovs ≡ slice (flat c.nodes) b.position len)
      × (total_len iovs ≡ len)
      × (view c ≡ view b)
unfolding get_write_buffers
get_write_buffers_covers len b v some =
    let r = add_capacity-Roomy len b v in
    let (iovs, e, g, t) = at_cur_covers len (add_capacity len b) r.valid some r.room in
    (
      iovs,
      add_capacity len b,
      ground (arith, e),
      r.valid,
      g ∙ ap (λ (k : ℕ). slice (flat (add_capacity len b).nodes) k len) r.same_position,
      t,
      view-add_capacity len b v,
    )
