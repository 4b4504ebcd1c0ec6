-- ===== src/ByteArray/Buffers/Peek.antt =====
-- `Read` and `toString`: right over two blocks, wrong from the third on.
use native.Mathlib.Nat.{mod-lt}
use mathlib.Core.Path.{subst}
use routn.Base.{
  ℕ, ◌+◌, ◌-◌, ◌*◌, ◌%◌, ◌≤◌, ◌<◌, ◌≡◌, ap, ◌∙◌, sym, inl, inr, Bool-cases, leb, List, [], ◌∷◌,
  ◌++◌, length, take, drop, arith, length-take, length-drop, drop-drop, take-drop-take, take_all,
}
use routn.ByteArray.{ByteArray, Node, ok, slice, get_read_size}
use routn.ByteArray.Chain.{flat, Blocks, Blocks-drop}
use routn.ByteArray.ReadChain.{slice-append_left, slice-append_split}
use routn.ByteArray.Invariant.{IsValid}
use routn.ByteArray.Refinement.{view, offset, length-rest, flat-drop, cur-le-length}
use routn.ByteArray.Ahead.{ahead}
use routn.ByteArray.Buffers.{peek_chain, cur_ptr, peek, to_string}

-- One round of the loop.
peek_last :
    (first : List ℕ) (x : Node) (rest : List Node) (npos size : ℕ)
    → 0 < size
    → size ≤ x.size - npos
    → peek_chain first (x ∷ rest) npos size ≡ ok (slice x.ptr npos size)
unfolding peek_chain
peek_last first x rest npos size p q = ground arith

peek_more :
    (first : List ℕ) (x : Node) (rest : List Node) (npos size : ℕ) {bytes : List ℕ}
    → x.size - npos < size
    → peek_chain first rest 0 (size - (x.size - npos)) ≡ ok bytes
    → peek_chain first (x ∷ rest) npos size ≡ ok (slice first npos (x.size - npos) ++ bytes)
unfolding peek_chain
peek_more first x rest npos size p e = ground (arith, e)

-- The loop ends well wherever the chain has the bytes.
peek_total :
    (base : ℕ) (first : List ℕ) (ns : List Node) (npos size : ℕ)
    → Blocks base ns
    → npos < base
    → 0 < size
    → npos + size ≤ length ns * base
    → (bytes : List ℕ) × (peek_chain first ns npos size ≡ ok bytes)
peek_total base first [] npos size h p q fits = absurd (omega arith)
peek_total base first (x ∷ rest) npos size h p q fits =
    elim (Bool-cases (leb size (x.size - npos))) [
      | inl whole ↦ (slice x.ptr npos size, peek_last first x rest npos size q (ground arith))
      | inr part ↦
          let (bytes, e) =
            peek_total base first rest 0 (size - (x.size - npos)) h.2 (omega arith) (ground arith)
              (ground arith) in
          (
            slice first npos (x.size - npos) ++ bytes,
            peek_more first x rest npos size (ground arith) e,
          )
    ]

-- Within the block of the cursor and the next one, the loop copies what stands there.
peek_two :
    (base : ℕ) (ns : List Node) (npos size : ℕ)
    → Blocks base ns
    → npos < base
    → 0 < size
    → npos + size ≤ length ns * base
    → npos + size ≤ 2 * base
    → peek_chain (cur_ptr ns) ns npos size ≡ ok (slice (flat ns) npos size)
unfolding flat
peek_two base [] npos size h p q fits two = absurd (omega arith)
peek_two base (x ∷ []) npos size h p q fits two =
    peek_last x.ptr x [] npos size q (omega arith)
    ∙ ap ok (sym (slice-append_left x.ptr [] npos size (omega arith)))
peek_two base (x ∷ y ∷ rest) npos size h p q fits two =
    elim (Bool-cases (leb size (x.size - npos))) [
      | inl whole ↦
          peek_last x.ptr x (y ∷ rest) npos size q (ground arith)
          ∙ ap ok (sym (slice-append_left x.ptr (flat (y ∷ rest)) npos size (ground arith)))
      | inr part ↦
          let left = size - (x.size - npos) in
          let sz : x.size - npos ≡ length x.ptr - npos = omega arith in
          let second = peek_last x.ptr y rest 0 left (ground arith) (ground arith) in
          peek_more x.ptr x (y ∷ rest) npos size (ground arith) second
          ∙ ap (λ (t : List ℕ). ok (slice x.ptr npos (x.size - npos) ++ t))
              (sym (slice-append_left y.ptr (flat rest) 0 left (ground arith)))
          ∙ ap (λ (t : ℕ). ok (slice x.ptr npos t ++ slice (y.ptr ++ flat rest) 0 (size - t))) sz
          ∙ ap ok (
              sym
                (slice-append_split x.ptr (flat (y ∷ rest)) npos size (omega arith) (ground arith)))
    ]

-- From the third block on, the second block's place holds the first block once more.
peek_three :
    (base : ℕ) (x y : Node) (rest : List Node) (npos size : ℕ)
    → Blocks base (x ∷ y ∷ rest)
    → npos < base
    → npos + size ≤ length (x ∷ y ∷ rest) * base
    → 2 * base < npos + size
    → (tail : List ℕ) × (peek_chain x.ptr (x ∷ y ∷ rest) npos size
        ≡ ok (slice x.ptr npos (base - npos) ++ (x.ptr ++ tail)))
peek_three base x y rest npos size h p fits three =
    let left = size - (x.size - npos) in
    let (tail, e) =
      peek_total base x.ptr rest 0 (left - (y.size - 0)) h.2.2 (omega arith) (omega arith)
        (omega arith) in
    let e' = peek_more x.ptr y rest 0 left (omega arith) e in
    let full : slice x.ptr 0 (y.size - 0) ≡ x.ptr = take_all (y.size - 0) x.ptr (omega arith) in
    (
      tail,
      peek_more x.ptr x (y ∷ rest) npos size (omega arith) e'
          ∙ ap (λ (t : List ℕ). ok (slice x.ptr npos (x.size - npos) ++ (t ++ tail))) full
          ∙ ap (λ (t : ℕ). ok (slice x.ptr npos (t - npos) ++ (x.ptr ++ tail))) h.0,
    )

module _ (b : ByteArray) (v : IsValid b) (some : 0 < get_read_size b) where
  chain_at_cur :
      to_string b
      ≡ peek_chain
          (cur_ptr (drop b.cur b.nodes))
          (drop b.cur b.nodes)
          (b.position % b.base_size)
          (get_read_size b)
  unfolding to_string peek
  chain_at_cur = ground arith

  room : b.position % b.base_size + get_read_size b ≤ length (drop b.cur b.nodes) * b.base_size
  room = rw (offset b v, length-rest b v) (omega (arith, v.cur_le, v.size_le))

  -- On a valid byte array with bytes ahead, `toString` returns these while they lie in the cursor's
  -- block and the next one.
  pub to_string_two :
      b.position % b.base_size + get_read_size b ≤ 2 * b.base_size → to_string b ≡ ok (ahead b)
  unfolding ahead view
  to_string_two two =
      chain_at_cur
      ∙ peek_two b.base_size (drop b.cur b.nodes) (b.position % b.base_size) (get_read_size b)
          (Blocks-drop b.base_size b.cur b.nodes v.blocks) (mod-lt b.position v.base_pos) some room
          two
      ∙ ap ok whole
    where
      whole :
          slice (flat (drop b.cur b.nodes)) (b.position % b.base_size) (get_read_size b)
          ≡ drop b.position (take b.size (flat b.nodes))
      whole =
          let e : b.cur * b.base_size + b.position % b.base_size ≡ b.position =
            omega (arith, offset b v, v.cur_le) in
          rw (flat-drop b.base_size b.cur b.nodes v.blocks (cur-le-length b v), drop-drop, e)
            (sym (
                take-drop-take (get_read_size b) b.position b.size (flat b.nodes)
                  (omega (arith, v.pos_le)))
              ∙ take_all (get_read_size b) _ (
                  omega (
                    arith,
                    length-drop b.position (take b.size (flat b.nodes)),
                    length-take b.size (flat b.nodes),
                  )))

  -- Where they reach past the next block, `toString` returns the bytes of the cursor's block in place of
  -- those of the next one.
  pub to_string_three :
      (x y : Node) (rest : List Node)
      → drop b.cur b.nodes ≡ x ∷ y ∷ rest
      → 2 * b.base_size < b.position % b.base_size + get_read_size b
      → (tail : List ℕ) × (to_string b
          ≡ ok (
              slice x.ptr (b.position % b.base_size) (b.base_size - b.position % b.base_size)
              ++ (x.ptr ++ tail)))
  to_string_three x y rest e three =
      let (tail, q) =
        peek_three b.base_size x y rest (b.position % b.base_size) (get_read_size b)
          (subst (Blocks b.base_size) e (Blocks-drop b.base_size b.cur b.nodes v.blocks))
          (mod-lt b.position v.base_pos)
          (subst
            (λ (ns : List Node).
              b.position % b.base_size + get_read_size b ≤ length ns * b.base_size)
            e room)
          three in
      (
        tail,
        chain_at_cur
            ∙ ap
                (λ (ns : List Node).
                  peek_chain (cur_ptr ns) ns (b.position % b.base_size) (get_read_size b))
                e
            ∙ q,
      )
