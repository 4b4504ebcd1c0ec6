-- ===== src/ByteArray/Refinement.antt =====
-- A byte array against a flat list of bytes with a position.
use native.Mathlib.Nat.{mod-eq-sub-div-mul, mod-lt, div-eq_of_lt-le, mul-sub}
use routn.Base.{
  ℕ, suc, ◌+◌, ◌-◌, ◌*◌, ◌%◌, ◌≤◌, ◌<◌, max, ◌≡◌, refl, ap, ◌∙◌, sym, List, ◌++◌, length, take,
  drop, over, arith, length-append, take-append-drop, length-take, length-drop, drop-append_right,
}
use routn.Base.Overwrite.{over-append_right, take-over_cut}
use routn.ByteArray.{ByteArray, Node, ok, write_at_cur, get_capacity}
use routn.ByteArray.Chain.{
  flat, flat-append, length-flat, Blocks, Blocks-append, Blocks-take, Blocks-drop, Written,
  write_chain_fits,
}
use routn.ByteArray.Invariant.{IsValid}

-- The abstract byte array: the bytes up to `_size`, and the position.
pub record View : Type 0 where
  pub bytes : List ℕ
  pub at : ℕ

unfoldable pub view : ByteArray → View
view b = record { bytes = take b.size (flat b.nodes); at = b.position }

-- The first `k` blocks, all of them full, hold `k * base` bytes.
length-take-Blocks :
    (base k : ℕ) (ns : List Node)
    → Blocks base ns
    → k ≤ length ns
    → length (flat (take k ns)) ≡ k * base
length-take-Blocks base k ns h le =
    length-flat base (take k ns) (Blocks-take base k ns h)
    ∙ ap (λ (t : ℕ). t * base) (omega (arith, length-take k ns))

flat-split : (k : ℕ) (ns : List Node) → flat ns ≡ flat (take k ns) ++ flat (drop k ns)
flat-split k ns = ap flat (sym (take-append-drop k ns)) ∙ flat-append (take k ns) (drop k ns)

pub flat-drop :
    (base k : ℕ) (ns : List Node)
    → Blocks base ns
    → k ≤ length ns
    → flat (drop k ns) ≡ drop (k * base) (flat ns)
flat-drop base k ns h le =
    let e = length-take-Blocks base k ns h le in
    rw
      (
        flat-split k ns,
        drop-append_right (k * base) (flat (take k ns)) (flat (drop k ns)) (omega (arith, e)),
      )
      (rw e (ground arith))

pub offset :
    (b : ByteArray) → IsValid b → b.position % b.base_size ≡ b.position - b.cur * b.base_size
offset b v =
    mod-eq-sub-div-mul b.position b.base_size
    ∙ ap (λ (t : ℕ). b.position - t * b.base_size)
        (div-eq_of_lt-le {k = b.cur} b.base_size v.cur_le (omega (arith, v.cur_next)))

pub cur-le-length : (b : ByteArray) → IsValid b → b.cur ≤ length b.nodes
cur-le-length b v = grind (arith, v.cur_le, v.pos_le, v.size_le, v.cap_eq, v.base_pos)

-- The chain from the cursor on is what stands from the cursor's block on.
pub length-rest :
    (b : ByteArray)
    → IsValid b
    → length (drop b.cur b.nodes) * b.base_size ≡ b.capacity - b.cur * b.base_size
length-rest b v =
    rw (length-drop b.cur b.nodes, v.cap_eq)
      (omega (arith, mul-sub b.base_size (length b.nodes) b.cur))

-- What a successful write leaves behind.
pub record Stored (buf : List ℕ) (b c : ByteArray) : Type 0 where
  pub valid : IsValid c
  pub seen :
      view c ≡ record { bytes = over (view b).bytes (view b).at buf; at = (view b).at + length buf }
  pub same_base : c.base_size ≡ b.base_size
  pub same_endian : c.endian ≡ b.endian

module _ (buf : List ℕ) (b : ByteArray) (v : IsValid b) (room : length buf ≤ get_capacity b)
    (some : 0 < length buf) where
  abbrev stored : List Node → ℕ → ByteArray
  stored ns k = record b {
    nodes = take b.cur b.nodes ++ ns;
    cur = b.cur + k;
    position = b.position + length buf;
    size = max b.size (b.position + length buf);
  }

  fits : b.position % b.base_size + length buf ≤ length (drop b.cur b.nodes) * b.base_size
  fits = rw (offset b v, length-rest b v) (omega (arith, v.cur_le))

  module _ (ns : List Node) (k : ℕ)
      (f : flat ns ≡ over (flat (drop b.cur b.nodes)) (b.position % b.base_size) buf)
      (bl : Blocks b.base_size ns) (len : length ns ≡ length (drop b.cur b.nodes))
      (lo : k * b.base_size ≤ b.position % b.base_size + length buf)
      (hi : b.position % b.base_size + length buf < suc k * b.base_size) where
    length-nodes : length (take b.cur b.nodes ++ ns) ≡ length b.nodes
    length-nodes = omega (
      arith,
      length-append (take b.cur b.nodes) ns,
      len,
      length-take b.cur b.nodes,
      length-drop b.cur b.nodes,
      cur-le-length b v,
    )

    flat-nodes : flat (take b.cur b.nodes ++ ns) ≡ over (flat b.nodes) b.position buf
    flat-nodes =
        let before = length-take-Blocks b.base_size b.cur b.nodes v.blocks (cur-le-length b v) in
        let e : b.position ≡ length (flat (take b.cur b.nodes)) + b.position % b.base_size =
          omega (arith, before, offset b v, v.cur_le) in
        rw (flat-append (take b.cur b.nodes) ns, f, flat-split b.cur b.nodes)
          (sym (
              over-append_right (flat (take b.cur b.nodes)) (flat (drop b.cur b.nodes))
                (b.position % b.base_size) buf)
            ∙ ap (λ (t : ℕ). over (flat (take b.cur b.nodes) ++ flat (drop b.cur b.nodes)) t buf)
                (sym e))

    stored-IsValid : IsValid (stored ns k)
    stored-IsValid = record {
      base_pos = v.base_pos;
      some_block = omega (arith, length-nodes, v.some_block);
      blocks = Blocks-append b.base_size _ ns (Blocks-take b.base_size b.cur b.nodes v.blocks) bl;
      cap_eq = rw length-nodes v.cap_eq;
      pos_le = omega arith;
      size_le = omega (arith, v.size_le, v.pos_le);
      cur_le = omega (arith, offset b v, v.cur_le, lo);
      cur_next = omega (arith, offset b v, v.cur_le, hi);
    }

    stored-Stored : Stored buf b (stored ns k)
    unfolding view
    stored-Stored = record {
      valid = stored-IsValid;
      seen = λ i. record { bytes = cut i; at = b.position + length buf };
      same_base = refl;
      same_endian = refl;
    }
      where
        cut :
            take (max b.size (b.position + length buf)) (flat (take b.cur b.nodes ++ ns))
            ≡ over (take b.size (flat b.nodes)) b.position buf
        cut = rw flat-nodes (
            take-over_cut _ b.size (flat b.nodes) b.position buf v.pos_le
              (omega
                (arith, length-flat b.base_size b.nodes v.blocks, v.cap_eq, v.size_le, v.pos_le))
              refl)

  pub write_at_cur-Stored : (c : ByteArray) × (write_at_cur buf b ≡ ok c) × Stored buf b c
  unfolding write_at_cur Written
  write_at_cur-Stored =
      let (ns, k, e, f, bl, len, lo, hi) =
        write_chain_fits b.base_size (drop b.cur b.nodes) (b.position % b.base_size) buf
          (Blocks-drop b.base_size b.cur b.nodes v.blocks) (mod-lt b.position v.base_pos) some
          fits in
      (stored ns k, rw e, stored-Stored ns k f bl len lo hi)
