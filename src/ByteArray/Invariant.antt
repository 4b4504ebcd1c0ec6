-- ===== src/ByteArray/Invariant.antt =====
-- The invariant of a byte array, and the room that `addCapacity` makes.
use routn.Base.{
  ℕ, suc, ◌+◌, ◌-◌, ◌*◌, ◌≤◌, ◌<◌, ◌≡◌, refl, ap, ◌∙◌, sym, inl, inr, Bool-cases, leb, tests, List,
  [], ◌∷◌, ◌++◌, length, take, replicate, arith, length-append, length-replicate,
}
use native.Mathlib.Nat.{mod-lt, div-add-mod'}
use mathlib.Core.List.{append-nil}
use routn.ByteArray.{
  ByteArray, Node, new_node, byte_array, add_nodes, add_capacity, ceil_div, get_capacity, clear,
}
use routn.ByteArray.Chain.{flat, flat-append, Blocks, Blocks-append, Blocks-take, Blocks-replicate}

-- The chain consists of equal blocks, the bounds are in order, and the cursor's block is the one
-- that holds the byte at the position.
pub record IsValid (b : ByteArray) : Type 0 where
  pub base_pos : 0 < b.base_size
  pub some_block : 0 < length b.nodes
  pub blocks : Blocks b.base_size b.nodes
  pub cap_eq : b.capacity ≡ length b.nodes * b.base_size
  pub pos_le : b.position ≤ b.size
  pub size_le : b.size ≤ b.capacity
  pub cur_le : b.cur * b.base_size ≤ b.position
  pub cur_next : b.position < suc b.cur * b.base_size

-- A new byte array and one that was cleared are valid and empty.
pub byte_array-IsValid : (fresh base : ℕ) → 0 < base → IsValid (byte_array fresh base)
unfolding byte_array
byte_array-IsValid fresh base h = record {
  base_pos = h;
  some_block = omega arith;
  blocks = (refl, length-replicate base fresh, tt);
  cap_eq = omega arith;
  pos_le = omega arith;
  size_le = omega arith;
  cur_le = omega arith;
  cur_next = omega arith;
}

pub clear-IsValid : (b : ByteArray) → IsValid b → IsValid (clear b)
unfolding clear
clear-IsValid b v = record {
  base_pos = v.base_pos;
  some_block = go b.nodes v.some_block;
  blocks = Blocks-take b.base_size 1 b.nodes v.blocks;
  cap_eq = one b.nodes v.some_block;
  pos_le = omega arith;
  size_le = omega arith;
  cur_le = omega arith;
  cur_next = omega (arith, v.base_pos);
}
  where
    go : (ns : List Node) → 0 < length ns → 0 < length (take 1 ns)
    go [] h = absurd (omega arith)
    go (n ∷ ns) h = omega arith

    one : (ns : List Node) → 0 < length ns → b.base_size ≡ length (take 1 ns) * b.base_size
    one [] h = absurd (omega arith)
    one (n ∷ ns) h = omega arith

-- The new blocks hold what is missing.
ceil_div_fits : (a b : ℕ) → 0 < b → a ≤ ceil_div a b * b
ceil_div_fits a b h = omega (arith, mod-lt (a + (b - 1)) {m = b} h, div-add-mod' (a + (b - 1)) b)

add_nodes-IsValid :
    (b : ByteArray) (count : ℕ)
    → IsValid b
    → 0 < count
    → IsValid (add_nodes count (get_capacity b) b)
unfolding add_nodes
add_nodes-IsValid b count v h = record {
  base_pos = v.base_pos;
  some_block = omega (arith, v.some_block, longer);
  blocks =
      Blocks-append b.base_size b.nodes _ v.blocks (Blocks-replicate b.base_size count b.fresh);
  cap_eq = rw longer (omega (arith, v.cap_eq));
  pos_le = v.pos_le;
  size_le = omega (arith, v.size_le);
  cur_le = ground (arith, v.cur_le, v.cap_eq);
  cur_next = ground (arith, v.cur_next, v.cap_eq, v.base_pos);
}
  where
    longer :
        length (b.nodes ++ replicate count (new_node b.fresh b.base_size)) ≡ length b.nodes + count
    longer =
        length-append b.nodes (replicate count (new_node b.fresh b.base_size))
        ∙ ap (◌+◌ (length b.nodes)) (length-replicate count (new_node b.fresh b.base_size))

-- After `addCapacity` there is room for `size` bytes; the contents and the position stay.
pub record Roomy (size : ℕ) (b c : ByteArray) : Type 0 where
  pub valid : IsValid c
  pub room : size ≤ get_capacity c
  pub same_base : c.base_size ≡ b.base_size
  pub same_position : c.position ≡ b.position
  pub same_size : c.size ≡ b.size
  pub same_endian : c.endian ≡ b.endian
  pub kept : (fill : List ℕ) × (flat c.nodes ≡ flat b.nodes ++ fill)

-- On a valid byte array `addCapacity` makes room for `size` bytes, keeps the invariant and keeps the
-- bytes, the size and the position.
pub add_capacity-Roomy : (size : ℕ) (b : ByteArray) → IsValid b → Roomy size b (add_capacity size b)
unfolding add_capacity
add_capacity-Roomy size b v = elim (Bool-cases (leb size (get_capacity b))) [
  | inl fits ↦
      let e : add_capacity size b ≡ b = ground arith in
      rw e (record {
        valid = v;
        room = omega tests;
        same_base = refl;
        same_position = refl;
        same_size = refl;
        same_endian = refl;
        kept = ([], sym (append-nil (flat b.nodes)));
      })
  | inr lacks ↦
      let e : add_capacity size b ≡ grown = ground arith in
      rw e (record {
        valid = add_nodes-IsValid b count v (ground (arith, needed));
        room = unfold add_nodes in omega (arith, needed, v.pos_le, v.size_le);
        same_base = unfold add_nodes in refl;
        same_position = unfold add_nodes in refl;
        same_size = unfold add_nodes in refl;
        same_endian = unfold add_nodes in refl;
        kept = unfold add_nodes in (_, flat-append b.nodes _);
      })
]
  where
    count : ℕ
    count = ceil_div (size - get_capacity b) b.base_size

    grown : ByteArray
    grown = add_nodes count (get_capacity b) b

    needed : size - get_capacity b ≤ count * b.base_size
    needed = ceil_div_fits (size - get_capacity b) b.base_size v.base_pos
