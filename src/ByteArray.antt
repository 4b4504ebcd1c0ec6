-- ===== src/ByteArray.antt =====
-- src/ByteArray.h and src/ByteArray.cpp: a byte buffer kept in a chain of equal blocks, with a
-- cursor. The chain from `_root` is a list; the pointer `_cur` is the index of its block, and the
-- null pointer is the index behind the last block. Sizes do not reach 2^64.
pub mod Chain
pub mod ReadChain
pub mod Invariant
pub mod Refinement
pub mod Cursor
pub mod Bounds
pub mod Codec
pub mod Text
pub mod Ahead
pub mod Zigzag
pub mod Varint
pub mod RoundTrip
pub mod TextRoundTrip
pub mod Buffers
mod Tests
use routn.Base.{
  ℕ, suc, ◌+◌, ◌-◌, ◌*◌, ◌/◌, ◌%◌, max, Bool, true, false, List, [], ◌∷◌, ◌++◌, length, take, drop,
  replicate, over, ltb, leb, ◌==◌, if◌then◌else◌,
}

-- `oor` is the exception std::out_of_range, `fault` a read through a null pointer.
pub data Outcome {ℓ} (A : Type ℓ) : Type ℓ where
  ok : A → Outcome A
  oor : Outcome A
  fault : Outcome A

infixl 5 ◌>>=◌
abbrev pub ◌>>=◌ {ℓ κ} : {A : Type ℓ} {B : Type κ} → Outcome A → (A → Outcome B) → Outcome B
ok a >>= f = f a
oor >>= f = oor
fault >>= f = fault

pub data Endian : Type 0 where
  little big : Endian

pub record Node : Type 0 where
  pub ptr : List ℕ
  pub size : ℕ

-- `fresh` is the byte that `new char[s]` happens to leave in a new block.
pub record ByteArray : Type 0 where
  pub base_size : ℕ
  pub capacity : ℕ
  pub position : ℕ
  pub size : ℕ
  pub endian : Endian
  pub nodes : List Node
  pub cur : ℕ
  pub fresh : ℕ

unfoldable pub new_node : ℕ → ℕ → Node
new_node fresh s = record { ptr = replicate s fresh; size = s }

unfoldable pub byte_array : ℕ → ℕ → ByteArray
unfolding new_node
byte_array fresh base_size = record {
  base_size = base_size;
  capacity = base_size;
  position = 0;
  size = 0;
  endian = big;
  nodes = new_node fresh base_size ∷ [];
  cur = 0;
  fresh = fresh;
}

abbrev pub is_little_endian : ByteArray → Bool
is_little_endian b = elim b.endian [ little ↦ true | big ↦ false ]

unfoldable pub set_is_little_endian : Bool → ByteArray → ByteArray
set_is_little_endian val b = record b { endian = if val then little else big }

abbrev pub get_read_size : ByteArray → ℕ
get_read_size b = b.size - b.position

abbrev pub get_capacity : ByteArray → ℕ
get_capacity b = b.capacity - b.position

-- ceil(1.0 * size / base), which is exact below 2^53.
abbrev pub ceil_div : ℕ → ℕ → ℕ
ceil_div size base = (size + (base - 1)) / base

unfoldable pub add_nodes : ℕ → ℕ → ByteArray → ByteArray
unfolding new_node
add_nodes count old_cap b = record b {
  nodes = b.nodes ++ replicate count (new_node b.fresh b.base_size);
  capacity = b.capacity + count * b.base_size;
  cur = if old_cap == 0 then length b.nodes else b.cur;
}

unfoldable pub add_capacity : ℕ → ByteArray → ByteArray
add_capacity size b =
    if size == 0
    then b
    else if ltb size (get_capacity b)
    then b
    else if leb size (get_capacity b)
    then b
    else add_nodes (ceil_div (size - get_capacity b) b.base_size) (get_capacity b) b

-- The loop of `write` over the chain from `_cur`: the chain afterwards, and the blocks `_cur` passed.
unfoldable pub write_chain : List Node → ℕ → List ℕ → Outcome (List Node × ℕ)
write_chain [] npos buf = fault
write_chain (n ∷ rest) npos buf =
    let ncap = n.size - npos in
    let more = write_chain rest 0 (drop ncap buf) in
    if leb (length buf) ncap
    then ok (
      record n { ptr = over n.ptr npos buf } ∷ rest,
      if n.size == npos + length buf then 1 else 0,
    )
    else (do
      (rest', k) ← more
      ok (record n { ptr = over n.ptr npos (take ncap buf) } ∷ rest', suc k))

pub write_at_cur : List ℕ → ByteArray → Outcome ByteArray
write_at_cur buf b = do
  (chain, k) ← write_chain (drop b.cur b.nodes) (b.position % b.base_size) buf
  ok (record b {
    nodes = take b.cur b.nodes ++ chain;
    cur = b.cur + k;
    position = b.position + length buf;
    size = max b.size (b.position + length buf);
  })

unfoldable pub write : List ℕ → ByteArray → Outcome ByteArray
unfolding write_at_cur
write buf b = if length buf == 0 then ok b else write_at_cur buf (add_capacity (length buf) b)

abbrev pub slice : List ℕ → ℕ → ℕ → List ℕ
slice bytes i n = take n (drop i bytes)

-- The loop of `read` from `_cur`: the bytes, and the blocks `_cur` passed. Its first step reads
-- `_cur->size`, also where no byte is asked for.
unfoldable pub read_chain : List Node → ℕ → ℕ → Outcome (List ℕ × ℕ)
read_chain [] npos size = fault
read_chain (n ∷ rest) npos size =
    let ncap = n.size - npos in
    let more = read_chain rest 0 (size - ncap) in
    if size == 0
    then ok ([], 0)
    else if leb size ncap
    then ok (slice n.ptr npos size, if n.size == npos + size then 1 else 0)
    else (do (bytes, k) ← more; ok (slice n.ptr npos ncap ++ bytes, suc k))

unfoldable pub read : ℕ → ByteArray → Outcome (List ℕ × ByteArray)
read size b = if ltb (get_read_size b) size then oor else (do
  (bytes, k) ← read_chain (drop b.cur b.nodes) (b.position % b.base_size) size
  ok (bytes, record b { cur = b.cur + k; position = b.position + size }))

-- The walk of `setPosition` from `_root`: how many blocks `_cur` passes.
unfoldable pub seek : List Node → ℕ → Outcome ℕ
seek [] v = fault
seek (n ∷ rest) v =
    let more = seek rest (v - n.size) in
    if ltb n.size v then (do k ← more; ok (suc k)) else if v == n.size then ok 1 else ok 0

unfoldable pub set_position : ℕ → ByteArray → Outcome ByteArray
set_position v b =
    if ltb b.capacity v
    then oor
    else (do k ← seek b.nodes v; ok (record b { position = v; size = max b.size v; cur = k }))

unfoldable pub clear : ByteArray → ByteArray
clear b = record b {
  position = 0;
  size = 0;
  capacity = b.base_size;
  nodes = take 1 b.nodes;
  cur = 0;
}
