-- ===== src/ByteArray/Buffers.antt =====
-- `Read`, `toString` and the scatter/gather lists of src/ByteArray.cpp.
pub mod Gather
pub mod Peek
use routn.Base.{
  ℕ, zero, suc, ◌+◌, ◌-◌, ◌*◌, ◌/◌, ◌%◌, List, [], ◌∷◌, ◌++◌, drop, ltb, leb, ◌==◌, if◌then◌else◌,
}
use routn.ByteArray.{
  ByteArray, Node, Outcome, ok, oor, fault, ◌>>=◌, slice, get_read_size, add_capacity,
}

-- The loop of `Read`: every block but the last is copied from `_cur`, whose bytes are `first`.
unfoldable pub peek_chain : List ℕ → List Node → ℕ → ℕ → Outcome (List ℕ)
peek_chain first [] npos size = fault
peek_chain first (n ∷ rest) npos size =
    let ncap = n.size - npos in
    let more = peek_chain first rest 0 (size - ncap) in
    if size == 0
    then ok []
    else if leb size ncap
    then ok (slice n.ptr npos size)
    else (do bytes ← more; ok (slice first npos ncap ++ bytes))

abbrev pub cur_ptr : List Node → List ℕ
cur_ptr [] = []
cur_ptr (n ∷ rest) = n.ptr

-- `Read(buf, size, position)`. It checks `size` against the byte array's own position.
unfoldable pub peek : ℕ → ℕ → ByteArray → Outcome (List ℕ)
peek size position b =
    if ltb (get_read_size b) size
    then oor
    else peek_chain (cur_ptr (drop b.cur b.nodes)) (drop b.cur b.nodes) (position % b.base_size)
        size

unfoldable pub to_string : ByteArray → Outcome (List ℕ)
to_string b = if get_read_size b == 0 then ok [] else peek (get_read_size b) b.position b

-- `iov_base` points `offset` bytes into the block with index `node`.
pub record Iovec : Type 0 where
  pub node : ℕ
  pub offset : ℕ
  pub len : ℕ

-- The loop of the three functions below, from the block with index `i` on.
unfoldable pub buffers_from : List Node → ℕ → ℕ → ℕ → Outcome (List Iovec)
buffers_from [] i npos len = fault
buffers_from (n ∷ rest) i npos len =
    let ncap = n.size - npos in
    let more = buffers_from rest (suc i) 0 (len - ncap) in
    if leb len ncap
    then ok (record { node = i; offset = npos; len = len } ∷ [])
    else (do iovs ← more; ok (record { node = i; offset = npos; len = ncap } ∷ iovs))

abbrev pub clip_len : ℕ → ByteArray → ℕ
clip_len len b = if ltb (get_read_size b) len then get_read_size b else len

unfoldable pub buffers_at_cur : ℕ → ByteArray → Outcome (List Iovec)
buffers_at_cur len b = buffers_from (drop b.cur b.nodes) b.cur (b.position % b.base_size) len

unfoldable pub get_read_buffers : ℕ → ByteArray → Outcome (ℕ × List Iovec)
unfolding buffers_at_cur
get_read_buffers len b =
    if clip_len len b == 0
    then ok (0, [])
    else (do iovs ← buffers_at_cur (clip_len len b) b; ok (clip_len len b, iovs))

-- The overload with a position walks from `_root`, and clips by the byte array's own position.
unfoldable pub get_read_buffers_at : ℕ → ℕ → ByteArray → Outcome (ℕ × List Iovec)
get_read_buffers_at len position b = if clip_len len b == 0 then ok (0, []) else (do
  iovs ←
      buffers_from (drop (position / b.base_size) b.nodes) (position / b.base_size)
        (position % b.base_size) (clip_len len b)
  ok (clip_len len b, iovs))

unfoldable pub get_write_buffers : ℕ → ByteArray → Outcome (ℕ × List Iovec × ByteArray)
unfolding buffers_at_cur
get_write_buffers len b =
    if len == 0
    then ok (0, [], b)
    else (do iovs ← buffers_at_cur len (add_capacity len b); ok (len, iovs, add_capacity len b))
