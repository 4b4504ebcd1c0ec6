-- ===== src/ByteArray/Cursor.antt =====
-- `write`, `read` and `setPosition` on a valid byte array, seen on the flat bytes.
use routn.Base.{
  ℕ, suc, ◌+◌, ◌*◌, ◌%◌, ◌≤◌, ◌<◌, max, ◌≡◌, refl, ◌∙◌, sym, List, [], ◌∷◌, length, take, drop,
  arith, length-take, drop-drop, take-drop-take, take-append_left, take_all,
}
use native.Mathlib.Nat.{mod-lt}
use routn.Base.Overwrite.{over-nil}
use routn.ByteArray.{ByteArray, ok, write, slice, read, set_position, add_capacity, get_read_size}
use routn.ByteArray.Chain.{flat, length-flat, Blocks-drop}
use routn.ByteArray.ReadChain.{Given, read_chain_fits, Sought, seek_fits}
use routn.ByteArray.Invariant.{IsValid, Roomy, add_capacity-Roomy}
use routn.ByteArray.Refinement.{
  view, Stored, write_at_cur-Stored, offset, length-rest, flat-drop, cur-le-length,
}

-- Growing the chain is not seen in the view.
pub view-add_capacity : (size : ℕ) (b : ByteArray) → IsValid b → view (add_capacity size b) ≡ view b
unfolding view
view-add_capacity size b v = λ i. record { bytes = same i; at = r.same_position i }
  where
    r : Roomy size b (add_capacity size b)
    r = add_capacity-Roomy size b v

    same :
        take (add_capacity size b).size (flat (add_capacity size b).nodes)
        ≡ take b.size (flat b.nodes)
    same =
        let (fill, e) = r.kept in
        rw (e, r.same_size)
          (take-append_left b.size (flat b.nodes) fill
            (omega (arith, length-flat b.base_size b.nodes v.blocks, v.cap_eq, v.size_le)))

nothing-Stored : (b : ByteArray) → IsValid b → Stored [] b b
unfolding view
nothing-Stored b v = record {
  valid = v;
  seen =
      λ i. record { bytes = sym (over-nil (take b.size (flat b.nodes)) b.position) i; at = plus i };
  same_base = refl;
  same_endian = refl;
}
  where
    plus : b.position ≡ b.position + 0
    plus = omega arith

-- On a valid byte array `write` succeeds: the bytes stand at the position, over what stood there, the
-- position is behind them, and the array is valid.
pub write-Stored :
    (buf : List ℕ) (b : ByteArray)
    → IsValid b
    → (c : ByteArray) × (write buf b ≡ ok c) × Stored buf b c
unfolding write
write-Stored [] b v = (b, refl, nothing-Stored b v)
write-Stored (x ∷ buf) b v =
    let r = add_capacity-Roomy (suc (length buf)) b v in
    let (c, e, s) =
      write_at_cur-Stored (x ∷ buf) (add_capacity (suc (length buf)) b) r.valid r.room
        (omega arith) in
    (
      c,
      ground (arith, e),
      record {
        valid = s.valid;
        seen = rw (view-add_capacity (suc (length buf)) b v) at s.seen;
        same_base = s.same_base ∙ r.same_base;
        same_endian = s.same_endian ∙ r.same_endian;
      },
    )

-- What a successful read leaves behind: the bytes as they were, the position moved.
pub record Taken (n : ℕ) (b c : ByteArray) : Type 0 where
  pub valid : IsValid c
  pub seen : view c ≡ record { bytes = (view b).bytes; at = (view b).at + n }
  pub same_base : c.base_size ≡ b.base_size
  pub same_endian : c.endian ≡ b.endian

module _ (n : ℕ) (b : ByteArray) (v : IsValid b) (some : 0 < n) (enough : n ≤ get_read_size b) where
  read-slice :
      slice (flat (drop b.cur b.nodes)) (b.position % b.base_size) n
      ≡ slice (view b).bytes (view b).at n
  unfolding view
  read-slice =
      let e : b.cur * b.base_size + b.position % b.base_size ≡ b.position =
        omega (arith, offset b v, v.cur_le) in
      rw (flat-drop b.base_size b.cur b.nodes v.blocks (cur-le-length b v), drop-drop, e)
        (sym (take-drop-take n b.position b.size (flat b.nodes) (omega (arith, v.pos_le))))

  -- On a valid byte array with at least `n` bytes ahead, 0 < n, `read` returns the `n` bytes that stand
  -- at the position and moves the position behind them; the bytes stay.
  pub read-Taken :
      (c : ByteArray) × (read n b ≡ ok (slice (view b).bytes (view b).at n, c)) × Taken n b c
  unfolding read Given
  read-Taken =
      let (k, e, lo, hi) =
        read_chain_fits b.base_size (drop b.cur b.nodes) (b.position % b.base_size) n
          (Blocks-drop b.base_size b.cur b.nodes v.blocks) (mod-lt b.position v.base_pos) some
          (rw (offset b v, length-rest b v) (omega (arith, v.cur_le, v.size_le))) in
      (
        record b { cur = b.cur + k; position = b.position + n },
        rw e (ground (arith, read-slice)),
        record {
          valid = record {
            base_pos = v.base_pos;
            some_block = v.some_block;
            blocks = v.blocks;
            cap_eq = v.cap_eq;
            pos_le = omega (arith, v.pos_le);
            size_le = v.size_le;
            cur_le = omega (arith, offset b v, v.cur_le, lo);
            cur_next = omega (arith, offset b v, v.cur_le, hi);
          };
          seen = unfold view in refl;
          same_base = refl;
          same_endian = refl;
        },
      )

-- What `setPosition` leaves: the old bytes, and up to the position those that the blocks hold.
pub record Moved (at : ℕ) (b c : ByteArray) : Type 0 where
  pub valid : IsValid c
  pub moved : (view c).at ≡ at
  pub old_bytes : take b.size (view c).bytes ≡ (view b).bytes
  pub new_length : length (view c).bytes ≡ max b.size at
  pub same_base : c.base_size ≡ b.base_size
  pub same_endian : c.endian ≡ b.endian

-- On a valid byte array `setPosition` succeeds within the capacity: the position is the given one, the old bytes stay and
-- the size grows to the position where that is larger.
pub set_position-Moved :
    (at : ℕ) (b : ByteArray)
    → IsValid b
    → at ≤ b.capacity
    → (c : ByteArray) × (set_position at b ≡ ok c) × Moved at b c
unfolding set_position Sought
set_position-Moved at b v h =
    let (k, e, lo, hi) =
      seek_fits b.base_size b.nodes at v.blocks v.base_pos v.some_block (omega (arith, v.cap_eq)) in
    (
      record b { position = at; size = max b.size at; cur = k },
      rw e (ground arith),
      record {
        valid = record {
          base_pos = v.base_pos;
          some_block = v.some_block;
          blocks = v.blocks;
          cap_eq = v.cap_eq;
          pos_le = omega arith;
          size_le = omega (arith, v.size_le);
          cur_le = lo;
          cur_next = hi;
        };
        moved = unfold view in refl;
        old_bytes = unfold view in take-take b.size (max b.size at) (flat b.nodes) (omega arith);
        new_length =
            unfold view in
            omega (
              arith,
              length-take (max b.size at) (flat b.nodes),
              length-flat b.base_size b.nodes v.blocks,
              v.cap_eq,
              v.size_le,
            );
        same_base = refl;
        same_endian = refl;
      },
    )
  where
    take-take : (m n : ℕ) (xs : List ℕ) → m ≤ n → take m (take n xs) ≡ take m xs
    take-take m n xs le = take-drop-take m 0 n xs (omega arith)

-- A step back leaves all the bytes.
pub Moved-back :
    (at : ℕ) (b c : ByteArray) → Moved at b c → at ≤ b.size → (view c).bytes ≡ (view b).bytes
Moved-back at b c m h =
    sym (take_all b.size (view c).bytes (omega (arith, m.new_length))) ∙ m.old_bytes
