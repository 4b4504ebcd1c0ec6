-- ===== src/ByteArray/Ahead.antt =====
-- The bytes that lie ahead of the position: what reads consume, and what a write and a step back
-- put there. The codecs' round trips rest on this view alone.
use routn.Base.{
  ℕ, ◌+◌, ◌≤◌, ◌<◌, ◌≡◌, refl, ap, ◌∙◌, sym, List, ◌++◌, length, take, drop, over, arith,
  length-append, length-take, length-drop, drop-drop, take-length-append, drop-length-append,
}
use routn.Base.Overwrite.{drop-over, over-over}
use routn.ByteArray.{ByteArray, ok, read, set_position, get_read_size}
use routn.ByteArray.Chain.{flat, length-flat}
use routn.ByteArray.Invariant.{IsValid}
use routn.ByteArray.Refinement.{View, view, Stored}
use routn.ByteArray.Cursor.{read-Taken, Moved, Moved-back, set_position-Moved}

unfoldable pub ahead : ByteArray → List ℕ
ahead b = drop (view b).at (view b).bytes

length-bytes : (b : ByteArray) → IsValid b → length (view b).bytes ≡ b.size
unfolding view
length-bytes b v = omega (
  arith,
  length-take b.size (flat b.nodes),
  length-flat b.base_size b.nodes v.blocks,
  v.cap_eq,
  v.size_le,
)

at-position : (b : ByteArray) → (view b).at ≡ b.position
unfolding view
at-position b = refl

pub length-ahead : (b : ByteArray) → IsValid b → length (ahead b) ≡ get_read_size b
unfolding ahead
length-ahead b v =
    omega (arith, length-drop (view b).at (view b).bytes, length-bytes b v, at-position b)

-- `c` is `b` with the position moved on by `n` bytes, so that `rest` is still ahead.
pub record Passed (n : ℕ) (rest : List ℕ) (b c : ByteArray) : Type 0 where
  pub valid : IsValid c
  pub left : ahead c ≡ rest
  pub position_eq : c.position ≡ b.position + n
  pub same_endian : c.endian ≡ b.endian

-- One read after another.
pub Passed-trans :
    (m n : ℕ) (mid rest : List ℕ) (b c d : ByteArray)
    → Passed m mid b c
    → Passed n rest c d
    → Passed (m + n) rest b d
Passed-trans m n mid rest b c d p q = record {
  valid = q.valid;
  left = q.left;
  position_eq = omega (arith, p.position_eq, q.position_eq);
  same_endian = q.same_endian ∙ p.same_endian;
}

-- A read takes the bytes ahead, in their order.
pub read-ahead :
    (xs rest : List ℕ) (b : ByteArray)
    → IsValid b
    → 0 < length xs
    → ahead b ≡ xs ++ rest
    → (c : ByteArray) × (read (length xs) b ≡ ok (xs, c)) × Passed (length xs) rest b c
unfolding ahead
read-ahead xs rest b v some e =
    let enough : length xs ≤ get_read_size b =
      omega (arith, length-ahead b v, ap length e, length-append xs rest) in
    let (c, r, t) = read-Taken (length xs) b v some enough in
    (
      c,
      r ∙ ap (λ (t : List ℕ). ok (t, c)) (ap (take (length xs)) e ∙ take-length-append xs rest),
      record {
        valid = t.valid;
        left =
            ap (λ (w : View). drop w.at w.bytes) t.seen
            ∙ sym (drop-drop (length xs) (view b).at (view b).bytes)
            ∙ ap (drop (length xs)) e
            ∙ drop-length-append xs rest;
        position_eq =
            sym (at-position c)
            ∙ ap (λ (w : View). w.at) t.seen
            ∙ ap (λ (k : ℕ). k + length xs) (at-position b);
        same_endian = t.same_endian;
      },
    )

-- Two writes in a row store what one write of both stores.
pub Stored-trans :
    (xs ys : List ℕ) (b c d : ByteArray)
    → IsValid b
    → Stored xs b c
    → Stored ys c d
    → Stored (xs ++ ys) b d
Stored-trans xs ys b c d v s t = record {
  valid = t.valid;
  seen =
      t.seen
      ∙ ap (λ (w : View). record { bytes = over w.bytes w.at ys; at = w.at + length ys }) s.seen
      ∙ (λ i. record { bytes = both i; at = sum i });
  same_base = t.same_base ∙ s.same_base;
  same_endian = t.same_endian ∙ s.same_endian;
}
  where
    both :
        over (over (view b).bytes (view b).at xs) ((view b).at + length xs) ys
        ≡ over (view b).bytes (view b).at (xs ++ ys)
    both =
        over-over (view b).bytes (view b).at xs ys
          (omega (arith, length-bytes b v, at-position b, v.pos_le))

    sum : (view b).at + length xs + length ys ≡ (view b).at + length (xs ++ ys)
    sum = omega (arith, length-append xs ys)

-- `d` is what storing `buf` at `b`'s position and a step back to that position leave.
pub record Rewound (buf : List ℕ) (b d : ByteArray) : Type 0 where
  pub valid : IsValid d
  pub rest : List ℕ
  pub lies : ahead d ≡ buf ++ rest
  pub position_eq : d.position ≡ b.position
  pub same_endian : d.endian ≡ b.endian

module _ (buf : List ℕ) (b c : ByteArray) (v : IsValid b) (st : Stored buf b c) where
  pub position-Stored : c.position ≡ b.position + length buf
  position-Stored =
      sym (at-position c)
      ∙ ap (λ (w : View). w.at) st.seen
      ∙ ap (λ (t : ℕ). t + length buf) (at-position b)

  back : b.position ≤ c.size
  back = omega (arith, position-Stored, st.valid.pos_le)

  Moved-Rewound : (d : ByteArray) → Moved b.position c d → Rewound buf b d
  unfolding ahead
  Moved-Rewound d m = record {
    valid = m.valid;
    rest = drop ((view b).at + length buf) (view b).bytes;
    lies =
        ap (λ (t : ℕ). drop t (view d).bytes) (m.moved ∙ sym (at-position b))
        ∙ ap (drop (view b).at)
            (Moved-back b.position c d m back ∙ ap (λ (w : View). w.bytes) st.seen)
        ∙ drop-over (view b).bytes (view b).at buf
            (omega (arith, length-bytes b v, at-position b, v.pos_le));
    position_eq = sym (at-position d) ∙ m.moved;
    same_endian = m.same_endian ∙ st.same_endian;
  }

  -- The step back goes well, and what was stored lies ahead.
  pub rewind : (d : ByteArray) × (set_position b.position c ≡ ok d) × Rewound buf b d
  rewind =
      let (d, e, m) =
        set_position-Moved b.position c st.valid (omega (arith, back, st.valid.size_le)) in
      (d, e, Moved-Rewound d m)
