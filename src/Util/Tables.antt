-- ===== src/Util/Tables.antt =====
-- Tables of bytes, as in src/Util.cpp, and what holds for all numbers below a bound.
use routn.Base.{
  ℕ, zero, suc, ◌≡◌, ◌<◌, refl, Bool, true, false, ◌&&◌, none, some, List, get_elem?, ◌==◌, arith,
  inl, inr, Bool-cases, ==_iff,
}

-- An entry; past the end of a table there is none to read, and 0 stands for it.
abbrev pub entry : List ℕ → ℕ → ℕ
entry table i = elim (get_elem? table i) [ none ↦ 0 | some x ↦ x ]

abbrev pub all_below : (ℕ → Bool) → ℕ → Bool
all_below p zero = true
all_below p (suc n) = p n && all_below p n

pub both : (a b : Bool) → (a && b) ≡ true → (a ≡ true) × (b ≡ true)
both true b h = (refl, h)
both false b h = absurd cc

pub all_below-lt : (p : ℕ → Bool) (n i : ℕ) → all_below p n ≡ true → i < n → p i ≡ true
all_below-lt p zero i h l = absurd (omega arith)
all_below-lt p (suc n) i h l =
    let (last, front) = both (p n) (all_below p n) h in
    elim (Bool-cases (i == n)) [
      | inl e ↦ let same : i ≡ n = (==_iff i n).0 e in rw same last
      | inr e ↦ all_below-lt p n i front (ground (arith, e, l))
    ]
