-- ===== src/LoadBalance/RoundRobin.antt =====
-- The round robin choice of src/streams/LoadBalance.cpp finds a connection wherever there is one.
use native.Mathlib.Nat.{mod-lt, mod-eq_of_lt, add-mod_right}
use routn.Base.{
  ℕ, zero, suc, ◌+◌, ◌-◌, ◌%◌, ◌^◌, ◌≤◌, ◌<◌, ◌≡◌, refl, ap, ◌∙◌, inl, inr, ◌⊎◌, Bool-cases, Bool,
  true, false, none, some, List, [], ◌∷◌, length, get_elem?, All, ltb, ◌==◌, if◌then◌else◌, arith,
}
use routn.LoadBalance.{LoadBalanceItem, LoadBalance, pick, get_round_robin}

get_elem?-lt :
    {A : Type 0} (xs : List A) (i : ℕ) → i < length xs → (x : A) × (get_elem? xs i ≡ some x)
get_elem?-lt [] i h = absurd (omega arith)
get_elem?-lt (x ∷ xs) zero h = (x, refl)
get_elem?-lt (x ∷ xs) (suc i) h = get_elem?-lt xs i (omega arith)

All-from :
    {A : Type 0} (P : A → Type 0) (xs : List A)
    → ((j : ℕ) → j < length xs → (x : A) → get_elem? xs j ≡ some x → P x)
    → All P xs
All-from P [] h = tt
All-from P (x ∷ xs) h =
    (h 0 (omega arith) x refl, All-from P xs (λ j l y e. h (suc j) (omega arith) y e))

-- Every index is met by an offset from `start`, round the list.
offset_of : (n start j : ℕ) → start < n → j < n → (o : ℕ) × (o < n) × ((start + o) % n ≡ j)
offset_of n start j p q = elim (Bool-cases (ltb j start)) [
  | inl before ↦ (j + n - start, ground arith, wrapped)
  | inr behind ↦ (j - start, omega arith, ap (λ (t : ℕ). t % n) (ground arith) ∙ mod-eq_of_lt q)
]
  where
    wrapped : (start + (j + n - start)) % n ≡ j
    wrapped = ap (λ (t : ℕ). t % n) (omega arith) ∙ add-mod_right j n ∙ mod-eq_of_lt q

module _ (alive : ℕ → Bool) (items : List LoadBalanceItem) (start : ℕ)
    (some_item : 0 < length items) where
  -- The first live one, or none in the offsets that were tried.
  abbrev Picked : ℕ → ℕ → Type 0
  Picked i rounds =
      ((h : LoadBalanceItem) × (j : ℕ) × (pick alive items start i rounds ≡ some h)
        × (alive h.id ≡ true)
        × (get_elem? items j ≡ some h))
      ⊎ ((pick alive items start i rounds ≡ none)
          × ((o : ℕ)
              → i ≤ o
              → o < i + rounds
              → (x : LoadBalanceItem) → get_elem? items ((start + o) % length items) ≡ some x
              → alive x.id ≡ false))

  -- The offset that was tried last, or one of the others.
  tried_lem :
      (i rounds o : ℕ) (x h : LoadBalanceItem)
      → get_elem? items ((start + i) % length items) ≡ some h
      → alive h.id ≡ false
      → ((o : ℕ)
          → suc i ≤ o
          → o < suc i + rounds
          → (x : LoadBalanceItem) → get_elem? items ((start + o) % length items) ≡ some x
          → alive x.id ≡ false)
      → i ≤ o
      → o < i + suc rounds
      → get_elem? items ((start + o) % length items) ≡ some x
      → alive x.id ≡ false
  tried_lem i rounds o x h e dead q lo hi r = elim (Bool-cases (o == i)) [
    | inl here ↦
        let here' : o ≡ i = ground (arith, here) in
        let s : get_elem? items ((start + o) % length items) ≡ some h =
          ap (λ (t : ℕ). get_elem? items ((start + t) % length items)) here' ∙ e in
        cc
    | inr later ↦ q o (ground (arith, later)) (omega arith) x r
  ]

  picked : (i rounds : ℕ) → Picked i rounds
  unfolding pick
  picked i zero = inr (refl, λ o p q x e. absurd (omega arith))
  picked i (suc rounds) =
      let (h, e) = get_elem?-lt items ((start + i) % length items) (mod-lt (start + i) some_item) in
      elim (Bool-cases (alive h.id)) [
        | inl live ↦ inl (h, (start + i) % length items, rw (e, pick) (rw live refl), live, e)
        | inr dead ↦
            let same : pick alive items start i (suc rounds)
                ≡ pick alive items start (suc i) rounds =
              rw (e, pick) (rw dead refl) in
            elim (picked (suc i) rounds) [
              | inl (g, j, p, q, r) ↦ inl (g, j, same ∙ p, q, r)
              | inr (p, q) ↦
                  inr (same ∙ p, λ o lo hi x r. tried_lem i rounds o x h e dead q lo hi r)
            ]
      ]

-- `get` returns a connection of the list that is connected, or none, and then none of the list is.
pub get_round_robin_result :
    (alive : ℕ → Bool) (random v : ℕ) (b : LoadBalance)
    → ((h : LoadBalanceItem) × (j : ℕ) × (get_round_robin alive random v b ≡ some h)
        × (alive h.id ≡ true)
        × (get_elem? b.items j ≡ some h))
      ⊎ ((get_round_robin alive random v b ≡ none) × All (λ x. alive x.id ≡ false) b.items)
get_round_robin_result alive random v b = elim (Bool-cases (length b.items == 0)) [
  | inl empty ↦ inr (
    unfold get_round_robin in ground (arith, empty),
    All-from _ b.items (λ j l x e. absurd (ground (arith, empty))),
  )
  | inr some_items ↦
      let filled : 0 < length b.items = ground (arith, some_items) in
      let start : ℕ = (if v == 2 ^ 64 - 1 then random else v) % length b.items in
      let same : get_round_robin alive random v b ≡ pick alive b.items start 0 (length b.items) =
        unfold get_round_robin in ground (arith, some_items) in
      elim (picked alive b.items start filled 0 (length b.items)) [
        | inl (h, j, p, q, r) ↦ inl (h, j, same ∙ p, q, r)
        | inr (p, q) ↦ inr (
          same ∙ p,
          All-from _ b.items (λ j l x e.
              let (o, lt, m) = offset_of (length b.items) start j (mod-lt _ filled) l in
              q o (omega arith) (omega (arith, lt)) x (ap (get_elem? b.items) m ∙ e)),
        )
      ]
]
