-- ===== src/LoadBalance/Weighted.antt =====
-- The weighted choice of src/streams/LoadBalance.cpp gives every connection its weight's share.
use native.Mathlib.Nat.{mod-lt}
use routn.Base.{
  ℕ, suc, ◌+◌, ◌-◌, ◌%◌, ◌^◌, ◌≤◌, ◌<◌, ◌≡◌, refl, ap, ◌∙◌, sym, inl, inr, Bool-cases, false, List,
  [], ◌∷◌, length, take, All, ltb, ◌==◌, if◌then◌else◌, arith,
}
use routn.LoadBalance.{LoadBalanceItem, widen, sums, chosen, crash, upper_bound, last, get_idx}

abbrev pub weight_sum : List LoadBalanceItem → ℕ
weight_sum [] = 0
weight_sum (x ∷ xs) = x.weight + weight_sum xs

-- No weight is negative.
abbrev pub NotNegative : List LoadBalanceItem → Type 0
NotNegative xs = All (λ x. x.weight < 2 ^ 31) xs

length-sums : (xs : List LoadBalanceItem) (t : ℕ) → length (sums t xs) ≡ length xs
unfolding sums
length-sums [] t = refl
length-sums (x ∷ xs) t = ap suc (length-sums xs ((t + widen x.weight) % 2 ^ 64))

-- The sums do not wrap.
sums-step :
    (t : ℕ) (x : LoadBalanceItem) (xs : List LoadBalanceItem)
    → x.weight < 2 ^ 31
    → t + x.weight < 2 ^ 64
    → sums t (x ∷ xs) ≡ (t + x.weight) ∷ sums (t + x.weight) xs
unfolding sums
sums-step t x xs p q = ap (λ (k : ℕ). k ∷ sums k xs) (plain x.weight p q)
  where
    plain : (w : ℕ) → w < 2 ^ 31 → t + w < 2 ^ 64 → (t + widen w) % 2 ^ 64 ≡ t + w
    plain w p q = ground arith

sums-nil : (t : ℕ) → sums t [] ≡ []
unfolding sums
sums-nil t = refl

last-sums :
    (t : ℕ) (x : LoadBalanceItem) (xs : List LoadBalanceItem)
    → NotNegative (x ∷ xs)
    → t + weight_sum (x ∷ xs) < 2 ^ 64
    → (w : ℕ) × (ws : List ℕ) × (sums t (x ∷ xs) ≡ w ∷ ws) × (last w ws ≡ t + weight_sum (x ∷ xs))
last-sums t x [] (p, h) q = (
  t + x.weight,
  [],
  sums-step t x [] p (omega arith) ∙ ap (◌∷◌ (t + x.weight)) (sums-nil (t + x.weight)),
  omega arith,
)
last-sums t x (y ∷ ys) (p, h) q =
    let (w, ws, r, l) = last-sums (t + x.weight) y ys h (omega arith) in
    (
      t + x.weight,
      w ∷ ws,
      sums-step t x (y ∷ ys) p (omega arith) ∙ ap (◌∷◌ (t + x.weight)) r,
      l ∙ omega arith,
    )

upper_bound-step :
    (w dis : ℕ) (ws : List ℕ)
    → upper_bound (w ∷ ws) dis ≡ (if ltb dis w then 0 else suc (upper_bound ws dis))
unfolding upper_bound
upper_bound-step w dis ws = refl

-- `upper_bound` finds the connection in whose share the number falls.
upper_bound_lem :
    (t dis : ℕ) (xs : List LoadBalanceItem)
    → NotNegative xs
    → t + weight_sum xs < 2 ^ 64
    → t ≤ dis
    → dis < t + weight_sum xs
    → (i : ℕ) × (upper_bound (sums t xs) dis ≡ i)
      × (i < length xs)
      × (t + weight_sum (take i xs) ≤ dis)
      × (dis < t + weight_sum (take (suc i) xs))
upper_bound_lem t dis [] h q lo hi = absurd (omega arith)
upper_bound_lem t dis (x ∷ xs) (p, h) q lo hi =
    let e : upper_bound (sums t (x ∷ xs)) dis
        ≡ (if ltb dis (t + x.weight) then 0 else suc (upper_bound (sums (t + x.weight) xs) dis)) =
      ap (λ (ws : List ℕ). upper_bound ws dis) (sums-step t x xs p (omega arith))
      ∙ upper_bound-step (t + x.weight) dis (sums (t + x.weight) xs) in
    elim (Bool-cases (ltb dis (t + x.weight))) [
      | inl here ↦ (0, e ∙ rw here refl, omega arith, omega arith, ground arith)
      | inr later ↦
          let (i, u, l, lo', hi') =
            upper_bound_lem (t + x.weight) dis xs h (omega arith) (ground arith) (omega arith) in
          (suc i, e ∙ rw later (ap suc u), omega arith, omega (arith, lo'), omega (arith, hi'))
    ]

get_idx_lem :
    (random v w : ℕ) (ws : List ℕ) (i : ℕ)
    → 0 < last w ws
    → upper_bound (w ∷ ws) ((if v == 2 ^ 64 - 1 then random else v) % last w ws) ≡ i
    → i < length (w ∷ ws)
    → get_idx random v (w ∷ ws) ≡ chosen i
unfolding get_idx
get_idx_lem random v w ws i filled u lt =
    let nonzero : (last w ws == 0) ≡ false = ground arith in
    let inside : (i == length (w ∷ ws)) ≡ false = ground arith in rw (nonzero, u, inside) refl

-- Where the connections' weights are not negative and add up to a positive number below 2^64, `getIdx`
-- picks the connection in whose share of that sum the number falls: those before it weigh no more
-- than the number's remainder by the sum, and with its own weight they weigh more.
pub get_idx_result :
    (random v : ℕ) (xs : List LoadBalanceItem)
    → NotNegative xs
    → 0 < weight_sum xs
    → weight_sum xs < 2 ^ 64
    → (i : ℕ) × (get_idx random v (sums 0 xs) ≡ chosen i)
      × (i < length xs)
      × (weight_sum (take i xs) ≤ (if v == 2 ^ 64 - 1 then random else v) % weight_sum xs)
      × ((if v == 2 ^ 64 - 1 then random else v) % weight_sum xs < weight_sum (take (suc i) xs))
get_idx_result random v [] h some q = absurd (omega arith)
get_idx_result random v (x ∷ xs) h filled q =
    let n : ℕ = if v == 2 ^ 64 - 1 then random else v in
    let (w, ws, e, l) = last-sums 0 x xs h (omega arith) in
    let l' : last w ws ≡ weight_sum (x ∷ xs) = l ∙ omega arith in
    let (i, u, lt, lo, hi) =
      upper_bound_lem 0 (n % weight_sum (x ∷ xs)) (x ∷ xs) h (omega arith) (omega arith)
        (omega (arith, mod-lt n filled)) in
    let u' : upper_bound (w ∷ ws) (n % last w ws) ≡ i =
      ap (λ (t : List ℕ). upper_bound t (n % last w ws)) (sym e)
      ∙ ap (λ (t : ℕ). upper_bound (sums 0 (x ∷ xs)) (n % t)) l'
      ∙ u in
    let len : length (w ∷ ws) ≡ length (x ∷ xs) = ap length (sym e) ∙ length-sums (x ∷ xs) 0 in
    let r = get_idx_lem random v w ws i (omega (arith, l')) u' (omega (arith, len)) in
    (i, ap (get_idx random v) e ∙ r, lt, omega (arith, lo), omega (arith, hi))

-- Where the weights of at least one connection are not negative and add up to zero, `getIdx` divides by
-- zero.
pub get_idx_crash :
    (random v : ℕ) (x : LoadBalanceItem) (xs : List LoadBalanceItem)
    → NotNegative (x ∷ xs)
    → weight_sum (x ∷ xs) ≡ 0
    → get_idx random v (sums 0 (x ∷ xs)) ≡ crash
get_idx_crash random v x xs h z =
    let (w, ws, e, l) = last-sums 0 x xs h (omega arith) in
    rw e (unfold get_idx in ground (arith, l))
