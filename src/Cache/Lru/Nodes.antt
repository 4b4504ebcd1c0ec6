-- ===== src/Cache/Lru/Nodes.antt =====
-- The list of nodes by addresses and by keys.
use mathlib.Core.Logic.{ite}
use routn.Base.{
  ℕ, suc, ◌<◌, ◌≤◌, ◌≡◌, refl, ap, Option, none, some, List, [], ◌∷◌, length, arith, take,
}
use routn.Base.Assoc.{lookup, erase}
use routn.Cache.Lru.{Item, by_id, without, assign, back, pop_back}

module _ {K V : Type 0} where
  abbrev pub pair : Item K V → K × V
  pair x = (x.key, x.val)

  -- The list without its addresses, most recent use first.
  unfoldable pub pairs : List (Item K V) → List (K × V)
  pairs [] = []
  pairs (x ∷ xs) = (x.key, x.val) ∷ pairs xs

  abbrev pub Below : ℕ → List (Item K V) → Type 0
  Below n [] = Unit {0}
  Below n (x ∷ xs) = (x.id < n) × Below n xs

  pub length-pairs : (xs : List (Item K V)) → length (pairs xs) ≡ length xs
  unfolding pairs
  length-pairs [] = refl
  length-pairs (x ∷ xs) = ap suc (length-pairs xs)

  pub without-assign :
      (i : ℕ) (v : V) (xs : List (Item K V)) → without i (assign i v xs) ≡ without i xs
  unfolding without assign
  without-assign i v [] = refl
  without-assign i v (x ∷ xs) = ground (arith, without-assign i v xs)

  pub by_id-assign :
      (i : ℕ) (v : V) (xs : List (Item K V)) (x : Item K V)
      → by_id i xs ≡ some x
      → by_id i (assign i v xs) ≡ some (record x { val = v })
  unfolding by_id assign
  by_id-assign i v [] x e = ground arith
  by_id-assign i v (y ∷ xs) x e = ground (arith, by_id-assign i v xs x)

  pub Below-without : (n i : ℕ) (xs : List (Item K V)) → Below n xs → Below n (without i xs)
  unfolding without
  Below-without n i [] b = tt
  Below-without n i (x ∷ xs) b = ground (arith, Below-without n i xs)

  pub Below-id :
      (n i : ℕ) (xs : List (Item K V)) (x : Item K V) → Below n xs → by_id i xs ≡ some x → x.id < n
  unfolding by_id
  Below-id n i [] x b e = ground arith
  Below-id n i (y ∷ xs) x b e = ground (arith, Below-id n i xs x b.1)

  pub Below-suc : (n : ℕ) (xs : List (Item K V)) → Below n xs → Below (suc n) xs
  Below-suc n [] b = tt
  Below-suc n (x ∷ xs) b = (omega arith, Below-suc n xs b.1)

  pub by_id_above : (n i : ℕ) (xs : List (Item K V)) → Below n xs → n ≤ i → by_id i xs ≡ none
  unfolding by_id
  by_id_above n i [] b h = refl
  by_id_above n i (x ∷ xs) b h = ground (arith, by_id_above n i xs b.1)

  pub length-pop_back :
      (x : Item K V) (xs : List (Item K V)) → length (pop_back (x ∷ xs)) ≡ length xs
  unfolding pop_back
  length-pop_back x [] = refl
  length-pop_back x (y ∷ xs) = ap suc (length-pop_back y xs)

module _ {K V : Type 0} (eq : Discrete K) where
  -- The address of the node with a key.
  unfoldable pub find_id : K → List (Item K V) → Option ℕ
  find_id k [] = none
  find_id k (x ∷ xs) = ite (eq x.key k) (some x.id) (find_id k xs)

  -- No address and no key twice.
  abbrev pub Distinct : List (Item K V) → Type 0
  Distinct [] = Unit {0}
  Distinct (x ∷ xs) = (find_id x.key xs ≡ none) × (by_id x.id xs ≡ none) × Distinct xs

  pub find_id_found :
      (k : K) (i : ℕ) (xs : List (Item K V))
      → Distinct xs
      → find_id k xs ≡ some i
      → (x : Item K V) × (by_id i xs ≡ some x) × (x.key ≡ k) × (x.id ≡ i)
  unfolding find_id by_id
  find_id_found k i [] d e = ground arith
  find_id_found k i (x ∷ xs) d e = elim (eq x.key k) [
    | yes p ↦ (x, ground arith, p, ground arith)
    | no p ↦
        let (y, f, s, t) = find_id_found k i xs d.2 (ground arith) in (y, ground (arith, f), s, t)
  ]

  found_by_id :
      (k : K) (i : ℕ) (xs : List (Item K V))
      → Distinct xs
      → find_id k xs ≡ some i
      → by_id i xs ≡ none
      → ⊥
  found_by_id k i xs d e n = let (x, f, s, t) = find_id_found k i xs d e in cc

  pub find_id-none :
      (k : K) (xs : List (Item K V)) → find_id k xs ≡ none → lookup eq k (pairs xs) ≡ none
  unfolding find_id lookup pairs
  find_id-none k [] e = refl
  find_id-none k (x ∷ xs) e = ground (arith, find_id-none k xs)

  pub lookup-pairs :
      (k : K) (i : ℕ) (xs : List (Item K V)) (x : Item K V)
      → Distinct xs
      → find_id k xs ≡ some i
      → by_id i xs ≡ some x
      → lookup eq k (pairs xs) ≡ some x.val
  unfolding find_id by_id lookup pairs
  lookup-pairs k i [] x d e f = ground arith
  lookup-pairs k i (y ∷ xs) x d e f =
      ground (arith, lookup-pairs k i xs x d.2, found_by_id k i xs d.2)

  pub erase-pairs_missing :
      (k : K) (xs : List (Item K V)) → find_id k xs ≡ none → erase eq k (pairs xs) ≡ pairs xs
  unfolding find_id erase pairs
  erase-pairs_missing k [] e = refl
  erase-pairs_missing k (x ∷ xs) e = ground (arith, erase-pairs_missing k xs)

  -- Taking out the node with a key's address takes out the key.
  pub pairs-without :
      (k : K) (i : ℕ) (xs : List (Item K V))
      → Distinct xs
      → find_id k xs ≡ some i
      → pairs (without i xs) ≡ erase eq k (pairs xs)
  unfolding find_id without erase pairs by_id
  pairs-without k i [] d e = refl
  pairs-without k i (x ∷ xs) d e =
      ground (arith, pairs-without k i xs d.2, erase-pairs_missing k xs, found_by_id k i xs d.2)

  pub find_id-without :
      (k j : K) (i : ℕ) (xs : List (Item K V))
      → Distinct xs
      → find_id k xs ≡ some i
      → find_id j (without i xs) ≡ ite (eq k j) none (find_id j xs)
  unfolding find_id without by_id
  find_id-without k j i [] d e = ground arith
  find_id-without k j i (x ∷ xs) d e =
      ground (arith, find_id-without k j i xs d.2, found_by_id k i xs d.2)

  pub by_id-without :
      (i j : ℕ) (xs : List (Item K V)) → by_id j xs ≡ none → by_id j (without i xs) ≡ none
  unfolding without by_id
  by_id-without i j [] e = refl
  by_id-without i j (x ∷ xs) e = ground (arith, by_id-without i j xs)

  pub by_id-without_self :
      (i : ℕ) (xs : List (Item K V)) → Distinct xs → by_id i (without i xs) ≡ none
  unfolding without by_id
  by_id-without_self i [] d = refl
  by_id-without_self i (x ∷ xs) d = ground (arith, by_id-without_self i xs d.2)

  pub find_id-without-none :
      (j : K) (i : ℕ) (xs : List (Item K V)) → find_id j xs ≡ none → find_id j (without i xs) ≡ none
  unfolding without find_id
  find_id-without-none j i [] e = refl
  find_id-without-none j i (x ∷ xs) e = ground (arith, find_id-without-none j i xs)

  pub without-Distinct : (i : ℕ) (xs : List (Item K V)) → Distinct xs → Distinct (without i xs)
  unfolding without
  without-Distinct i [] d = tt
  without-Distinct i (x ∷ xs) d =
      ground
        (arith, without-Distinct i xs d.2, find_id-without-none x.key i xs, by_id-without i x.id xs)

  pub length-without :
      (i : ℕ) (xs : List (Item K V)) (x : Item K V)
      → by_id i xs ≡ some x
      → suc (length (without i xs)) ≡ length xs
  unfolding without by_id
  length-without i [] x e = ground arith
  length-without i (y ∷ xs) x e = ground (arith, length-without i xs x)

  -- What `prune` does to the list at its end: the node at the back goes.
  pub record Dropped (xs : List (Item K V)) (n : ℕ) : Type 0 where
    pub last : Item K V
    pub at_back : back xs ≡ some last
    pub by_address : by_id last.id xs ≡ some last
    pub by_key : find_id last.key xs ≡ some last.id
    pub popped : pop_back xs ≡ without last.id xs
    pub cut : pairs (pop_back xs) ≡ take n (pairs xs)

  pub back-Dropped :
      (x : Item K V) (xs : List (Item K V)) → Distinct (x ∷ xs) → Dropped (x ∷ xs) (length xs)
  unfolding back pop_back pairs by_id find_id without
  back-Dropped x [] d = record {
    last = x;
    at_back = refl;
    by_address = ground arith;
    by_key = ground arith;
    popped = ground arith;
    cut = refl;
  }
  back-Dropped x (y ∷ xs) d =
      let r = back-Dropped y xs d.2 in
      record {
        last = r.last;
        at_back = r.at_back;
        by_address = ground (arith, r.by_address);
        by_key = ground (arith, r.by_key);
        popped = ground (arith, r.popped, r.by_address);
        cut = ap (◌∷◌ (x.key, x.val)) r.cut;
      }
