-- ===== src/Cache/Lru/Invariant.antt =====
-- The map and the list of an LRU cache agree, and every operation keeps it so.
use mathlib.Core.Logic.{ite}
use routn.Base.{
  ℕ, zero, suc, ◌+◌, ◌<◌, ◌≤◌, ◌≡◌, refl, ap, ◌∙◌, sym, true, false, none, some, List, [], ◌∷◌,
  ◌++◌, length, take, ltb, if◌then◌else◌, arith, inl, inr, Bool-cases, take_all, take-drop-take,
}
use routn.Base.Assoc.{lookup, erase, Unique, lookup-erase, erase-Unique, length-erase}
use routn.Cache.Lru.{
  Item, Lru, without, pop_back, drop_back, prune_loop, prune, clear, new_lru, below_limits,
}
use routn.Cache.Lru.Nodes.{
  find_id, Distinct, Below, Below-without, Below-id, Below-suc, by_id_above, find_id_found,
  find_id-without, by_id-without_self, without-Distinct, length-without, Dropped, back-Dropped,
  pairs, length-pairs,
}
use routn.Cache.Status.{CacheStatus, inc_prune}

module _ {K V : Type 0} (eq : Discrete K) where
  -- The two containers: an iterator for each node and no other, no key or address twice.
  pub record Linked (cache : List (K × ℕ)) (keys : List (Item K V)) (next : ℕ) : Type 0 where
    pub found : (k : K) → lookup eq k cache ≡ find_id eq k keys
    pub unique : Unique eq cache
    pub distinct : Distinct eq keys
    pub below : Below next keys
    pub same_size : length cache ≡ length keys

  abbrev pub IsValid : Lru K V → Type 0
  IsValid c = Linked c.cache c.keys c.next_id

module _ {K V : Type 0} (eq : Discrete K) (cache : List (K × ℕ)) (keys : List (Item K V)) (next : ℕ)
    (v : Linked eq cache keys next) where
  -- Taking out an entry and its node.
  pub Linked-without :
      (k : K) (i : ℕ)
      → find_id eq k keys ≡ some i
      → Linked eq (erase eq k cache) (without i keys) next
  Linked-without k i e = record {
    found = λ j.
        lookup-erase eq k j cache
        ∙ ap (ite (eq k j) none) (v.found j)
        ∙ sym (find_id-without eq k j i keys v.distinct e);
    unique = erase-Unique eq k cache v.unique;
    distinct = without-Distinct eq i keys v.distinct;
    below = Below-without next i keys v.below;
    same_size =
        let (x, f, _, _) = find_id_found eq k i keys v.distinct e in
        omega (
          arith,
          length-erase eq k {v = i} cache v.unique (v.found k ∙ e),
          length-without eq i keys x f,
          v.same_size,
        );
  }

  -- A node moved to the front, perhaps with a new value.
  pub Linked-front :
      (x : Item K V)
      → find_id eq x.key keys ≡ some x.id
      → Linked eq cache (x ∷ without x.id keys) next
  Linked-front x e = record {
    found = λ j. v.found j ∙ here j;
    unique = v.unique;
    distinct = (
      find_id-without eq x.key x.key x.id keys v.distinct e ∙ same,
      by_id-without_self eq x.id keys v.distinct,
      without-Distinct eq x.id keys v.distinct,
    );
    below = (under x e, Below-without next x.id keys v.below);
    same_size =
        let (y, f, _, _) = find_id_found eq x.key x.id keys v.distinct e in
        omega (arith, length-without eq x.id keys y f, v.same_size);
  }
    where
      under : (x : Item K V) → find_id eq x.key keys ≡ some x.id → x.id < next
      under x e =
          let (y, f, _, t) = find_id_found eq x.key x.id keys v.distinct e in
          omega (arith, t, Below-id next x.id keys y v.below f)

      same : ite (eq x.key x.key) none (find_id eq x.key keys) ≡ none
      same = ground arith

      here : (j : K) → find_id eq j keys ≡ find_id eq j (x ∷ without x.id keys)
      here j = unfold find_id in ground (arith, find_id-without eq x.key j x.id keys v.distinct e)

  -- A new node for a new key.
  pub Linked-new :
      (k : K) (val : V)
      → find_id eq k keys ≡ none
      → Linked eq ((k, next) ∷ cache) (record { id = next; key = k; val = val } ∷ keys) (suc next)
  Linked-new k val e = record {
    found = λ j. unfold find_id lookup in ground (arith, v.found j);
    unique = (v.found k ∙ e, v.unique);
    distinct = (e, by_id_above next next keys v.below (omega arith), v.distinct);
    below = (omega arith, Below-suc next keys v.below);
    same_size = ap suc v.same_size;
  }

module _ {K V : Type 0} (eq : Discrete K) where
  pub new_lru-IsValid : (m e : ℕ) (s : CacheStatus) → IsValid {V = V} eq (new_lru m e s)
  unfolding new_lru
  new_lru-IsValid m e s = record {
    found = λ k. unfold find_id lookup in refl;
    unique = tt;
    distinct = tt;
    below = tt;
    same_size = refl;
  }

  pub clear-IsValid : (c : Lru K V) → IsValid eq c → IsValid eq (clear c).0
  unfolding clear
  clear-IsValid c v = record {
    found = λ k. unfold find_id lookup in refl;
    unique = tt;
    distinct = tt;
    below = tt;
    same_size = refl;
  }

  -- One round of `prune`: the last entry goes from both containers.
  pub record Shrunk (c d : Lru K V) : Type 0 where
    pub valid : IsValid eq d
    pub one_less : suc (length d.keys) ≡ length c.keys
    pub cut : pairs d.keys ≡ take (length d.keys) (pairs c.keys)
    pub same_max : d.max_size ≡ c.max_size
    pub same_elasticity : d.elasticity ≡ c.elasticity

  dropped :
      (xs : List (Item K V))
      → Distinct eq xs
      → 0 < length xs
      → (n : ℕ) × (suc n ≡ length xs) × Dropped eq xs n
  dropped [] d h = absurd (omega arith)
  dropped (x ∷ xs) d h = (length xs, refl, back-Dropped eq x xs d)

  drop_back-Shrunk : (c : Lru K V) → IsValid eq c → 0 < length c.keys → Shrunk c (drop_back eq c)
  unfolding drop_back
  drop_back-Shrunk c v h =
      let (n, e, r) = dropped c.keys v.distinct h in
      let D : Lru K V = record c {
        called = if c.callback then c.called ++ ((r.last.key, r.last.val) ∷ []) else c.called;
        cache = erase eq r.last.key c.cache;
        keys = pop_back c.keys;
      } in
      let q : drop_back eq c ≡ D = rw (r.at_back, drop_back) in
      let len : suc (length (pop_back c.keys)) ≡ length c.keys =
        rw r.popped (length-without eq r.last.id c.keys r.last r.by_address) in
      let l : Linked eq (erase eq r.last.key c.cache) (pop_back c.keys) c.next_id =
        rw r.popped (Linked-without eq c.cache c.keys c.next_id v r.last.key r.last.id r.by_key) in
      let s : Shrunk c D = record {
        valid = l;
        one_less = len;
        cut = r.cut ∙ ap (λ (t : ℕ). take t (pairs c.keys)) (omega (arith, len, e));
        same_max = refl;
        same_elasticity = refl;
      } in
      rw q s

  -- The loop leaves the `max_size` entries that were used last, and tells how many went.
  pub record Pruned (c d : Lru K V) (count : ℕ) : Type 0 where
    pub valid : IsValid eq d
    pub kept : pairs d.keys ≡ take c.max_size (pairs c.keys)
    pub within : length d.keys ≤ c.max_size
    pub counted : length d.keys + count ≡ length c.keys
    pub same_max : d.max_size ≡ c.max_size
    pub same_elasticity : d.elasticity ≡ c.elasticity

  prune_loop-Pruned :
      (fuel : ℕ) (c : Lru K V) (count : ℕ)
      → IsValid eq c
      → length c.keys ≤ fuel
      → (d : Lru K V) × (n : ℕ) × (prune_loop eq fuel c count ≡ (d, count + n)) × Pruned c d n
  unfolding prune_loop
  prune_loop-Pruned zero c count v h = (
    c,
    0,
    ground arith,
    record {
      valid = v;
      kept =
          sym
            (take_all c.max_size (pairs c.keys) (ground (arith, length-pairs c.keys, v.same_size)));
      within = omega arith;
      counted = omega arith;
      same_max = refl;
      same_elasticity = refl;
    },
  )
  prune_loop-Pruned (suc fuel) c count v h = elim (Bool-cases (ltb c.max_size (length c.cache))) [
    | inl over ↦
        let s = drop_back-Shrunk c v (ground (arith, v.same_size)) in
        let (d, n, e, p) =
          prune_loop-Pruned fuel (drop_back eq c) (count + 1) s.valid (omega (arith, s.one_less)) in
        (
          d,
          suc n,
          rw over (e ∙ ap (λ (t : ℕ). (d, t)) (omega arith)),
          record {
            valid = p.valid;
            kept =
                p.kept
                ∙ ap (λ (t : ℕ). take t (pairs (drop_back eq c).keys)) s.same_max
                ∙ ap (take c.max_size) s.cut
                ∙ take-drop-take c.max_size 0 (length (drop_back eq c).keys) (pairs c.keys)
                    (ground (arith, s.one_less, v.same_size));
            within = omega (arith, p.within, s.same_max);
            counted = omega (arith, p.counted, s.one_less);
            same_max = p.same_max ∙ s.same_max;
            same_elasticity = p.same_elasticity ∙ s.same_elasticity;
          },
        )
    | inr fits ↦ (
      c,
      0,
      rw fits (ground arith),
      record {
        valid = v;
        kept =
            sym (
              take_all c.max_size (pairs c.keys)
                (ground (arith, length-pairs c.keys, v.same_size)));
        within = ground (arith, v.same_size);
        counted = omega arith;
        same_max = refl;
        same_elasticity = refl;
      },
    )
  ]

  -- On a valid cache `prune` does nothing below the limits, and otherwise leaves the `max_size` entries
  -- used last; it returns how many went, and keeps the invariant and the limits.
  pub prune_result :
      (c : Lru K V)
      → IsValid eq c
      → IsValid eq (prune eq c).0
        × (pairs (prune eq c).0.keys ≡ (
            if below_limits (length c.keys) c.max_size c.elasticity
            then pairs c.keys
            else take c.max_size (pairs c.keys)))
        × (length (prune eq c).0.keys + (prune eq c).1 ≡ length c.keys)
        × ((prune eq c).0.max_size ≡ c.max_size)
        × ((prune eq c).0.elasticity ≡ c.elasticity)
  unfolding prune
  prune_result c v = elim (Bool-cases (below_limits (length c.cache) c.max_size c.elasticity)) [
    | inl low ↦
        let q : prune eq c ≡ (c, 0) = rw (low, prune) in
        let low' : below_limits (length c.keys) c.max_size c.elasticity ≡ true =
          rw (sym v.same_size) low in
        rw (q, low') (v, refl, omega arith, refl, refl)
    | inr high ↦
        let (d, n, e, p) = prune_loop-Pruned (length c.cache) c 0 v (omega (arith, v.same_size)) in
        let q : prune eq c ≡ (record d { status = inc_prune (0 + n) d.status }, 0 + n) =
          rw (high, prune) (rw e) in
        let high' : below_limits (length c.keys) c.max_size c.elasticity ≡ false =
          rw (sym v.same_size) high in
        rw (q, high') (p.valid, p.kept, omega (arith, p.counted), p.same_max, p.same_elasticity)
  ]
