-- ===== src/Cache/Lru/Recency.antt =====
-- An LRU cache against a plain list of entries in order of use.
use mathlib.Core.Path.{subst}
use routn.Base.{
  ℕ, zero, suc, ◌+◌, ◌-◌, ◌<◌, ◌≤◌, max, min, ◌≡◌, ◌↔◌, refl, ap, ◌∙◌, sym, Bool, leb, true, false,
  Option, none, some, List, ◌∷◌, length, take, if◌then◌else◌, arith, inl, inr, ◌⊎◌, Option-cases,
  Bool-cases, length-take,
}
use routn.Base.Assoc.{lookup, erase}
use routn.Cache.Lru.{
  Item, Lru, by_id, without, assign, splice_front, prune, set, get, del, below_limits,
}
use routn.Cache.Lru.Nodes.{
  find_id, find_id_found, find_id-none, lookup-pairs, pairs-without, erase-pairs_missing,
  without-assign, by_id-assign, pairs, length-pairs,
}
use routn.Cache.Lru.Invariant.{
  Linked, IsValid, Linked-without, Linked-front, Linked-new, prune_result,
}
use routn.Cache.Status.{inc_set}

below_limits_cases : (n m e : ℕ) → below_limits n m e ≡ true → (m ≡ 0) ⊎ (n < m + e)
below_limits_cases n zero e h = inl refl
below_limits_cases n (suc m) e h = inr (ground arith)

-- A cache without a greatest size takes any number of entries, another one fewer than that size and the
-- elasticity together.
abbrev pub has_room : ℕ → ℕ → ℕ → Bool
has_room n zero elasticity = true
has_room n (suc max_size) elasticity = leb n (max_size + elasticity)

has_room-below_limits :
    (n max_size elasticity : ℕ)
    → has_room n max_size elasticity ≡ below_limits n max_size elasticity
has_room-below_limits n zero elasticity = refl
has_room-below_limits n (suc max_size) elasticity = ground arith

module _ {K V : Type 0} (eq : Discrete K) where
  -- The three operations on the list alone.
  unfoldable pub spec_set : ℕ → ℕ → K → V → List (K × V) → List (K × V)
  spec_set max_size elasticity k v l = elim (lookup eq k l) [
    | some old ↦ (k, v) ∷ erase eq k l
    | none ↦
        if has_room (suc (length l)) max_size elasticity
        then (k, v) ∷ l
        else take max_size ((k, v) ∷ l)
  ]

  unfoldable pub spec_get : K → List (K × V) → List (K × V) × Option V
  spec_get k l = elim (lookup eq k l) [
    | some v ↦ ((k, v) ∷ erase eq k l, some v)
    | none ↦ (l, none)
  ]

  module _ (k : K) (c : Lru K V) (valid : IsValid eq c) where
    module _ (it : ℕ) (e : lookup eq k c.cache ≡ some it) where
      at : find_id eq k c.keys ≡ some it
      at = sym (valid.found k) ∙ e

      node : (x : Item K V) × (by_id it c.keys ≡ some x) × (x.key ≡ k) × (x.id ≡ it)
      node = find_id_found eq k it c.keys valid.distinct at

      set_hit :
          (v : V)
          → IsValid eq (set eq k v c)
            × (pairs (set eq k v c).keys ≡ (k, v) ∷ erase eq k (pairs c.keys))
      unfolding set splice_front
      set_hit v =
          let (x, f, s, t) = node in
          let y : Item K V = record { id = it; key = k; val = v } in
          let same : record x { val = v } ≡ y = λ i. record { id = t i; key = s i; val = v } in
          let front : splice_front it (assign it v c.keys) ≡ y ∷ without it c.keys =
            rw (by_id-assign it v c.keys x f ∙ ap some same, splice_front)
              (ap (◌∷◌ y) (without-assign it v c.keys)) in
          rw (e, set, front)
            (
              Linked-front eq c.cache c.keys c.next_id valid y at,
              unfold pairs in ap (◌∷◌ (k, v)) (pairs-without eq k it c.keys valid.distinct at),
            )

      get_hit :
          (v : V)
          → lookup eq k (pairs c.keys) ≡ some v
          → IsValid eq (get eq k c).0
            × (pairs (get eq k c).0.keys ≡ (k, v) ∷ erase eq k (pairs c.keys))
            × ((get eq k c).1 ≡ some v)
      unfolding get splice_front
      get_hit v there =
          let (x, f, s, t) = node in
          let value : some x.val ≡ some v =
            sym (lookup-pairs eq k it c.keys x valid.distinct at f) ∙ there in
          let front : splice_front it c.keys ≡ x ∷ without it c.keys = rw (f, splice_front) in
          let again : by_id it (x ∷ without it c.keys) ≡ some x = unfold by_id in ground arith in
          let linked : Linked eq c.cache (x ∷ without it c.keys) c.next_id =
            subst (λ (i : ℕ). Linked eq c.cache (x ∷ without i c.keys) c.next_id) t
              (Linked-front eq c.cache c.keys c.next_id valid x (ground (arith, at))) in
          let entry : pairs (x ∷ without it c.keys) ≡ (k, v) ∷ erase eq k (pairs c.keys) =
            unfold pairs in ground (arith, pairs-without eq k it c.keys valid.distinct at) in
          rw (e, get, front, again, front) (linked, entry, value)

      del_hit :
          IsValid eq (del eq k c).0
          × (pairs (del eq k c).0.keys ≡ erase eq k (pairs c.keys))
          × ((del eq k c).1 ≡ true)
      unfolding del
      del_hit =
          rw (e, del)
            (
              Linked-without eq c.cache c.keys c.next_id valid k it at,
              pairs-without eq k it c.keys valid.distinct at,
              refl,
            )

    module _ (e : lookup eq k c.cache ≡ none) where
      gone : find_id eq k c.keys ≡ none
      gone = sym (valid.found k) ∙ e

      set_miss :
          (v : V)
          → IsValid eq (set eq k v c)
            × (pairs (set eq k v c).keys ≡ (
                if below_limits (suc (length (pairs c.keys))) c.max_size c.elasticity
                then (k, v) ∷ pairs c.keys
                else take c.max_size ((k, v) ∷ pairs c.keys)))
      unfolding set
      set_miss v =
          let d : Lru K V = record c {
            status = inc_set 1 c.status;
            keys = record { id = c.next_id; key = k; val = v } ∷ c.keys;
            cache = (k, c.next_id) ∷ c.cache;
            next_id = suc c.next_id;
          } in
          let (w, p, _, _, _) =
            prune_result eq d (Linked-new eq c.cache c.keys c.next_id valid k v gone) in
          rw (e, set, length-pairs c.keys) (w, unfold pairs in p)

    -- On a valid cache `set` keeps the invariant and does to the entries in order of use what `spec_set`
    -- does to a list: the key's entry goes to the front with the new value, and a new key may push out
    -- the entries used longest ago.
    pub set_refines :
        (v : V)
        → IsValid eq (set eq k v c)
          × (pairs (set eq k v c).keys ≡ spec_set c.max_size c.elasticity k v (pairs c.keys))
    unfolding spec_set
    set_refines v = elim (Option-cases (lookup eq k c.cache)) [
      | inl e ↦
          let room = has_room-below_limits (suc (length (pairs c.keys))) c.max_size c.elasticity in
          rw (find_id-none eq k c.keys (gone e), spec_set, room) (set_miss e v)
      | inr (it, e) ↦
          let (x, f, _, _) = node it e in
          rw (lookup-pairs eq k it c.keys x valid.distinct (at it e) f, spec_set) (set_hit it e v)
    ]

    -- On a valid cache `get` keeps the invariant, moves the key's entry to the front and returns its
    -- value, or none where the key is missing.
    pub get_refines :
        IsValid eq (get eq k c).0
        × (pairs (get eq k c).0.keys ≡ (spec_get k (pairs c.keys)).0)
        × ((get eq k c).1 ≡ (spec_get k (pairs c.keys)).1)
    unfolding spec_get
    get_refines = elim (Option-cases (lookup eq k c.cache)) [
      | inl e ↦
          rw (find_id-none eq k c.keys (gone e), spec_get)
            (unfold get in rw (e, get) (valid, refl, refl))
      | inr (it, e) ↦
          let (x, f, _, _) = node it e in
          let there = lookup-pairs eq k it c.keys x valid.distinct (at it e) f in
          rw (there, spec_get) (get_hit it e x.val there)
    ]

    -- On a valid cache `del` keeps the invariant, takes out the key's entry and no other, and returns
    -- false exactly where there is none.
    pub del_refines :
        IsValid eq (del eq k c).0
        × (pairs (del eq k c).0.keys ≡ erase eq k (pairs c.keys))
        × (((del eq k c).1 ≡ false) ↔ (lookup eq k (pairs c.keys) ≡ none))
    del_refines = elim (Option-cases (lookup eq k c.cache)) [
      | inl e ↦
          let absent = find_id-none eq k c.keys (gone e) in
          let kept = erase-pairs_missing eq k c.keys (gone e) in
          unfold del in rw (e, del) (valid, sym kept, ((λ _. absent), (λ _. refl)))
      | inr (it, e) ↦
          let (x, f, _, _) = node it e in
          let there = lookup-pairs eq k it c.keys x valid.distinct (at it e) f in
          let (w, p, r) = del_hit it e in (w, p, ((λ h. cc), (λ h. cc)))
    ]

  -- How many entries there can be: nobody counts without a limit; else `prune` strikes at the limit
  -- with elasticity, so that fewer stay, or as many as the plain limit.
  abbrev pub IsBounded : Lru K V → Type 0
  IsBounded c = (c.max_size ≡ 0) ⊎ (length c.keys ≤ max c.max_size (c.max_size + c.elasticity - 1))

  -- On a valid cache `set` keeps the limits and the bound on the number of entries.
  pub set-IsBounded :
      (k : K) (v : V) (c : Lru K V)
      → IsValid eq c
      → IsBounded c
      → IsBounded (set eq k v c)
        × ((set eq k v c).max_size ≡ c.max_size)
        × ((set eq k v c).elasticity ≡ c.elasticity)
  set-IsBounded k v c valid b = elim (Option-cases (lookup eq k c.cache)) [
    | inr (it, e) ↦
        let (w, _) = set_hit k c valid it e v in
        let same : length (set eq k v c).cache ≡ length c.cache = unfold set in rw (e, set) refl in
        let m : (set eq k v c).max_size ≡ c.max_size = unfold set in rw (e, set) refl in
        let n : (set eq k v c).elasticity ≡ c.elasticity = unfold set in rw (e, set) refl in
        let l : length (set eq k v c).keys ≡ length c.keys =
          sym w.same_size ∙ same ∙ valid.same_size in
        (rw (m, n, l) b, m, n)
    | inl e ↦
        let d : Lru K V = record c {
          status = inc_set 1 c.status;
          keys = record { id = c.next_id; key = k; val = v } ∷ c.keys;
          cache = (k, c.next_id) ∷ c.cache;
          next_id = suc c.next_id;
        } in
        let (_, p, _, m, n) =
          prune_result eq d (Linked-new eq c.cache c.keys c.next_id valid k v (gone k c valid e)) in
        let q : set eq k v c ≡ (prune eq d).0 = unfold set in rw (e, set) refl in
        let l : length (prune eq d).0.keys ≡ length (pairs (prune eq d).0.keys) =
          sym (length-pairs (prune eq d).0.keys) in
        let few : (c.max_size ≡ 0)
            ⊎ (length (prune eq d).0.keys ≤ max c.max_size (c.max_size + c.elasticity - 1)) =
          elim (Bool-cases (below_limits (suc (length c.keys)) c.max_size c.elasticity)) [
            | inl low ↦
                let r : pairs (prune eq d).0.keys ≡ pairs d.keys = p ∙ rw low refl in
                let t : length (prune eq d).0.keys ≡ suc (length c.keys) =
                  l ∙ ap length r ∙ length-pairs d.keys in
                elim (below_limits_cases (suc (length c.keys)) c.max_size c.elasticity low) [
                  | inl free ↦ inl free
                  | inr under ↦ inr (omega arith)
                ]
            | inr high ↦
                let r : pairs (prune eq d).0.keys ≡ take c.max_size (pairs d.keys) =
                  p ∙ rw high refl in
                let t : length (prune eq d).0.keys ≡ min c.max_size (length (pairs d.keys)) =
                  l ∙ ap length r ∙ length-take c.max_size (pairs d.keys) in
                inr (omega arith)
          ] in
        rw (q, m, n) (few, refl, refl)
  ]
