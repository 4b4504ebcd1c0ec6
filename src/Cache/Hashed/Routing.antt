-- ===== src/Cache/Hashed/Routing.antt =====
-- HashLRU_Cache of src/ds/LRUCache.h: a call works on the cache that the key's hash picks, and on no other.
use mathlib.Core.Path.{subst}
use routn.Base.{
  ℕ, zero, suc, ◌%◌, ◌<◌, ◌≡◌, refl, ap, ◌∙◌, sym, ◌==◌, ◌⊎◌, inl, inr, Bool, true, false, Option,
  none, some, List, [], ◌∷◌, length, length-replicate, replicate, get_elem?, take, All, arith,
  Option-cases, Bool-cases,
}
use native.Mathlib.Nat.{mod-lt}
use routn.Base.Assoc.{lookup, erase, lookup-erase}
use routn.Cache.Lru.{Lru}
use routn.Cache.Lru
use routn.Cache.Lru.Nodes.{pairs}
use routn.Cache.Lru.Invariant
use routn.Cache.Lru.Recency.{has_room, spec_set, spec_get, set_refines, get_refines}
use routn.Cache.Status.{new_status}
use routn.Cache.Hashed.{hash_lru, HashLru, update, on_shard, set, get, del}

module _ {ℓ} {A : Type ℓ} where
  get_elem?-lt : (xs : List A) (i : ℕ) → i < length xs → (x : A) × (get_elem? xs i ≡ some x)
  get_elem?-lt [] i h = absurd (omega arith)
  get_elem?-lt (x ∷ xs) zero h = (x, refl)
  get_elem?-lt (x ∷ xs) (suc i) h = get_elem?-lt xs i (omega arith)

  length-update : (i : ℕ) (a : A) (xs : List A) → length (update i a xs) ≡ length xs
  unfolding update
  length-update i a [] = refl
  length-update zero a (x ∷ xs) = refl
  length-update (suc i) a (x ∷ xs) = ap suc (length-update i a xs)

  get_elem?-update :
      (i : ℕ) (a : A) (xs : List A) → i < length xs → get_elem? (update i a xs) i ≡ some a
  unfolding update
  get_elem?-update i a [] h = absurd (omega arith)
  get_elem?-update zero a (x ∷ xs) h = refl
  get_elem?-update (suc i) a (x ∷ xs) h = get_elem?-update i a xs (omega arith)

  get_elem?-update_other :
      (i j : ℕ) (a : A) (xs : List A)
      → (j == i) ≡ false
      → get_elem? (update i a xs) j ≡ get_elem? xs j
  unfolding update
  get_elem?-update_other i j a [] h = refl
  get_elem?-update_other zero zero a (x ∷ xs) h = absurd (ground arith)
  get_elem?-update_other zero (suc j) a (x ∷ xs) h = refl
  get_elem?-update_other (suc i) zero a (x ∷ xs) h = refl
  get_elem?-update_other (suc i) (suc j) a (x ∷ xs) h =
      get_elem?-update_other i j a xs (ground arith)

  module _ (P : A → Type 0) where
    All-get_elem? : (xs : List A) (i : ℕ) (x : A) → All P xs → get_elem? xs i ≡ some x → P x
    All-get_elem? [] i x h e = absurd cc
    All-get_elem? (y ∷ ys) zero x (p, h) e = subst P (some-inj e) p
      where
        some-inj : {a b : A} → some a ≡ some b → a ≡ b
        some-inj q = cc
    All-get_elem? (y ∷ ys) (suc i) x (p, h) e = All-get_elem? ys i x h e

    All-update : (i : ℕ) (a : A) (xs : List A) → P a → All P xs → All P (update i a xs)
    unfolding update
    All-update i a [] p h = h
    All-update zero a (x ∷ xs) p (q, h) = (p, h)
    All-update (suc i) a (x ∷ xs) p (q, h) = (q, All-update i a xs p h)

shards_new :
    {K : Type 0} (V : Type 0) (eq : Discrete K) (n m e : ℕ)
    → All (Invariant.IsValid {V = V} eq) (replicate n (Lru.new_lru m e new_status))
shards_new V eq zero m e = tt
shards_new V eq (suc n) m e = (Invariant.new_lru-IsValid eq m e new_status, shards_new V eq n m e)

module _ {K V : Type 0} (eq : Discrete K) (hash : K → ℕ) where
  pub record IsValid (c : HashLru K V) : Type 0 where
    pub sized : length c.datas ≡ c.bucket
    pub has_bucket : 0 < c.bucket
    pub shards : All (Invariant.IsValid eq) c.datas

  -- The constructor makes a valid cache with at least one bucket.
  pub hash_lru-IsValid : (bucket m e : ℕ) → 0 < bucket → IsValid (hash_lru bucket m e)
  unfolding hash_lru
  hash_lru-IsValid bucket m e h = record {
    sized = length-replicate bucket _;
    has_bucket = h;
    shards = shards_new V eq bucket _ _;
  }

  abbrev pub index : HashLru K V → K → ℕ
  index c k = hash k % c.bucket

  abbrev held_by : K → Option (Lru K V) → Option V
  held_by k none = none
  held_by k (some d) = lookup eq k (pairs d.keys)

  -- The value that the cache holds for a key.
  unfoldable pub find : K → HashLru K V → Option V
  find k c = held_by k (get_elem? c.datas (index c k))

  record Routed {R : Type 0} (f : Lru K V → Lru K V × R) (k : K) (c : HashLru K V) : Type 0 where
    pub shard : Lru K V
    pub after : HashLru K V
    pub valid_shard : Invariant.IsValid eq shard
    pub held : find k c ≡ lookup eq k (pairs shard.keys)
    pub called : on_shard eq hash f k c ≡ some (after, (f shard).1)
    pub valid : IsValid after
    pub same :
        (j : K)
        → (index c j == index c k) ≡ true
        → (find j c ≡ lookup eq j (pairs shard.keys))
          × (find j after ≡ lookup eq j (pairs (f shard).0.keys))
    pub others : (j : K) → (index c j == index c k) ≡ false → find j after ≡ find j c

  called_lem :
      {R : Type 0} (f : Lru K V → Lru K V × R) (k : K) (c : HashLru K V) (d : Lru K V)
      → get_elem? c.datas (index c k) ≡ some d
      → (let r = f (record d { status = c.status }) in
          on_shard eq hash f k c
          ≡ some (record c { datas = update (index c k) r.0 c.datas; status = r.0.status }, r.1))
  unfolding on_shard
  called_lem f k c d e = rw (e, on_shard) refl

  routed :
      {R : Type 0} (f : Lru K V → Lru K V × R) (k : K) (c : HashLru K V)
      → IsValid c
      → ((d : Lru K V) → Invariant.IsValid eq d → Invariant.IsValid eq (f d).0)
      → Routed f k c
  unfolding find
  routed {R} f k c v keeps =
      let i : ℕ = index c k in
      let lt : i < length c.datas = rw v.sized (mod-lt (hash k) v.has_bucket) in
      let (d0, e) = get_elem?-lt c.datas i lt in
      let d : Lru K V = record d0 { status = c.status } in
      let w : Invariant.IsValid eq d0 =
        All-get_elem? (Invariant.IsValid eq) c.datas i d0 v.shards e in
      let w' : Invariant.IsValid eq (f d).0 = keeps d w in
      let n : HashLru K V = record c {
        datas = update i (f d).0 c.datas;
        status = (f d).0.status;
      } in
      record {
        shard = d;
        after = n;
        valid_shard = w;
        held = ap (held_by k) e;
        called = called_lem f k c d0 e;
        valid = record {
          sized = length-update i (f d).0 c.datas ∙ v.sized;
          has_bucket = v.has_bucket;
          shards = All-update (Invariant.IsValid eq) i (f d).0 c.datas w' v.shards;
        };
        same = λ j q.
            let q' : index c j ≡ i = ground (arith, q) in
            (
              ap (λ (t : ℕ). held_by j (get_elem? c.datas t)) q' ∙ ap (held_by j) e,
              ap (λ (t : ℕ). held_by j (get_elem? n.datas t)) q'
                  ∙ ap (held_by j) (get_elem?-update i (f d).0 c.datas lt),
            );
        others = λ j q. ap (held_by j) (get_elem?-update_other i (index c j) (f d).0 c.datas q);
      }

  module _ (k : K) (c : HashLru K V) (v : IsValid c) where
    get_keeps : (j : K) (l : List (K × V)) → lookup eq j (spec_get eq k l).0 ≡ lookup eq j l
    unfolding spec_get
    get_keeps j l = elim (Option-cases (lookup eq k l)) [
      | inl e ↦ rw (e, spec_get) refl
      | inr (x, e) ↦ rw (e, spec_get) (unfold lookup in ground (arith, lookup-erase eq k j l))
    ]

    get_value : (l : List (K × V)) → (spec_get eq k l).1 ≡ lookup eq k l
    unfolding spec_get
    get_value l = elim (Option-cases (lookup eq k l)) [
      | inl e ↦ rw (e, spec_get) refl
      | inr (x, e) ↦ rw (e, spec_get) refl
    ]

    first_here : (x : V) (l : List (K × V)) → lookup eq k ((k, x) ∷ l) ≡ some x
    unfolding lookup
    first_here x l = ground arith

    take_here :
        (n m e : ℕ) (x : V) (l : List (K × V))
        → has_room n m e ≡ false
        → lookup eq k (take m ((k, x) ∷ l)) ≡ some x
    take_here n zero e x l h = absurd cc
    take_here n (suc m) e x l h = first_here x (take m l)

    set_here : (m e : ℕ) (x : V) (l : List (K × V)) → lookup eq k (spec_set eq m e k x l) ≡ some x
    unfolding spec_set
    set_here m e x l = elim (Option-cases (lookup eq k l)) [
      | inr (y, q) ↦ rw (q, spec_set) (first_here x (erase eq k l))
      | inl q ↦ elim (Bool-cases (has_room (suc (length l)) m e)) [
        | inl low ↦ rw (q, spec_set, low) (first_here x l)
        | inr high ↦ rw (q, spec_set, high) (take_here (suc (length l)) m e x l high)
      ]
    ]

    -- On a valid cache `get` returns the value that the cache holds for the key, keeps the invariant,
    -- and leaves the value of every key as it was.
    pub hashed_get_result :
        (n : HashLru K V) × (get eq hash k c ≡ some (n, find k c))
        × IsValid n
        × ((j : K) → find j n ≡ find j c)
    unfolding get
    hashed_get_result =
        let r = routed (Lru.get eq k) k c v (λ d w. (get_refines eq k d w).0) in
        let (_, kept, value) = get_refines eq k r.shard r.valid_shard in
        (
          r.after,
          r.called
              ∙ ap (λ (t : Option V). some (r.after, t))
                  (value ∙ get_value (pairs r.shard.keys) ∙ sym r.held),
          r.valid,
          λ j. elim (Bool-cases (index c j == index c k)) [
            | inl q ↦
                (r.same j q).1
                ∙ ap (lookup eq j) kept
                ∙ get_keeps j (pairs r.shard.keys)
                ∙ sym (r.same j q).0
            | inr q ↦ r.others j q
          ],
        )

    -- On a valid cache `set` keeps the invariant, afterwards the cache holds the value for the key, and
    -- it holds what it held for every key that another shard keeps.
    pub hashed_set_result :
        (x : V)
        → (n : HashLru K V) × (set eq hash k x c ≡ some (n, tt))
          × IsValid n
          × (find k n ≡ some x)
          × ((j : K) → ((index c j == index c k) ≡ true) ⊎ (find j n ≡ find j c))
    unfolding set
    hashed_set_result x =
        let r = routed (λ d. (Lru.set eq k x d, tt)) k c v (λ d w. (set_refines eq k d w x).0) in
        let (_, done) = set_refines eq k r.shard r.valid_shard x in
        (
          r.after,
          r.called,
          r.valid,
          (r.same k (ground arith)).1 ∙ ap (lookup eq k) done ∙ set_here _ _ x (pairs r.shard.keys),
          λ j. elim (Bool-cases (index c j == index c k)) [
            | inl q ↦ inl q
            | inr q ↦ inr (r.others j q)
          ],
        )

    -- On a valid cache `del` keeps the invariant and deletes nothing: what the cache holds for any key,
    -- the given one included, it holds afterwards.
    pub hashed_del_result :
        (to_bool : V → Bool) (default : V)
        → (n : HashLru K V) × (b : Bool) × (del eq hash to_bool default k c ≡ some (n, b))
          × IsValid n
          × ((j : K) → find j n ≡ find j c)
    unfolding del
    hashed_del_result to_bool default =
        let f : Lru K V → Lru K V × Bool =
          λ d. let (e, x) = Lru.get_or_default eq default k d in (e, to_bool x) in
        let same_state : (d : Lru K V) → (f d).0 ≡ (Lru.get eq k d).0 =
          λ d. unfold Lru.get_or_default in refl in
        let r = routed f k c v (λ d w. rw (same_state d) ((get_refines eq k d w).0)) in
        let (_, kept, _) = get_refines eq k r.shard r.valid_shard in
        (
          r.after,
          (f r.shard).1,
          r.called,
          r.valid,
          λ j. elim (Bool-cases (index c j == index c k)) [
            | inl q ↦
                (r.same j q).1
                ∙ ap (λ (d : Lru K V). lookup eq j (pairs d.keys)) (same_state r.shard)
                ∙ ap (lookup eq j) kept
                ∙ get_keeps j (pairs r.shard.keys)
                ∙ sym (r.same j q).0
            | inr q ↦ r.others j q
          ],
        )
