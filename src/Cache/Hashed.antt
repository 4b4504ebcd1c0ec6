-- ===== src/Cache/Hashed.antt =====
-- src/ds/LRUCache.h, class HashLRU_Cache: LRU caches side by side, one of which a key's hash picks.
-- The caches share one status through a pointer, so that a call works on the shared status and leaves
-- it behind. `none` is an index out of the vector's range.
pub mod Routing
use routn.Base.{
  ℕ, zero, suc, ◌+◌, ◌-◌, ◌*◌, ◌/◌, ◌%◌, ◌==◌, Bool, true, false, ◌&&◌, Option, none, some, List,
  [], ◌∷◌, map, length, get_elem?, replicate,
}
use routn.Cache.Status.{CacheStatus, new_status}
use routn.Cache.Lru.{Lru, new_lru}
use routn.Cache.Lru

pub record HashLru (K V : Type 0) : Type 0 where
  pub datas : List (Lru K V)
  pub max_size : ℕ
  pub bucket : ℕ
  pub elasticity : ℕ
  pub status : CacheStatus

-- `std::ceil(v * 1.0 / bucket)`, exact below 2^53.
abbrev pub share : ℕ → ℕ → ℕ
share v bucket = (v + (bucket - 1)) / bucket

unfoldable pub update {ℓ} : {A : Type ℓ} → ℕ → A → List A → List A
update i a [] = []
update zero a (x ∷ xs) = a ∷ xs
update (suc i) a (x ∷ xs) = x ∷ update i a xs

module _ {K V : Type 0} where
  unfoldable pub hash_lru : ℕ → ℕ → ℕ → HashLru K V
  hash_lru bucket max_size elasticity = record {
    datas = replicate bucket (new_lru (share max_size bucket) (share elasticity bucket) new_status);
    max_size = share max_size bucket * bucket;
    bucket = bucket;
    elasticity = share elasticity bucket * bucket;
    status = new_status;
  }

  abbrev pub total : List (Lru K V) → ℕ
  total [] = 0
  total (d ∷ ds) = Lru.size d + total ds

  abbrev pub size : HashLru K V → ℕ
  size c = total c.datas

  abbrev pub all_empty : List (Lru K V) → Bool
  all_empty [] = true
  all_empty (d ∷ ds) = Lru.empty d && all_empty ds

  abbrev pub empty : HashLru K V → Bool
  empty c = all_empty c.datas

  unfoldable pub clear : HashLru K V → HashLru K V
  clear c = record c { datas = map (λ d. (Lru.clear d).0) c.datas }

  unfoldable pub set_max_size : ℕ → HashLru K V → HashLru K V
  set_max_size v c = record c {
    max_size = share v c.bucket * c.bucket;
    datas = map (Lru.set_max_size (share v c.bucket)) c.datas;
  }

  unfoldable pub set_elasticity : ℕ → HashLru K V → HashLru K V
  set_elasticity v c = record c {
    elasticity = share v c.bucket * c.bucket;
    datas = map (Lru.set_elasticity (share v c.bucket)) c.datas;
  }

  abbrev pub get_max_allowed_size : HashLru K V → ℕ
  get_max_allowed_size c = c.max_size + c.elasticity

module _ {K V : Type 0} (eq : Discrete K) (hash : K → ℕ) where
  -- A call on `_datas[_hash(k) % _bucket]`.
  unfoldable pub on_shard {ℓ} :
      {R : Type ℓ} → (Lru K V → Lru K V × R) → K → HashLru K V → Option (HashLru K V × R)
  on_shard f k c = elim (get_elem? c.datas (hash k % c.bucket)) [
    | none ↦ none
    | some d ↦
        let (e, r) = f (record d { status = c.status }) in
        some (record c { datas = update (hash k % c.bucket) e c.datas; status = e.status }, r)
  ]

  unfoldable pub set : K → V → HashLru K V → Option (HashLru K V × Unit {0})
  set k v c = on_shard (λ d. (Lru.set eq k v d, tt)) k c

  unfoldable pub get : K → HashLru K V → Option (HashLru K V × Option V)
  get k c = on_shard (Lru.get eq k) k c

  unfoldable pub get_or_default : V → K → HashLru K V → Option (HashLru K V × V)
  get_or_default default k c = on_shard (Lru.get_or_default eq default k) k c

  -- It calls `get`, and returns the value as a bool.
  unfoldable pub del : (V → Bool) → V → K → HashLru K V → Option (HashLru K V × Bool)
  del to_bool default k c =
      on_shard (λ d. let (e, v) = Lru.get_or_default eq default k d in (e, to_bool v)) k c

  unfoldable pub exists : K → HashLru K V → Option (HashLru K V × Bool)
  exists k c = on_shard (λ d. (d, Lru.exists eq k d)) k c
