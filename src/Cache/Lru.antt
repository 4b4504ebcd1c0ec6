-- ===== src/Cache/Lru.antt =====
-- src/ds/LRUCache.h, class LRU_Cache: a hash map from keys to nodes of a linked list that is in
-- order of use. A node has a number, its address; the map's iterators are these numbers. A call runs
-- under the cache's lock from its first access to the two containers to its last.
pub mod Nodes
pub mod Invariant
pub mod Recency
use mathlib.Core.Logic.{ite}
use routn.Base.{
  ℕ, zero, suc, ◌+◌, Bool, true, false, Option, none, some, List, [], ◌∷◌, ◌++◌, length, ltb, ◌==◌,
  ◌||◌, if◌then◌else◌,
}
use routn.Base.Assoc.{lookup, erase}
use routn.Cache.Status.{CacheStatus, inc_get, inc_set, inc_del, inc_hit, inc_prune}

pub record Item (K V : Type 0) : Type 0 where
  pub id : ℕ
  pub key : K
  pub val : V

-- `called` lists the arguments of the calls of the prune callback so far.
pub record Lru (K V : Type 0) : Type 0 where
  pub cache : List (K × ℕ)
  pub keys : List (Item K V)
  pub next_id : ℕ
  pub max_size : ℕ
  pub elasticity : ℕ
  pub callback : Bool
  pub called : List (K × V)
  pub status : CacheStatus

module _ {K V : Type 0} where
  -- The node that an iterator points at, the list without it, and a write through the iterator.
  unfoldable pub by_id : ℕ → List (Item K V) → Option (Item K V)
  by_id i [] = none
  by_id i (x ∷ xs) = if x.id == i then some x else by_id i xs

  unfoldable pub without : ℕ → List (Item K V) → List (Item K V)
  without i [] = []
  without i (x ∷ xs) = if x.id == i then xs else x ∷ without i xs

  unfoldable pub assign : ℕ → V → List (Item K V) → List (Item K V)
  assign i v [] = []
  assign i v (x ∷ xs) = if x.id == i then record x { val = v } ∷ xs else x ∷ assign i v xs

  -- `_keys.splice(_keys.begin(), _keys, it)`
  unfoldable pub splice_front : ℕ → List (Item K V) → List (Item K V)
  splice_front i xs = elim (by_id i xs) [ none ↦ xs | some x ↦ x ∷ without i xs ]

  unfoldable pub back : List (Item K V) → Option (Item K V)
  back [] = none
  back (x ∷ []) = some x
  back (x ∷ y ∷ xs) = back (y ∷ xs)

  unfoldable pub pop_back : List (Item K V) → List (Item K V)
  pop_back [] = []
  pop_back (x ∷ []) = []
  pop_back (x ∷ y ∷ xs) = x ∷ pop_back (y ∷ xs)

  abbrev pub get_max_allowed_size : Lru K V → ℕ
  get_max_allowed_size c = c.max_size + c.elasticity

  unfoldable pub new_lru : ℕ → ℕ → CacheStatus → Lru K V
  new_lru max_size elasticity status = record {
    cache = [];
    keys = [];
    next_id = 0;
    max_size = max_size;
    elasticity = elasticity;
    callback = false;
    called = [];
    status = status;
  }

  abbrev pub size : Lru K V → ℕ
  size c = length c.cache

  abbrev pub empty : Lru K V → Bool
  empty c = length c.cache == 0

  unfoldable pub clear : Lru K V → Lru K V × Bool
  clear c = (record c { cache = []; keys = [] }, true)

  abbrev pub set_max_size : ℕ → Lru K V → Lru K V
  set_max_size v c = record c { max_size = v }

  abbrev pub set_elasticity : ℕ → Lru K V → Lru K V
  set_elasticity v c = record c { elasticity = v }

-- `_maxSize == 0 || _cache.size() < getMaxAllowedSize()`
abbrev pub below_limits : ℕ → ℕ → ℕ → Bool
below_limits n max_size elasticity = max_size == 0 || ltb n (max_size + elasticity)

module _ {K V : Type 0} (eq : Discrete K) where
  -- One round of the loop of `prune`. The list is not empty where it runs.
  unfoldable pub drop_back : Lru K V → Lru K V
  drop_back c = elim (back c.keys) [
    | none ↦ c
    | some x ↦ record c {
      called = if c.callback then c.called ++ ((x.key, x.val) ∷ []) else c.called;
      cache = erase eq x.key c.cache;
      keys = pop_back c.keys;
    }
  ]

  -- `while(_cache.size() > _maxSize)`, with the number of rounds.
  unfoldable pub prune_loop : ℕ → Lru K V → ℕ → Lru K V × ℕ
  prune_loop zero c count = (c, count)
  prune_loop (suc fuel) c count =
      let more = prune_loop fuel (drop_back c) (count + 1) in
      if ltb c.max_size (length c.cache) then more else (c, count)

  -- Each round takes an entry out, so that the map's size bounds the rounds.
  unfoldable pub prune : Lru K V → Lru K V × ℕ
  prune c =
      if below_limits (length c.cache) c.max_size c.elasticity
      then (c, 0)
      else (let (d, count) = prune_loop (length c.cache) c 0 in
          (record d { status = inc_prune count d.status }, count))

  unfoldable pub set : K → V → Lru K V → Lru K V
  set k v c = elim (lookup eq k c.cache) [
    | some it ↦ record c {
      status = inc_set 1 c.status;
      keys = splice_front it (assign it v c.keys);
    }
    | none ↦
        (prune (record c {
          status = inc_set 1 c.status;
          keys = record { id = c.next_id; key = k; val = v } ∷ c.keys;
          cache = (k, c.next_id) ∷ c.cache;
          next_id = suc c.next_id;
        })).0
  ]

  -- `get(k, v)`: `none` is `false`, `some v` is `true` with the value in `v`.
  unfoldable pub get : K → Lru K V → Lru K V × Option V
  get k c = elim (lookup eq k c.cache) [
    | some it ↦
        let keys' = splice_front it c.keys in
        elim (by_id it keys') [
          | some x ↦
              (record c { status = inc_hit 1 (inc_get 1 c.status); keys = keys' }, some x.val)
          | none ↦ (record c { status = inc_get 1 c.status; keys = keys' }, none)
        ]
    | none ↦ (record c { status = inc_get 1 c.status }, none)
  ]

  -- The overload that returns `V()` on a miss.
  unfoldable pub get_or_default : V → K → Lru K V → Lru K V × V
  get_or_default default k c = let (d, r) = get k c in (d, elim r [ none ↦ default | some v ↦ v ])

  unfoldable pub del : K → Lru K V → Lru K V × Bool
  del k c = elim (lookup eq k c.cache) [
    | none ↦ (record c { status = inc_del 1 c.status }, false)
    | some it ↦ (
      record c {
        status = inc_del 1 c.status;
        keys = without it c.keys;
        cache = erase eq k c.cache;
      },
      true,
    )
  ]

  unfoldable pub exists : K → Lru K V → Bool
  exists k c = elim (lookup eq k c.cache) [ none ↦ false | some it ↦ true ]
