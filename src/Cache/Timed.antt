-- ===== src/Cache/Timed.antt =====
-- src/ds/TimedCache.h, class Timed_Cache: a hash map from keys to nodes of a std::set that is in order
-- of time and key. A node has a number, its address; the map's iterators are these numbers. `less` is
-- the order of the keys, `now` the clock.
pub mod Timeout
use mathlib.Core.Logic.{ite}
use routn.Base.{
  ℕ, zero, suc, ◌+◌, ◌%◌, ◌^◌, Bool, true, false, not, ◌||◌, Option, none, some, List, [], ◌∷◌,
  ◌++◌, length, ltb, leb, ◌==◌, if◌then◌else◌,
}
use routn.Base.Assoc.{lookup, erase}
use routn.Cache.Status.{CacheStatus, inc_get, inc_set, inc_del, inc_hit, inc_prune, new_status}

pub record Item (K V : Type 0) : Type 0 where
  pub id : ℕ
  pub key : K
  pub val : V
  pub ts : ℕ

pub record Timed (K V : Type 0) : Type 0 where
  pub cache : List (K × ℕ)
  pub timed : List (Item K V)
  pub next_id : ℕ
  pub max_size : ℕ
  pub elasticity : ℕ
  pub callback : Bool
  pub called : List (K × V)
  pub status : CacheStatus

module _ {K V : Type 0} where
  -- The constructor makes a status of its own, also where one is passed.
  unfoldable pub new_timed : ℕ → ℕ → Timed K V
  new_timed max_size elasticity = record {
    cache = [];
    timed = [];
    next_id = 0;
    max_size = max_size;
    elasticity = elasticity;
    callback = false;
    called = [];
    status = new_status;
  }

  unfoldable pub node_at : ℕ → List (Item K V) → Option (Item K V)
  node_at i [] = none
  node_at i (x ∷ xs) = if x.id == i then some x else node_at i xs

  -- `_timed.erase(iterator)`
  unfoldable pub erase_at : ℕ → List (Item K V) → List (Item K V)
  erase_at i [] = []
  erase_at i (x ∷ xs) = if x.id == i then xs else x ∷ erase_at i xs

  abbrev pub size : Timed K V → ℕ
  size c = length c.cache

  unfoldable pub clear : Timed K V → Timed K V × Bool
  clear c = (record c { cache = []; timed = [] }, true)

  -- The loop of `checkTimeout`: what stays in the set, and the entries that go. It erases at `it++`
  -- and then increments once more; `none` is an increment of `end()`.
  unfoldable pub check_loop : ℕ → List (Item K V) → Option (List (Item K V) × List (Item K V))
  check_loop ts [] = some ([], [])
  check_loop ts (x ∷ []) = if leb x.ts ts then none else some (x ∷ [], [])
  check_loop ts (x ∷ y ∷ rest) =
      let more = check_loop ts rest in
      if leb x.ts ts
      then elim more [ none ↦ none | some (kept, gone) ↦ some (y ∷ kept, x ∷ gone) ]
      else some (x ∷ y ∷ rest, [])

  abbrev pub calls : Bool → List (Item K V) → List (K × V)
  calls callback [] = []
  calls callback (x ∷ xs) =
      if callback then (x.key, x.val) ∷ calls callback xs else calls callback xs

module _ {K V : Type 0} (eq : Discrete K) (less : K → K → Bool) where
  -- `Item::operator<`
  abbrev pub before : Item K V → Item K V → Bool
  before a b = if a.ts == b.ts then less a.key b.key else ltb a.ts b.ts

  -- `_timed.emplace`: the set, and the number of the node that the iterator names, an old one where
  -- an equivalent node is there.
  unfoldable pub emplace : Item K V → List (Item K V) → List (Item K V) × ℕ
  emplace a [] = (a ∷ [], a.id)
  emplace a (x ∷ xs) =
      let (rest, i) = emplace a xs in
      if before a x
      then (a ∷ x ∷ xs, a.id)
      else if before x a
      then (x ∷ rest, i)
      else (x ∷ xs, x.id)

  abbrev pub erase_keys : List (Item K V) → List (K × ℕ) → List (K × ℕ)
  erase_keys [] cache = cache
  erase_keys (x ∷ xs) cache = erase_keys xs (erase eq x.key cache)

  -- One round of the loop of `prune`, on a set that is not empty, and the loop.
  unfoldable pub drop_first : Timed K V → Timed K V
  drop_first c = elim c.timed [
    | [] ↦ c
    | x ∷ rest ↦ record c {
      called = c.called ++ calls c.callback (x ∷ []);
      cache = erase eq x.key c.cache;
      timed = rest;
    }
  ]

  unfoldable pub prune_loop : ℕ → Timed K V → ℕ → Timed K V × ℕ
  prune_loop zero c count = (c, count)
  prune_loop (suc fuel) c count =
      let more = prune_loop fuel (drop_first c) (count + 1) in
      if ltb c.max_size (length c.cache) then more else (c, count)

  -- Each round takes a node out of the set, so that the set's size bounds the rounds.
  unfoldable pub prune : Timed K V → Timed K V × ℕ
  prune c =
      if c.max_size == 0 || ltb (length c.cache) (c.max_size + c.elasticity)
      then (c, 0)
      else (let (d, count) = prune_loop (length c.timed) c 0 in
          (record d { status = inc_prune count d.status }, count))

  unfoldable pub set : K → V → ℕ → ℕ → Timed K V → Timed K V
  set k v expired now c =
      let (timed', i) =
        emplace (record { id = c.next_id; key = k; val = v; ts = (expired + now) % 2 ^ 64 })
          c.timed in
      (prune (record c {
        status = inc_set 1 c.status;
        cache = (k, i) ∷ erase eq k c.cache;
        timed = timed';
        next_id = suc c.next_id;
      })).0

  -- `none` as the value is `false`. The node of an iterator is there, or the call has no meaning: the
  -- outer `none`.
  unfoldable pub get : K → Timed K V → Option (Timed K V × Option V)
  get k c = elim (lookup eq k c.cache) [
    | none ↦ some (record c { status = inc_get 1 c.status }, none)
    | some i ↦ elim (node_at i c.timed) [
      | none ↦ none
      | some x ↦ some (record c { status = inc_hit 1 (inc_get 1 c.status) }, some x.val)
    ]
  ]

  -- `none` as the result: where the key is there, no `return` is reached.
  unfoldable pub del : K → Timed K V → Timed K V × Option Bool
  del k c = elim (lookup eq k c.cache) [
    | none ↦ (record c { status = inc_del 1 c.status }, some false)
    | some i ↦ (
      record c {
        status = inc_hit 1 (inc_del 1 c.status);
        timed = erase_at i c.timed;
        cache = erase eq k c.cache;
      },
      none,
    )
  ]

  -- `expired(k, ts)`: the node goes out of the set and comes back with the time that it had.
  unfoldable pub expired : K → ℕ → ℕ → Timed K V → Option (Timed K V × Bool)
  expired k ts now c = elim (lookup eq k c.cache) [
    | none ↦ some (c, false)
    | some i ↦ elim (node_at i c.timed) [
      | none ↦ none
      | some x ↦
          let (timed', j) = emplace (record x { id = c.next_id }) (erase_at i c.timed) in
          if x.ts == (ts + now) % 2 ^ 64
          then some (c, true)
          else some (
            record c {
              timed = timed';
              cache = (k, j) ∷ erase eq k c.cache;
              next_id = suc c.next_id;
            },
            true,
          )
    ]
  ]

  unfoldable pub exists : K → Timed K V → Bool
  exists k c = elim (lookup eq k c.cache) [ none ↦ false | some i ↦ true ]

  -- The map and the set behind `checkTimeout`, and how many entries went.
  unfoldable pub check_timeout : ℕ → Timed K V → Option (Timed K V × ℕ)
  check_timeout ts c = elim (check_loop ts c.timed) [
    | none ↦ none
    | some (kept, gone) ↦ some (
      record c {
        called = c.called ++ calls c.callback gone;
        cache = erase_keys gone c.cache;
        timed = kept;
      },
      length gone,
    )
  ]
