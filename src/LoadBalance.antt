-- ===== src/LoadBalance.antt =====
-- src/streams/LoadBalance.h and src/streams/LoadBalance.cpp: the choice of a connection, and the
-- statistics of a connection by seconds. `alive` says which connections are connected when a call
-- looks at them; the map's order of iteration is the association list's.
pub mod RoundRobin
pub mod Weighted
mod Tests
use routn.Base.{
  ℕ, zero, suc, ◌+◌, ◌-◌, ◌*◌, ◌%◌, ◌^◌, Bool, true, false, not, ◌&&◌, Option, none, some, List, [],
  ◌∷◌, map, length, get_elem?, replicate, ltb, leb, ◌==◌, if◌then◌else◌,
}
use routn.Base.Assoc.{lookup, erase, put}
use native.Mathlib.Decide.{ℕ_discrete}

-- uint32_t counters.
pub record HolderStats : Type 0 where
  pub used_time : ℕ
  pub total : ℕ
  pub doing : ℕ
  pub timeouts : ℕ
  pub oks : ℕ
  pub errs : ℕ

abbrev pub cleared : HolderStats
cleared = record { used_time = 0; total = 0; doing = 0; timeouts = 0; oks = 0; errs = 0 }

abbrev pub add32 : ℕ → ℕ → ℕ
add32 a b = (a + b) % 2 ^ 32

unfoldable pub add_stats : HolderStats → HolderStats → HolderStats
add_stats hs this = record {
  used_time = add32 this.used_time hs.used_time;
  total = add32 this.total hs.total;
  doing = add32 this.doing hs.doing;
  timeouts = add32 this.timeouts hs.timeouts;
  oks = add32 this.oks hs.oks;
  errs = add32 this.errs hs.errs;
}

pub record HolderStatsSet : Type 0 where
  pub last_update_time : ℕ
  pub stats : List HolderStats

abbrev pub holder_stats_set : ℕ → HolderStatsSet
holder_stats_set size = record { last_update_time = 0; stats = replicate size cleared }

unfoldable pub clear_slot : ℕ → List HolderStats → List HolderStats
clear_slot i [] = []
clear_slot zero (x ∷ xs) = cleared ∷ xs
clear_slot (suc i) (x ∷ xs) = x ∷ clear_slot i xs

-- The loop of `init`; its rounds are bounded by the number of slots.
unfoldable pub clear_loop : ℕ → ℕ → ℕ → List HolderStats → List HolderStats
clear_loop zero t now stats = stats
clear_loop (suc rounds) t now stats =
    let rest = clear_loop rounds (add32 t 1) now (clear_slot (t % length stats) stats) in
    if leb t now then rest else stats

unfoldable pub init_stats : ℕ → HolderStatsSet → HolderStatsSet
init_stats now s =
    if ltb s.last_update_time now
    then record {
      last_update_time = now;
      stats = clear_loop (length s.stats) (add32 s.last_update_time 1) now s.stats;
    }
    else s

-- `get`: the set afterwards and the slot that the reference names.
abbrev pub get_slot : ℕ → HolderStatsSet → HolderStatsSet × ℕ
get_slot now s = (init_stats now s, now % length s.stats)

unfoldable pub get_total : List HolderStats → HolderStats → HolderStats
get_total [] total = total
get_total (x ∷ xs) total = get_total xs (add_stats x total)

-- A connection, with its int32_t weight as a bit pattern.
pub record LoadBalanceItem : Type 0 where
  pub id : ℕ
  pub weight : ℕ

pub record LoadBalance : Type 0 where
  pub datas : List (ℕ × LoadBalanceItem)
  pub items : List LoadBalanceItem
  pub weights : List ℕ

abbrev pub get_by_id : ℕ → LoadBalance → Option LoadBalanceItem
get_by_id id b = lookup ℕ_discrete id b.datas

-- int64_t sums as bit patterns.
abbrev pub widen : ℕ → ℕ
widen w = if ltb w (2 ^ 31) then w else w + (2 ^ 64 - 2 ^ 32)

unfoldable pub sums : ℕ → List LoadBalanceItem → List ℕ
sums total [] = []
sums total (x ∷ xs) = let total' = (total + widen x.weight) % 2 ^ 64 in total' ∷ sums total' xs

-- `add`, `del` and `set`, where `init` is the `initNolock` of the subclass.
module _ (init : LoadBalance → LoadBalance) where
  unfoldable pub add : LoadBalanceItem → LoadBalance → LoadBalance
  add v b = init (record b { datas = put ℕ_discrete v.id v b.datas })

  unfoldable pub del : LoadBalanceItem → LoadBalance → LoadBalance
  del v b = init (record b { datas = erase ℕ_discrete v.id b.datas })

  abbrev pub put_all :
      List LoadBalanceItem → List (ℕ × LoadBalanceItem) → List (ℕ × LoadBalanceItem)
  put_all [] datas = datas
  put_all (v ∷ vs) datas = put_all vs (put ℕ_discrete v.id v datas)

  unfoldable pub set : List LoadBalanceItem → LoadBalance → LoadBalance
  set vs b = init (record b { datas = put_all vs [] })

-- `update`: the connections that go, each with what it was, and the ones that come.
unfoldable pub take_out :
    List ℕ
    → List (ℕ × LoadBalanceItem)
    → List (ℕ × LoadBalanceItem) × List (ℕ × Option LoadBalanceItem)
take_out [] datas = (datas, [])
take_out (id ∷ ids) datas =
    let (rest, gone) = take_out ids (erase ℕ_discrete id datas) in
    (rest, (id, lookup ℕ_discrete id datas) ∷ gone)

abbrev pub put_pairs :
    List (ℕ × LoadBalanceItem) → List (ℕ × LoadBalanceItem) → List (ℕ × LoadBalanceItem)
put_pairs [] datas = datas
put_pairs ((id, v) ∷ adds) datas = put_pairs adds (put ℕ_discrete id v datas)

unfoldable pub update :
    (LoadBalance → LoadBalance)
    → List (ℕ × LoadBalanceItem)
    → List ℕ
    → LoadBalance
    → LoadBalance × List (ℕ × Option LoadBalanceItem)
update init adds dels b =
    let (datas, gone) = take_out dels b.datas in
    (init (record b { datas = put_pairs adds datas }), gone)

-- `crash` is a division by zero or the failed assertion.
pub data Choice {ℓ} (A : Type ℓ) : Type ℓ where
  chosen : A → Choice A
  nothing : Choice A
  crash : Choice A

unfoldable pub upper_bound : List ℕ → ℕ → ℕ
upper_bound [] dis = 0
upper_bound (w ∷ ws) dis = if ltb dis w then 0 else suc (upper_bound ws dis)

abbrev pub last : ℕ → List ℕ → ℕ
last w [] = w
last w (x ∷ xs) = last x xs

-- `WeightLoadBalance::getIdx`
unfoldable pub get_idx : ℕ → ℕ → List ℕ → Choice ℕ
get_idx random v [] = nothing
get_idx random v (w ∷ ws) =
    let total = last w ws in
    let idx = upper_bound (w ∷ ws) ((if v == 2 ^ 64 - 1 then random else v) % total) in
    if total == 0 then crash else if idx == length (w ∷ ws) then crash else chosen idx

module _ (alive : ℕ → Bool) where
  -- `isValid` for all, and `items.push_back` of those.
  unfoldable pub valid_items : List (ℕ × LoadBalanceItem) → List LoadBalanceItem
  valid_items [] = []
  valid_items ((id, x) ∷ datas) = if alive x.id then x ∷ valid_items datas else valid_items datas

  -- `RoundRobinLoadBalance::initNolock`
  unfoldable pub init_round_robin : LoadBalance → LoadBalance
  init_round_robin b = record b { items = valid_items b.datas }

  -- `WeightLoadBalance::initNolock`
  unfoldable pub init_weighted : LoadBalance → LoadBalance
  init_weighted b = record b { items = valid_items b.datas; weights = sums 0 (valid_items b.datas) }

  -- The loop of both `get`s: the first connection from `start` on, round the list, that is alive.
  unfoldable pub pick : List LoadBalanceItem → ℕ → ℕ → ℕ → Option LoadBalanceItem
  pick items start i zero = none
  pick items start i (suc rounds) =
      let rest = pick items start (suc i) rounds in
      elim (get_elem? items ((start + i) % length items)) [
        | none ↦ none
        | some h ↦ if alive h.id then some h else rest
      ]

  -- `RoundRobinLoadBalance::get`. `random` is what `rand()` returns, for the default argument.
  unfoldable pub get_round_robin : ℕ → ℕ → LoadBalance → Option LoadBalanceItem
  get_round_robin random v b =
      let r = (if v == 2 ^ 64 - 1 then random else v) % length b.items in
      if length b.items == 0 then none else pick b.items r 0 (length b.items)

  -- `WeightLoadBalance::get`
  unfoldable pub get_weighted : ℕ → ℕ → LoadBalance → Choice LoadBalanceItem
  get_weighted random v b = elim (get_idx random v b.weights) [
    | chosen idx ↦ elim (pick b.items idx 0 (length b.items)) [ none ↦ nothing | some h ↦ chosen h ]
    | nothing ↦ nothing
    | crash ↦ crash
  ]
