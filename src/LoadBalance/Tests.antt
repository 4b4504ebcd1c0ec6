-- ===== src/LoadBalance/Tests.antt =====
-- The properties of the load balancer at three connections, the second of which is not connected.
use routn.Base.{
  ℕ, ◌%◌, ◌^◌, ◌-◌, ◌≤◌, ◌<◌, ◌≡◌, Bool, not, suc, List, [], ◌∷◌, length, take, ◌==◌, if◌then◌else◌,
  arith,
}
use routn.LoadBalance.{LoadBalanceItem, LoadBalance, get_idx, sums, chosen}
use routn.LoadBalance.Weighted.{weight_sum, get_idx_result}

abbrev first : LoadBalanceItem
first = record { id = 1; weight = 5 }

abbrev second : LoadBalanceItem
second = record { id = 2; weight = 0 }

abbrev third : LoadBalanceItem
third = record { id = 3; weight = 2 }

abbrev all : List LoadBalanceItem
all = first ∷ second ∷ third ∷ []

abbrev balance : LoadBalance
balance = record { datas = []; items = all; weights = [] }

abbrev alive : ℕ → Bool
alive id = not (id == 2)

get_idx_result_example :
    (i : ℕ) × (get_idx 0 6 (sums 0 all) ≡ chosen i)
    × (i < length all)
    × (weight_sum (take i all) ≤ (if 6 == 2 ^ 64 - 1 then 0 else 6) % weight_sum all)
    × ((if 6 == 2 ^ 64 - 1 then 0 else 6) % weight_sum all < weight_sum (take (suc i) all))
get_idx_result_example =
    get_idx_result 0 6 all (omega arith, (omega arith, (omega arith, tt))) (omega arith)
      (omega arith)
