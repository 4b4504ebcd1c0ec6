-- ===== src/Cache/Tests.antt =====
-- The properties of the caches at small caches.
use mathlib.Core.Path.{subst}
use native.Mathlib.Decide.{ℕ_discrete}
use routn.Base.{
  [], ◌∷◌, ◌++◌, ltb, ℕ, ◌≡◌, ◌↔◌, Bool, false, none, some, Option, ap, sym, ◌==◌, length, arith,
  inr, if◌then◌else◌,
}
use routn.Cache.Hashed
use routn.Cache.Timed
use routn.Cache.Timed.Timeout.{is_odd, firsts, seconds, check_timeout-All}
use routn.Cache.Hashed.Routing
use routn.Base.Assoc.{lookup, erase}
use routn.Cache.Status.{new_status}
use routn.Cache.Lru.{Lru, new_lru, set, get, del}
use routn.Cache.Lru.Nodes.{pairs}
use routn.Cache.Lru.Invariant.{IsValid, new_lru-IsValid}
use routn.Cache.Lru.Recency.{spec_set, spec_get, set_refines, get_refines, del_refines, IsBounded}

abbrev empty : Lru ℕ ℕ
empty = new_lru 2 1 new_status

abbrev one : Lru ℕ ℕ
one = set ℕ_discrete 7 70 empty

abbrev two : Lru ℕ ℕ
two = set ℕ_discrete 8 80 one

one-IsValid : IsValid ℕ_discrete one
one-IsValid = (set_refines ℕ_discrete 7 empty (new_lru-IsValid ℕ_discrete 2 1 new_status) 70).0

two-IsValid : IsValid ℕ_discrete two
two-IsValid = (set_refines ℕ_discrete 8 one one-IsValid 80).0

empty-IsBounded : IsBounded ℕ_discrete empty
unfolding new_lru
empty-IsBounded = inr (omega arith)

set_refines_example :
    IsValid ℕ_discrete (set ℕ_discrete 9 90 two)
    × (pairs (set ℕ_discrete 9 90 two).keys
        ≡ spec_set ℕ_discrete two.max_size two.elasticity 9 90 (pairs two.keys))
set_refines_example = set_refines ℕ_discrete 9 two two-IsValid 90

get_refines_example :
    IsValid ℕ_discrete (get ℕ_discrete 7 two).0
    × (pairs (get ℕ_discrete 7 two).0.keys ≡ (spec_get ℕ_discrete 7 (pairs two.keys)).0)
    × ((get ℕ_discrete 7 two).1 ≡ (spec_get ℕ_discrete 7 (pairs two.keys)).1)
get_refines_example = get_refines ℕ_discrete 7 two two-IsValid

del_refines_example :
    IsValid ℕ_discrete (del ℕ_discrete 7 two).0
    × (pairs (del ℕ_discrete 7 two).0.keys ≡ erase ℕ_discrete 7 (pairs two.keys))
    × (((del ℕ_discrete 7 two).1 ≡ false) ↔ (lookup ℕ_discrete 7 (pairs two.keys) ≡ none))
del_refines_example = del_refines ℕ_discrete 7 two two-IsValid

-- The number itself is the hash.
abbrev identity : ℕ → ℕ
identity k = k

abbrev sharded : Hashed.HashLru ℕ ℕ
sharded = Hashed.hash_lru 4 100 10

sharded-IsValid : Routing.IsValid ℕ_discrete identity sharded
sharded-IsValid = Routing.hash_lru-IsValid ℕ_discrete identity 4 100 10 (omega arith)

abbrev after_call : {R : Type 0} → Option (Hashed.HashLru ℕ ℕ × R) → Hashed.HashLru ℕ ℕ
after_call none = sharded
after_call (some (c, _)) = c

-- The cache in which the key 7 has the value 70.
abbrev filled : Hashed.HashLru ℕ ℕ
filled = after_call (Hashed.set ℕ_discrete identity 7 70 sharded)

filled-IsValid : Routing.IsValid ℕ_discrete identity filled
filled-IsValid =
    let (c, done, valid, _, _) =
      Routing.hashed_set_result ℕ_discrete identity 7 sharded sharded-IsValid 70 in
    subst (Routing.IsValid ℕ_discrete identity) (ap after_call (sym done)) valid

hashed_del_result_example :
    (n : Hashed.HashLru ℕ ℕ) × (b : Bool) × (Hashed.del ℕ_discrete identity (λ v. v == 0) 0 7 filled
      ≡ some (n, b))
    × Routing.IsValid ℕ_discrete identity n
    × ((j : ℕ) → Routing.find ℕ_discrete identity j n ≡ Routing.find ℕ_discrete identity j filled)
hashed_del_result_example =
    Routing.hashed_del_result ℕ_discrete identity 7 filled filled-IsValid (λ v. v == 0) 0

-- Two entries, both due at 100.
abbrev due : Timed.Timed ℕ ℕ
due = record {
  cache = (1, 0) ∷ (2, 1) ∷ [];
  timed =
      record { id = 0; key = 1; val = 10; ts = 50 }
      ∷ record { id = 1; key = 2; val = 20; ts = 60 }
      ∷ [];
  next_id = 2;
  max_size = 0;
  elasticity = 0;
  callback = false;
  called = [];
  status = new_status;
}

check_timeout-All_example : Timed.check_timeout ℕ_discrete ltb 100 due ≡ (
    if is_odd due.timed
    then none
    else some (
      record due {
        called = due.called ++ Timed.calls due.callback (firsts due.timed);
        cache = Timed.erase_keys ℕ_discrete ltb (firsts due.timed) due.cache;
        timed = seconds due.timed;
      },
      length (firsts due.timed),
    ))
check_timeout-All_example =
    check_timeout-All ℕ_discrete ltb 100 due (omega arith, (omega arith, tt))
