-- ===== src/Cache/Status.antt =====
-- src/ds/Cache.h: the counters of a cache. An int64_t counter is its bit pattern.
use routn.Base.{ℕ, ◌+◌, ◌-◌, ◌%◌, ◌^◌}

pub record CacheStatus : Type 0 where
  pub get : ℕ
  pub set : ℕ
  pub del : ℕ
  pub timeout : ℕ
  pub prune : ℕ
  pub hit : ℕ

-- Atomic::addFetch and Atomic::subFetch.
abbrev pub add_fetch : ℕ → ℕ → ℕ
add_fetch x v = (x + v) % 2 ^ 64

abbrev pub sub_fetch : ℕ → ℕ → ℕ
sub_fetch x v = (x + 2 ^ 64 - v % 2 ^ 64) % 2 ^ 64

abbrev pub new_status : CacheStatus
new_status = record { get = 0; set = 0; del = 0; timeout = 0; prune = 0; hit = 0 }

abbrev pub inc_get : ℕ → CacheStatus → CacheStatus
inc_get v s = record s { get = add_fetch s.get v }

abbrev pub inc_set : ℕ → CacheStatus → CacheStatus
inc_set v s = record s { set = add_fetch s.set v }

abbrev pub inc_del : ℕ → CacheStatus → CacheStatus
inc_del v s = record s { del = add_fetch s.del v }

abbrev pub inc_timeout : ℕ → CacheStatus → CacheStatus
inc_timeout v s = record s { timeout = add_fetch s.timeout v }

abbrev pub inc_prune : ℕ → CacheStatus → CacheStatus
inc_prune v s = record s { prune = add_fetch s.prune v }

abbrev pub inc_hit : ℕ → CacheStatus → CacheStatus
inc_hit v s = record s { hit = add_fetch s.hit v }

abbrev pub dec_get : ℕ → CacheStatus → CacheStatus
dec_get v s = record s { get = sub_fetch s.get v }

abbrev pub dec_set : ℕ → CacheStatus → CacheStatus
dec_set v s = record s { set = sub_fetch s.set v }

abbrev pub dec_del : ℕ → CacheStatus → CacheStatus
dec_del v s = record s { del = sub_fetch s.del v }

abbrev pub dec_timeout : ℕ → CacheStatus → CacheStatus
dec_timeout v s = record s { timeout = sub_fetch s.timeout v }

abbrev pub dec_prune : ℕ → CacheStatus → CacheStatus
dec_prune v s = record s { prune = sub_fetch s.prune v }

abbrev pub dec_hit : ℕ → CacheStatus → CacheStatus
dec_hit v s = record s { hit = sub_fetch s.hit v }

unfoldable pub merge : CacheStatus → CacheStatus → CacheStatus
merge s o = record {
  get = add_fetch s.get o.get;
  set = add_fetch s.set o.set;
  del = add_fetch s.del o.del;
  timeout = add_fetch s.timeout o.timeout;
  prune = add_fetch s.prune o.prune;
  hit = add_fetch s.hit o.hit;
}
