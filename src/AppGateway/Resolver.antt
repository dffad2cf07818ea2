-- ===== src/AppGateway/Resolver.antt =====
-- resolver_cache.go: addresses by instance, kept for a while, and longer where OpenStack fails.
pub mod Cache
mod Tests
use rcp_server.Base.{
  ℕ, ◌+◌, Bool, true, false, not, ◌&&◌, List, [], ◌∷◌, Option, none, some, ltb, if◌then◌else◌, Text,
}
use rcp_server.Table.{texts, select, upsert}
use rcp_server.AppGateway.Addresses.{is_empty}

pub record CacheEntry : Type 0 where
  pub ip : Text
  pub expires_at : ℕ

pub record CachedResolver : Type 0 where
  pub ttl : ℕ
  pub cache : List (Text × CacheEntry)

unfoldable pub new_cached_resolver : ℕ → CachedResolver
new_cached_resolver ttl = record { ttl = ttl; cache = [] }

-- the lookup under the read lock
abbrev pub fresh_ip : ℕ → Option CacheEntry → Option Text
fresh_ip now none = none
fresh_ip now (some entry) = if ltb now entry.expires_at then some entry.ip else none

-- what is served where the next resolver fails: an entry that is too old, if there is one
abbrev pub stale_ip : Option CacheEntry → Option Text
stale_ip none = none
stale_ip (some entry) = if is_empty entry.ip then none else some entry.ip

-- after the next resolver has answered; `entry` was read before
unfoldable pub store_answer :
    Text → ℕ → Option CacheEntry → Option Text → CachedResolver → Option Text × CachedResolver
store_answer id now entry none c = (stale_ip entry, c)
store_answer id now entry (some ip) c =
    (some ip, record c { cache = upsert id (record { ip = ip; expires_at = now + c.ttl }) c.cache })

-- ResolveFixedIPv4, with what the next resolver answers if it is asked
unfoldable pub resolve_fixed_ipv4 :
    Text → ℕ → Option Text → CachedResolver → Option Text × CachedResolver
resolve_fixed_ipv4 id now answer c = elim (fresh_ip now (select id c.cache)) [
  | some ip ↦ (some ip, c)
  | none ↦ store_answer id now (select id c.cache) answer c
]

-- a call: the instance, the time, and what the next resolver would answer
unfoldable pub run : CachedResolver → List (Text × ℕ × Option Text) → CachedResolver
unfolding resolve_fixed_ipv4
run c [] = c
run c ((id, now, answer) ∷ calls) = run (resolve_fixed_ipv4 id now answer c).1 calls
