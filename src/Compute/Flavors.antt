-- ===== src/Compute/Flavors.antt =====
-- The flavor cache of service.go: stale while it is revalidated, with one fetch of a kind at a time.
-- What fetchFlavors does under the mutex is one step, and the end of a fetch is another.
pub mod Single
pub mod Freshness
mod Tests
use rcp_server.Base.{
  ℕ, zero, suc, ◌+◌, ◌≡◌, Bool, true, false, List, [], ◌∷◌, Option, none, some, ltb, if◌then◌else◌,
  Text,
}

pub record Flavor : Type 0 where
  pub id : Text
  pub name : Text
  pub vcpus : ℕ
  pub ram : ℕ
  pub disk : ℕ

-- five minutes, in nanoseconds
abbrev pub flavor_cache_ttl : ℕ
flavor_cache_ttl = 300000000000

-- a call of the upstream that has not ended: the one that callers wait for, or the background one
pub data Fetch : Type 0 where
  cold : (id : ℕ) → Fetch
  refresh : Fetch

-- the flavor fields of Service, the calls of the upstream that are running, and the results that the
-- ended cold fetches left to their waiters
pub record FlavorCache : Type 0 where
  pub cache : List Flavor
  pub expire : ℕ
  pub inflight : Option ℕ
  pub refreshing : Bool
  pub next : ℕ
  pub running : List Fetch
  pub results : List (ℕ × Option (List Flavor))

unfoldable pub new_flavor_cache : FlavorCache
new_flavor_cache = record {
  cache = [];
  expire = 0;
  inflight = none;
  refreshing = false;
  next = 0;
  running = [];
  results = [];
}

-- what a caller of fetchFlavors has when it unlocks
pub data Answer : Type 0 where
  cached : List Flavor → Answer
  stale : List Flavor → Answer
  waits_for : (id : ℕ) → Answer
  fetches : (id : ℕ) → Answer

unfoldable pub start_cold : FlavorCache → Answer × FlavorCache
start_cold s = (
  fetches s.next,
  record s { inflight = some s.next; next = suc s.next; running = cold s.next ∷ s.running },
)

unfoldable pub start_refresh : FlavorCache → FlavorCache
start_refresh s =
    if s.refreshing then s else record s { refreshing = true; running = refresh ∷ s.running }

unfoldable pub fetch_flavors : ℕ → FlavorCache → Answer × FlavorCache
fetch_flavors now s = if ltb now s.expire then (cached s.cache, s) else elim s.cache [
  | f ∷ fs ↦ (stale s.cache, start_refresh s)
  | [] ↦ elim s.inflight [ some id ↦ (waits_for id, s) | none ↦ start_cold s ]
]

-- a successful result goes into the cache
unfoldable pub store_result : ℕ → Option (List Flavor) → FlavorCache → FlavorCache
store_result now none s = s
store_result now (some raw) s = record s { cache = raw; expire = now + flavor_cache_ttl }

-- the end of a cold fetch, which its waiters read
unfoldable pub end_cold : ℕ → ℕ → Option (List Flavor) → FlavorCache → FlavorCache
end_cold id now result s =
    let t = store_result now result s in
    record t { inflight = none; results = (id, result) ∷ t.results }

-- refreshFlavorsStale, once the upstream has answered
unfoldable pub end_refresh : ℕ → Option (List Flavor) → FlavorCache → FlavorCache
end_refresh now result s = let t = store_result now result s in record t { refreshing = false }

-- The upstream answers the running fetch at a place of the list.
abbrev pub take_out : ℕ → List Fetch → Option Fetch × List Fetch
take_out i [] = (none, [])
take_out zero (f ∷ fs) = (some f, fs)
take_out (suc i) (f ∷ fs) = let (taken, rest) = take_out i fs in (taken, f ∷ rest)

unfoldable pub end_fetch : ℕ → ℕ → Option (List Flavor) → FlavorCache → FlavorCache
end_fetch i now result s =
    let (taken, rest) = take_out i s.running in
    let t : FlavorCache = record s { running = rest } in
    elim taken [
      | none ↦ s
      | some (cold id) ↦ end_cold id now result t
      | some refresh ↦ end_refresh now result t
    ]

pub data Event : Type 0 where
  calls : (now : ℕ) → Event
  ends : (i now : ℕ) (result : Option (List Flavor)) → Event

unfoldable pub step : FlavorCache → Event → FlavorCache
step s (calls now) = (fetch_flavors now s).1
step s (ends i now result) = end_fetch i now result s

unfoldable pub run : FlavorCache → List Event → FlavorCache
unfolding step
run s [] = s
run s (e ∷ es) = run (step s e) es
