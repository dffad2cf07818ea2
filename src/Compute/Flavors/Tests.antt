-- ===== src/Compute/Flavors/Tests.antt =====
-- Runs of the flavor cache, and its theorems at concrete events.
use rcp_server.Base.{◌≡◌, ◌≤◌, refl, some, List, [], ◌∷◌, codes, count}
use rcp_server.Compute.Flavors.{
  Flavor, new_flavor_cache, cached, stale, waits_for, start_cold, start_refresh, fetch_flavors,
  store_result, end_cold, end_refresh, end_fetch, Event, calls, ends, step, run,
}
use rcp_server.Compute.Flavors.Single.{is_cold, is_refresh, run-single}

opened : Unit {0}
unfolding new_flavor_cache start_cold start_refresh fetch_flavors store_result end_cold end_refresh
    end_fetch step run
opened = tt

abbrev small : Flavor
small = record { id = codes "s"; name = codes "small"; vcpus = 1; ram = 512; disk = 10 }

-- Two callers on an empty cache share one fetch.
abbrev cold_start : List Event
cold_start = calls 10 ∷ calls 11 ∷ ends 0 20 (some (small ∷ [])) ∷ []

shared : (fetch_flavors 11 (run new_flavor_cache (calls 10 ∷ []))).0 ≡ waits_for 0
unfolding opened
shared = refl

valid : (fetch_flavors 300 (run new_flavor_cache cold_start)).0 ≡ cached (small ∷ [])
unfolding opened
valid = refl

revalidated : (fetch_flavors 300000000020 (run new_flavor_cache cold_start)).0 ≡ stale (small ∷ [])
unfolding opened
revalidated = refl

run-single_example :
    (count is_cold (run new_flavor_cache cold_start).running ≤ 1)
    × (count is_refresh (run new_flavor_cache cold_start).running ≤ 1)
run-single_example = run-single cold_start
