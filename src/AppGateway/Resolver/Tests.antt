-- ===== src/AppGateway/Resolver/Tests.antt =====
-- Runs of the cached resolver.
use rcp_server.Base.{ℕ, ◌≡◌, refl, Option, none, some, List, [], ◌∷◌, Text, codes, text_eq}
use rcp_server.Table.{select, upsert}
use rcp_server.AppGateway.Resolver.{new_cached_resolver, store_answer, resolve_fixed_ipv4, run}

abbrev vm : Text
vm = codes "vm"

abbrev ip : Text
ip = codes "10.0.0.5"

abbrev failed : Option Text
failed = none

abbrev calls : List (Text × ℕ × Option Text)
calls = (vm, 10, some ip) ∷ []

-- The entry is too old, and OpenStack fails.
kept : (resolve_fixed_ipv4 vm 90 failed (run (new_cached_resolver 30) calls)).0 ≡ some ip
unfolding new_cached_resolver store_answer resolve_fixed_ipv4 run select upsert text_eq
kept = refl
