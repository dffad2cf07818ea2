-- ===== src/Compute/Flavors/Single.antt =====
-- How many fetches of a kind run at a time.
use rcp_server.Base.{
  ℕ, zero, suc, ◌+◌, ◌≤◌, ◌≡◌, refl, Bool, true, false, List, [], ◌∷◌, Option, none, some, arith,
  if◌then◌else◌, count, Option-cases, inl, inr,
}
use rcp_server.Compute.Flavors.{
  Flavor, Fetch, cold, refresh, FlavorCache, new_flavor_cache, start_cold, start_refresh,
  fetch_flavors, store_result, end_cold, end_refresh, take_out, end_fetch, Event, calls, ends, step,
  run,
}

abbrev pub is_cold : Fetch → Bool
is_cold (cold id) = true
is_cold refresh = false

abbrev pub is_refresh : Fetch → Bool
is_refresh (cold id) = false
is_refresh refresh = true

abbrev flag : Bool → ℕ
flag b = if b then 1 else 0

abbrev is_some : Option ℕ → Bool
is_some none = false
is_some (some id) = true

-- the flags say what runs
pub record IsSingle (s : FlavorCache) : Type 0 where
  pub colds : count is_cold s.running ≡ flag (is_some s.inflight)
  pub refreshes : count is_refresh s.running ≡ flag s.refreshing

fetch_flavors-IsSingle : (now : ℕ) (s : FlavorCache) → IsSingle s → IsSingle (fetch_flavors now s).1
unfolding fetch_flavors start_cold start_refresh
fetch_flavors-IsSingle now s v = record {
  colds = ground (arith, v.colds);
  refreshes = ground (arith, v.refreshes);
}

count-take_out :
    (p : Fetch → Bool) (i : ℕ) (fs : List Fetch) (f : Fetch)
    → (take_out i fs).0 ≡ some f
    → count p (take_out i fs).1 + flag (p f) ≡ count p fs
count-take_out p i [] f h = absurd (ground arith)
count-take_out p zero (g ∷ fs) f h = ground arith
count-take_out p (suc i) (g ∷ fs) f h = ground (arith, count-take_out p i fs f)

end_fetch-IsSingle :
    (i now : ℕ) (result : Option (List Flavor)) (s : FlavorCache)
    → IsSingle s
    → IsSingle (end_fetch i now result s)
unfolding end_fetch end_cold end_refresh store_result
end_fetch-IsSingle i now result s v = record {
  colds = elim (Option-cases (take_out i s.running).0) [
    | inl h ↦ ground (arith, v.colds)
    | inr (cold id, h) ↦ ground (arith, v.colds, count-take_out is_cold i s.running (cold id) h)
    | inr (refresh, h) ↦ ground (arith, v.colds, count-take_out is_cold i s.running refresh h)
  ];
  refreshes = elim (Option-cases (take_out i s.running).0) [
    | inl h ↦ ground (arith, v.refreshes)
    | inr (cold id, h) ↦
        ground (arith, v.refreshes, count-take_out is_refresh i s.running (cold id) h)
    | inr (refresh, h) ↦
        ground (arith, v.refreshes, count-take_out is_refresh i s.running refresh h)
  ];
}

step-IsSingle : (s : FlavorCache) (e : Event) → IsSingle s → IsSingle (step s e)
unfolding step
step-IsSingle s (calls now) v = fetch_flavors-IsSingle now s v
step-IsSingle s (ends i now result) v = end_fetch-IsSingle i now result s v

run-IsSingle : (s : FlavorCache) (es : List Event) → IsSingle s → IsSingle (run s es)
unfolding run
run-IsSingle s [] v = v
run-IsSingle s (e ∷ es) v = run-IsSingle (step s e) es (step-IsSingle s e v)

-- However many callers come, and however late the upstream answers, at most one fetch that callers
-- wait for runs at a time, and at most one in the background.
pub run-single :
    (es : List Event)
    → (count is_cold (run new_flavor_cache es).running ≤ 1)
      × (count is_refresh (run new_flavor_cache es).running ≤ 1)
unfolding new_flavor_cache
run-single es =
    let v : IsSingle (run new_flavor_cache es) =
      run-IsSingle new_flavor_cache es (record { colds = refl; refreshes = refl }) in
    (ground (arith, v.colds), ground (arith, v.refreshes))
