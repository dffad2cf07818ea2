-- ===== src/Compute/Flavors/Freshness.antt =====
-- Where and when the flavors that a caller is given come from.
use rcp_server.Base.{
  ℕ, ◌+◌, ◌<◌, ◌≡◌, refl, List, [], ◌∷◌, Option, none, some, arith, ltb_iff, Option-cases, inl, inr,
  ◌⊎◌, sym, subst, ◌∙◌,
}
use rcp_server.Compute.Flavors.{
  Flavor, cold, refresh, FlavorCache, new_flavor_cache, cached, start_cold, start_refresh,
  fetch_flavors, store_result, end_cold, end_refresh, take_out, end_fetch, Event, calls, ends, step,
  run, flavor_cache_ttl,
}

-- Among the events the upstream has answered with the flavors, at the time.
pub data Answered (flavors : List Flavor) (time : ℕ) : List Event → Type 0 where
  last : {es : List Event} (i : ℕ) → Answered flavors time (ends i time (some flavors) ∷ es)
  earlier :
      {e : Event} {es : List Event} → Answered flavors time es → Answered flavors time (e ∷ es)

-- the cache is from such an answer, and expires a ttl after it
abbrev pub HasAnswer : FlavorCache → List Event → Type 0
HasAnswer s es = (time : ℕ) × Answered s.cache time es × (s.expire ≡ time + flavor_cache_ttl)

-- the cache of a state, and when it expires, are those of another
abbrev IsSame : FlavorCache → FlavorCache → Type 0
IsSame s t = (t.cache ≡ s.cache) × (t.expire ≡ s.expire)

fetch_flavors-IsSame : (now : ℕ) (s : FlavorCache) → IsSame s (fetch_flavors now s).1
unfolding fetch_flavors start_cold start_refresh
fetch_flavors-IsSame now s = (ground arith, ground arith)

end_fetch_cases :
    (i now : ℕ) (result : Option (List Flavor)) (s : FlavorCache)
    → IsSame s (end_fetch i now result s)
      ⊎ ((raw : List Flavor) × (result ≡ some raw)
          × ((end_fetch i now result s).cache ≡ raw)
          × ((end_fetch i now result s).expire ≡ now + flavor_cache_ttl))
unfolding end_fetch end_cold end_refresh store_result
end_fetch_cases i now none s = inl (ground arith, ground arith)
end_fetch_cases i now (some raw) s = elim (Option-cases (take_out i s.running).0) [
  | inl h ↦ inl (ground arith, ground arith)
  | inr (cold id, h) ↦ inr (raw, refl, ground arith, ground arith)
  | inr (refresh, h) ↦ inr (raw, refl, ground arith, ground arith)
]

step-HasAnswer :
    (s : FlavorCache) (e : Event) (es : List Event)
    → IsSame s (step s e) ⊎ HasAnswer (step s e) (e ∷ es)
unfolding step
step-HasAnswer s (calls now) es = inl (fetch_flavors-IsSame now s)
step-HasAnswer s (ends i now result) es = elim (end_fetch_cases i now result s) [
  | inl same ↦ inl same
  | inr (raw, is, cache_is, expire_is) ↦ inr (
    now,
    subst (λ c. Answered c now (ends i now result ∷ es)) (sym cache_is)
        (subst (λ r. Answered raw now (ends i now r ∷ es)) (sym is) (last i)),
    expire_is,
  )
]

run-HasAnswer : (s : FlavorCache) (es : List Event) → IsSame s (run s es) ⊎ HasAnswer (run s es) es
unfolding run
run-HasAnswer s [] = inl (refl, refl)
run-HasAnswer s (e ∷ es) = elim (run-HasAnswer (step s e) es) [
  | inr (time, answered, expire_is) ↦ inr (time, earlier answered, expire_is)
  | inl (cache_is, expire_is) ↦ elim (step-HasAnswer s e es) [
    | inl (before, expire_before) ↦ inl (cache_is ∙ before, expire_is ∙ expire_before)
    | inr (time, answered, expire_at) ↦
        inr (
          time,
          subst (λ c. Answered c time (e ∷ es)) (sym cache_is) answered,
          expire_is ∙ expire_at,
        )
  ]
]

cached_fresh :
    (now : ℕ) (s : FlavorCache) (flavors : List Flavor)
    → (fetch_flavors now s).0 ≡ cached flavors
    → (now < s.expire) × (s.cache ≡ flavors)
unfolding fetch_flavors start_cold
cached_fresh now s flavors h = (ground (arith, ltb_iff now s.expire), ground arith)

-- A caller that is given the cache as valid is given what the upstream answered with less than the
-- ttl ago.
run-Answered :
    (now : ℕ) (es : List Event) (flavors : List Flavor)
    → (fetch_flavors now (run new_flavor_cache es)).0 ≡ cached flavors
    → (time : ℕ) × Answered flavors time es × (now < time + flavor_cache_ttl)
unfolding new_flavor_cache
run-Answered now es flavors h =
    let (live, is) = cached_fresh now (run new_flavor_cache es) flavors h in
    elim (run-HasAnswer new_flavor_cache es) [
      | inl (cache_is, expire_is) ↦ absurd (ground (arith, live, expire_is))
      | inr (time, answered, expire_is) ↦
          (time, subst (λ c. Answered c time es) is answered, ground (arith, live, expire_is))
    ]
