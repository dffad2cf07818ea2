-- ===== src/AppGateway/Resolver/Cache.antt =====
-- Where an address that the cached resolver gives comes from.
use rcp_server.Base.{
  ℕ, ◌+◌, ◌≡◌, ◌<◌, sym, ◌∙◌, subst, ap, List, [], ◌∷◌, Option, none, some, arith, ltb, ltb_iff,
  Text, text_eq_iff, Option-cases, Bool-cases, inl, inr, ◌⊎◌,
}
use rcp_server.Table.{texts, select, select-upsert}
use rcp_server.AppGateway.Resolver.{
  CacheEntry, CachedResolver, new_cached_resolver, store_answer, resolve_fixed_ipv4, run,
}

-- One of the calls was about the instance, and the next resolver had the address for it at a time.
pub data Answered (id ip : Text) (time : ℕ) : List (Text × ℕ × Option Text) → Type 0 where
  first :
      {calls : List (Text × ℕ × Option Text)} → Answered id ip time ((id, time, some ip) ∷ calls)
  later :
      {c : Text × ℕ × Option Text} {calls : List (Text × ℕ × Option Text)}
      → Answered id ip time calls
      → Answered id ip time (c ∷ calls)

resolve_cases :
    (id other : Text) (now : ℕ) (answer : Option Text) (c : CachedResolver)
    → ((resolve_fixed_ipv4 other now answer c).1.ttl ≡ c.ttl)
      × ((select id (resolve_fixed_ipv4 other now answer c).1.cache ≡ select id c.cache)
          ⊎ ((ip : Text) × (other ≡ id)
              × (answer ≡ some ip)
              × (select id (resolve_fixed_ipv4 other now answer c).1.cache
                  ≡ some (record { ip = ip; expires_at = now + c.ttl }))))
unfolding resolve_fixed_ipv4 store_answer
resolve_cases id other now none c = (ground arith, inl (ground arith))
resolve_cases id other now (some ip) c = (
  ground arith,
  ground (
    arith,
    select-upsert other id (record { ip = ip; expires_at = now + c.ttl }) c.cache,
    text_eq_iff other id,
  ),
)

first_at :
    {id other ip ip' : Text} {now : ℕ} {answer : Option Text}
    (calls : List (Text × ℕ × Option Text))
    → other ≡ id
    → answer ≡ some ip
    → ip ≡ ip'
    → Answered id ip' now ((other, now, answer) ∷ calls)
first_at {id = id} {other = other} {ip = ip} {ip' = ip'} {now = now} {answer = answer} calls same
      given is =
    subst (λ x. Answered id ip' now ((x, now, answer) ∷ calls)) (sym same)
      (subst (λ a. Answered id ip' now ((id, now, a) ∷ calls)) (sym given)
        (subst (λ i. Answered id i now ((id, now, some ip) ∷ calls)) is first))

run_cases :
    (id : Text) (c : CachedResolver) (calls : List (Text × ℕ × Option Text)) (entry : CacheEntry)
    → select id (run c calls).cache ≡ some entry
    → (select id c.cache ≡ some entry)
      ⊎ ((time : ℕ) × Answered id entry.ip time calls × (entry.expires_at ≡ time + c.ttl))
unfolding run
run_cases id c [] entry h = inl h
run_cases id c ((other, now, answer) ∷ calls) entry h =
    elim (run_cases id (resolve_fixed_ipv4 other now answer c).1 calls entry h) [
      | inr (time, answered, expires) ↦ inr (
        time,
        later answered,
        expires ∙ ap (λ t. time + t) (resolve_cases id other now answer c).0,
      )
      | inl found ↦ elim (resolve_cases id other now answer c).1 [
        | inl same ↦ inl (sym same ∙ found)
        | inr (ip, is, given, stored) ↦ inr (
          now,
          first_at calls is given (ground (arith, found, stored)),
          ground (arith, found, stored),
        )
      ]
    ]

given_cases :
    (id : Text) (now : ℕ) (answer : Option Text) (c : CachedResolver) (ip : Text)
    → (resolve_fixed_ipv4 id now answer c).0 ≡ some ip
    → (answer ≡ some ip)
      ⊎ ((entry : CacheEntry) × (select id c.cache ≡ some entry)
          × (entry.ip ≡ ip)
          × ((now < entry.expires_at) ⊎ (answer ≡ none)))
unfolding resolve_fixed_ipv4 store_answer
given_cases id now answer c ip h = elim (Option-cases (select id c.cache)) [
  | inl absent ↦ elim (Option-cases answer) [
    | inl nothing ↦ absurd (ground arith)
    | inr (a, given) ↦ inl (ground arith)
  ]
  | inr (entry, here) ↦ elim (Bool-cases (ltb now entry.expires_at)) [
    | inl fresh ↦
        inr (entry, here, ground arith, inl (ground (arith, ltb_iff now entry.expires_at)))
    | inr old ↦ elim (Option-cases answer) [
      | inl nothing ↦ inr (entry, here, ground arith, inr nothing)
      | inr (a, given) ↦ inl (ground arith)
    ]
  ]
]

-- The address that ResolveFixedIPv4 gives is what the next resolver answers to the call, or what it
-- has answered for the instance to an earlier call; and an earlier answer is given where it is less
-- than the ttl old, or where the next resolver fails now.
resolve-Answered :
    (ttl : ℕ) (calls : List (Text × ℕ × Option Text)) (id : Text) (now : ℕ) (answer : Option Text)
    (ip : Text)
    → (resolve_fixed_ipv4 id now answer (run (new_cached_resolver ttl) calls)).0 ≡ some ip
    → (answer ≡ some ip)
      ⊎ ((time : ℕ) × Answered id ip time calls × ((now < time + ttl) ⊎ (answer ≡ none)))
unfolding new_cached_resolver select
resolve-Answered ttl calls id now answer ip h =
    elim (given_cases id now answer (run (new_cached_resolver ttl) calls) ip h) [
      | inl given ↦ inl given
      | inr (entry, here, is, why) ↦
          elim (run_cases id (new_cached_resolver ttl) calls entry here) [
            | inl found ↦ absurd (ground arith)
            | inr (time, answered, expires) ↦ inr (
              time,
              subst (λ i. Answered id i time calls) is answered,
              ground (arith, why, expires),
            )
          ]
    ]
