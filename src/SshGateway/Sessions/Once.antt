-- ===== src/SshGateway/Sessions/Once.antt =====
-- A nonce after a Resolve of it.
use rcp_server.Base.{
  ℕ, ◌≡◌, refl, false, not, List, [], ◌∷◌, Option, none, some, arith, Text, inl, inr, text_eq, All,
}
use rcp_server.Table.{numbers, texts, select, select-upsert, select-keep-none}
use rcp_server.SshGateway.Sessions.Cases.{
  send_cases, close_cases, resolve_cases, expire_cases, wait_cases,
}
use rcp_server.SshGateway.Sessions.{
  Action, sends, closes, SessionStore, done, nonce_unknown, open_session, forget, close_channel,
  resolve, pick, without, perform, Event, opens, resolves, expires, performs, waits, step, run,
}

-- the events that do not draw the nonce anew
abbrev pub IsOther : Text → Event → Type 0
IsOther nonce (opens drawn code) = text_eq drawn nonce ≡ false
IsOther nonce e = Unit

module _ (nonce : Text) where
  select-forget :
      (other : Text) (m : List (Text × ℕ))
      → select nonce m ≡ none
      → select nonce (forget other m) ≡ none
  select-forget other m h = select-keep-none (λ r. not (text_eq r.0 other)) nonce m h

  forgotten : (m : List (Text × ℕ)) → select nonce (forget nonce m) ≡ none
  unfolding select
  forgotten [] = refl
  forgotten ((k, p) ∷ m) = ground (arith, forgotten m)

  close-select :
      (p : ℕ) (s : SessionStore)
      → select nonce s.m ≡ none
      → select nonce (close_channel p s).m ≡ none
  close-select p s h = elim (close_cases p s) [
    | inl same ↦ rw same h
    | inr (pending, here, is) ↦ rw is h
  ]

  perform-select :
      (a : Option Action) (s : SessionStore)
      → select nonce s.m ≡ none
      → select nonce (perform a s).m ≡ none
  perform-select none s h = h
  perform-select (some (closes p)) s h = close-select p s h
  perform-select (some (sends p email)) s h = elim (send_cases p email s) [
    | inl same ↦ rw same h
    | inr (pending, here, is) ↦ rw is h
  ]

  resolve-select :
      (other code email : Text) (s : SessionStore)
      → select nonce s.m ≡ none
      → select nonce (resolve other code email s).1.m ≡ none
  resolve-select other code email s h = elim (resolve_cases other code email s) [
    | inl same ↦ rw same h
    | inr (p, pending, found, here, inl (match, sent)) ↦ rw sent (select-forget other s.m h)
    | inr (p, pending, found, here, inr (inl (left, missed))) ↦ rw missed h
    | inr (p, pending, found, here, inr (inr spent)) ↦
        rw spent (close-select p _ (select-forget other s.m h))
  ]

  step-select :
      (s : SessionStore) (e : Event)
      → IsOther nonce e
      → select nonce s.m ≡ none
      → select nonce (step s e).m ≡ none
  unfolding step open_session
  step-select s (opens drawn code) o h = ground (arith, select-upsert drawn nonce s.next s.m)
  step-select s (resolves other code email) o h = resolve-select other code email s h
  step-select s (expires p) o h = elim (expire_cases p s) [
    | inl same ↦ rw same h
    | inr (pending, here, found, is) ↦ rw is (select-forget pending.nonce s.m h)
  ]
  step-select s (performs i) o h =
      perform-select (pick i s.actions) (record s { actions = without i s.actions }) h
  step-select s (waits p) o h = elim (wait_cases p s) [
    | inl same ↦ rw same h
    | inr (pending, email, here, held, is) ↦ rw is h
  ]

  run-select :
      (s : SessionStore) (es : List Event)
      → All (IsOther nonce) es
      → select nonce s.m ≡ none
      → select nonce (run s es).m ≡ none
  unfolding run
  run-select s [] o h = h
  run-select s (e ∷ es) (o, os) h = run-select (step s e) es os (step-select s e o h)

  -- A Resolve that succeeds uses the nonce up: as long as New does not draw it again, every later
  -- Resolve of it, in any interleaving, answers that the nonce is unknown and changes nothing.
  resolve-once :
      (s : SessionStore) (code email : Text) (es : List Event) (code' email' : Text)
      → (resolve nonce code email s).0 ≡ done
      → All (IsOther nonce) es
      → resolve nonce code' email' (run (resolve nonce code email s).1 es)
        ≡ (nonce_unknown, run (resolve nonce code email s).1 es)
  unfolding resolve
  resolve-once s code email es code' email' h o =
      ground (arith, run-select (resolve nonce code email s).1 es o (spent s code email h))
    where
      spent :
          (s : SessionStore) (code email : Text)
          → (resolve nonce code email s).0 ≡ done
          → select nonce (resolve nonce code email s).1.m ≡ none
      spent s code email h = elim (resolve_cases nonce code email s) [
        | inl same ↦ absurd (ground (arith, same))
        | inr (p, pending, found, here, inl (match, sent)) ↦ rw sent (forgotten s.m)
        | inr (p, pending, found, here, inr (inl (left, missed))) ↦ absurd (ground (arith, missed))
        | inr (p, pending, found, here, inr (inr spent_all)) ↦ absurd (ground (arith, spent_all))
      ]
