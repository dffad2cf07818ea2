-- ===== src/Access/Consoles/Tokens.antt =====
-- What a Take of a console token gives, over a history of calls.
use rcp_server.Base.{
  ℕ, ◌+◌, ◌≤◌, ◌≡◌, refl, false, not, List, [], ◌∷◌, none, some, arith, Text, ltb_iff, keep, All,
  text_eq, text_eq_iff, Option-cases, inl, inr, ◌⊎◌, sym, ap, ◌∙◌, subst,
}
use rcp_server.Table.{texts, select, select-upsert, select-keep, passing}
use rcp_server.Access.Consoles.{
  ConsoleSession, AuthorizedKeyScope, ConsoleSessionStore, new_console_session_store, live_session,
  delete_expired, put_key, create, take_session, list_keys, dropped, delete_key, add_key, Call,
  creates, takes, lists, deletes, adds, step, run,
}
use rcp_server.Access.Consoles.Invariant.{
  IsMapped, run-IsMapped, step-IsMapped, new_console_session_store-IsMapped, take_cases,
  delete_cases, delete_expired-IsMapped,
}

-- The calls have a Create that drew the token, and the session is the one that it stored.
pub data Created (ttl : ℕ) (token : Text) (session : ConsoleSession) : List Call → Type 0 where
  now_made :
      {cs : List Call} (now later : ℕ) (draft : ConsoleSession)
      → session ≡ record draft { token = token; expires_at = now + ttl }
      → Created ttl token session (creates token now later draft ∷ cs)
  before :
      {c : Call} {cs : List Call}
      → Created ttl token session cs
      → Created ttl token session (c ∷ cs)

dropped-same :
    (scope : AuthorizedKeyScope) (keys : List (Text × ℕ)) (s : ConsoleSessionStore)
    → ((dropped scope keys s).ttl ≡ s.ttl) × ((dropped scope keys s).sessions ≡ s.sessions)
dropped-same scope [] s = (refl, refl)
dropped-same scope (k ∷ ks) s = (refl, refl)

delete_key-same :
    (instance_id username key : Text) (s : ConsoleSessionStore)
    → ((delete_key instance_id username key s).ttl ≡ s.ttl)
      × ((delete_key instance_id username key s).sessions ≡ s.sessions)
delete_key-same instance_id username key s = elim (delete_cases instance_id username key s) [
  | inl is ↦ rw is (refl, refl)
  | inr (keys, found, is) ↦ rw is (dropped-same _ _ s)
]

pub step-ttl : (s : ConsoleSessionStore) (c : Call) → (step s c).ttl ≡ s.ttl
unfolding step create take_session list_keys add_key put_key delete_expired
step-ttl s (creates token now later session) = refl
step-ttl s (takes token now) = ground arith
step-ttl s (lists instance_id username now) = refl
step-ttl s (deletes instance_id username key) = (delete_key-same instance_id username key s).0
step-ttl s (adds instance_id username key now later) = refl

module _ (token : Text) where
  -- the sweep keeps a token's session or loses it
  select-delete_expired :
      (now : ℕ) (s : ConsoleSessionStore)
      → IsMapped s
      → select token (delete_expired now s).sessions
        ≡ passing (live_session now) token (select token s.sessions)
  unfolding delete_expired
  select-delete_expired now s v = select-keep (live_session now) token s.sessions v.tokens

  select-take :
      (other : Text) (now : ℕ) (s : ConsoleSessionStore) (session : ConsoleSession)
      → IsMapped s
      → select token (take_session other now s).1.sessions ≡ some session
      → select token s.sessions ≡ some session
  select-take other now s session v = elim (take_cases other now s) [
    | inl (is, absent, nothing) ↦ rw is (λ h. ground (arith, h, select-delete_expired now s v))
    | inr is ↦ rw is (λ h. ground (
      arith,
      h,
      select-delete_expired now s v,
      select-keep (λ r. not (text_eq r.0 other)) token (delete_expired now s).sessions
          (delete_expired-IsMapped now s v).tokens,
    ))
  ]

  create_made :
      (drawn : Text) (now later : ℕ) (draft : ConsoleSession) (s : ConsoleSessionStore)
      (session : ConsoleSession)
      → IsMapped s
      → select token (create drawn now later draft s).1.sessions ≡ some session
      → (select token s.sessions ≡ some session)
        ⊎ ((drawn ≡ token) × (session ≡ record draft { token = token; expires_at = now + s.ttl }))
  unfolding create put_key
  create_made drawn now later draft s session v h = ground (
    arith,
    select-upsert drawn token (record draft { token = drawn; expires_at = now + s.ttl })
        (delete_expired later s).sessions,
    text_eq_iff drawn token,
    select-delete_expired later s v,
  )

  made_by :
      (cs : List Call) (s : ConsoleSessionStore) (c : Call) (session : ConsoleSession)
      → IsMapped s
      → select token (step s c).sessions ≡ some session
      → (select token s.sessions ≡ some session) ⊎ Created s.ttl token session (c ∷ cs)
  unfolding step list_keys add_key put_key
  made_by cs s (creates drawn now later draft) session v h =
      elim (create_made drawn now later draft s session v h) [
        | inl kept ↦ inl kept
        | inr (same, is) ↦ inr (
            subst (λ x. Created s.ttl token session (creates x now later draft ∷ cs)) (sym same)
              (now_made now later draft is))
      ]
  made_by cs s (takes other now) session v h = inl (select-take other now s session v h)
  made_by cs s (lists instance_id username now) session v h =
      inl (ground (arith, select-delete_expired now s v))
  made_by cs s (deletes instance_id username key) session v h =
      inl (sym (ap (select token) (delete_key-same instance_id username key s).1) ∙ h)
  made_by cs s (adds instance_id username key now later) session v h =
      inl (ground (arith, select-delete_expired now s v))

  made_in :
      (s : ConsoleSessionStore) (cs : List Call) (session : ConsoleSession)
      → IsMapped s
      → select token (run s cs).sessions ≡ some session
      → (select token s.sessions ≡ some session) ⊎ Created s.ttl token session cs
  unfolding run
  made_in s [] session v h = inl h
  made_in s (c ∷ cs) session v h = elim (made_in (step s c) cs session (step-IsMapped s c v) h) [
    | inl kept ↦ made_by cs s c session v kept
    | inr made ↦ inr (before (subst (λ ttl. Created ttl token session cs) (step-ttl s c) made))
  ]

  take_live :
      (now : ℕ) (s : ConsoleSessionStore) (session : ConsoleSession)
      → IsMapped s
      → (take_session token now s).0 ≡ some session
      → (select token s.sessions ≡ some session) × (now ≤ session.expires_at)
  unfolding take_session
  take_live now s session v h =
      ground (arith, select-delete_expired now s v, ltb_iff session.expires_at now)

  -- Take gives a session only to the token that a Create drew for it, and not after the session's
  -- time: the time of the Create and the store's ttl.
  pub take-Created :
      (ttl now : ℕ) (cs : List Call) (session : ConsoleSession)
      → (take_session token now (run (new_console_session_store ttl) cs)).0 ≡ some session
      → Created ttl token session cs × (now ≤ session.expires_at)
  unfolding new_console_session_store select
  take-Created ttl now cs session h =
      let v = run-IsMapped _ cs (new_console_session_store-IsMapped ttl) in
      let (found, live) = take_live now _ session v h in
      elim (made_in (new_console_session_store ttl) cs session
        (new_console_session_store-IsMapped ttl) found) [
          | inl kept ↦ absurd (ground arith)
          | inr made ↦ (made, live)
        ]

  forgotten :
      (rows : List (Text × ConsoleSession))
      → select token (keep (λ r. not (text_eq r.0 token)) rows) ≡ none
  unfolding select
  forgotten [] = refl
  forgotten ((k, session) ∷ rows) = ground (arith, forgotten rows)

  take-forgets :
      (now : ℕ) (s : ConsoleSessionStore)
      → select token (take_session token now s).1.sessions ≡ none
  take-forgets now s = elim (take_cases token now s) [
    | inl (is, absent, nothing) ↦ rw is absent
    | inr is ↦ rw is (forgotten _)
  ]

  -- the calls that do not draw the token anew
  abbrev pub IsOther : Call → Type 0
  IsOther (creates drawn now later session) = text_eq drawn token ≡ false
  IsOther c = Unit

  not_made :
      {ttl : ℕ} {session : ConsoleSession} (c : Call)
      → IsOther c
      → ¬ Created ttl token session (c ∷ [])
  not_made c o (before made) = elim made [ ]
  not_made (creates drawn now later draft) o (now_made _ _ _ is) =
      ground (arith, text_eq_iff token token)

  gone_step :
      (s : ConsoleSessionStore) (c : Call)
      → IsMapped s
      → IsOther c
      → select token s.sessions ≡ none
      → select token (step s c).sessions ≡ none
  gone_step s c v o h = elim (Option-cases (select token (step s c).sessions)) [
    | inl gone ↦ gone
    | inr (session, found) ↦ elim (made_by [] s c session v found) [
      | inl kept ↦ absurd (ground (arith, kept))
      | inr made ↦ absurd (not_made c o made)
    ]
  ]

  gone_run :
      (s : ConsoleSessionStore) (cs : List Call)
      → IsMapped s
      → All IsOther cs
      → select token s.sessions ≡ none
      → select token (run s cs).sessions ≡ none
  unfolding run
  gone_run s [] v o h = h
  gone_run s (c ∷ cs) v (o, os) h =
      gone_run (step s c) cs (step-IsMapped s c v) os (gone_step s c v o h)

  taken-IsMapped :
      (now : ℕ) (s : ConsoleSessionStore) → IsMapped s → IsMapped (take_session token now s).1
  unfolding step
  taken-IsMapped now s v = step-IsMapped s (takes token now) v

  -- A token works once: after a Take of it, as long as no Create draws it again, every Take of it
  -- gives nothing.
  take-once :
      (now later : ℕ) (s : ConsoleSessionStore) (cs : List Call)
      → IsMapped s
      → All IsOther cs
      → (take_session token later (run (take_session token now s).1 cs)).0 ≡ none
  take-once now later s cs v o =
      let w : IsMapped (take_session token now s).1 = taken-IsMapped now s v in
      let gone = gone_run (take_session token now s).1 cs w o (take-forgets now s) in
      elim (Option-cases (take_session token later (run (take_session token now s).1 cs)).0) [
        | inl nothing ↦ nothing
        | inr (session, taken) ↦
            absurd (ground (arith, gone, (take_live later _ session (run-IsMapped _ cs w) taken).0))
      ]
