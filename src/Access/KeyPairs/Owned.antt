-- ===== src/Access/KeyPairs/Owned.antt =====
-- Key pairs between the rows and OpenStack, and their owners.
use rcp_server.Base.{
  ℕ, ◌≡◌, refl, Bool, ◌⊎◌, inl, inr, List, ◌∷◌, Option, none, some, Text, is_empty, Bool-cases,
  Option-cases, subst, sym, ap, ◌∙◌,
}
use rcp_server.Stdlib.Strings.{trim_space}
use rcp_server.Effects.{Result, ok, err, next_fault, continue}
use rcp_server.Table.{texts, select, upsert}
use rcp_server.Access.KeyPairs.{
  Error, key_pair_operation_failed, KeyPair, Tables, CloudCall, creates, deletes, CloudReply, made,
  deleted, served, refused, World, find_by_name, save_key_pair, row_of, mine, key_pair_of,
  key_pair_from, save_or_recall, if_new, create_key_pair, cloud_ask,
}

abbrev pub tables : World → Tables
tables w = w.stored.rows

abbrev pub calls : World → List (CloudCall × CloudReply)
calls w = w.remote.calls

-- What a CreateKeyPair that failed has asked: nothing, a creation that OpenStack refused, or one that it
-- made and that was asked back at once.
abbrev pub IsUndone :
    Text → Text → List (CloudCall × CloudReply) → List (CloudCall × CloudReply) → Type 0
IsUndone name key before after =
    (after ≡ before)
    ⊎ (((r : CloudReply) × ((e : Error) × (key_pair_from r ≡ err e)
            × (after ≡ (creates name key, r) ∷ before)))
        ⊎ ((kp : KeyPair) × ((r : CloudReply) × (after
                ≡ (deletes kp.name, r) ∷ (creates name key, made kp) ∷ before))))

abbrev pub IsCreated : ℕ → Text → Text → World → Result Error KeyPair × World → Type 0
IsCreated owner name key w (ok kp, w') =
    (select kp.name (tables w).key_pairs ≡ none)
    × (tables w'
        ≡ record (tables w) { key_pairs = upsert kp.name (row_of owner kp) (tables w).key_pairs })
    × (calls w' ≡ (creates name key, made kp) ∷ calls w)
IsCreated owner name key w (err e, w') =
    (tables w' ≡ tables w) × IsUndone name key (calls w) (calls w')

save_or_recall_cases :
    (owner : ℕ) (kp : KeyPair) (w : World)
    → ((e : Error) × ((r : CloudReply) × ((save_or_recall owner kp w).0 ≡ err e)
          × (tables (save_or_recall owner kp w).1 ≡ tables w)
          × (calls (save_or_recall owner kp w).1 ≡ (deletes kp.name, r) ∷ calls w)))
      ⊎ (((save_or_recall owner kp w).0 ≡ ok kp)
          × (select kp.name (tables w).key_pairs ≡ none)
          × (tables (save_or_recall owner kp w).1 ≡ record (tables w) {
            key_pairs = upsert kp.name (row_of owner kp) (tables w).key_pairs;
          })
          × (calls (save_or_recall owner kp w).1 ≡ calls w))
unfolding save_or_recall save_key_pair
save_or_recall_cases owner kp w = elim (Bool-cases (next_fault w.stored.faults).0) [
  | inl fails ↦ rw fails (inl (_, (_, refl, refl, refl)))
  | inr answers ↦ elim (Option-cases (select kp.name w.stored.rows.key_pairs)) [
    | inl free ↦ rw (answers, free) (inr (refl, refl, refl, refl))
    | inr (row, taken) ↦ rw (answers, taken) (inl (_, (_, refl, refl, refl)))
  ]
]

-- looking for a row changes neither the rows nor what was asked
pub find_cases :
    (e : Error) (owner : ℕ) (name : Text) (w : World)
    → (tables (find_by_name e owner name w).1 ≡ tables w)
      × (calls (find_by_name e owner name w).1 ≡ calls w)
      × (((find_by_name e owner name w).0 ≡ err e)
          ⊎ ((find_by_name e owner name w).0
              ≡ ok (key_pair_of name (mine owner (select name (tables w).key_pairs)))))
unfolding find_by_name
find_cases e owner name w = elim (Bool-cases (next_fault w.stored.faults).0) [
  | inl fails ↦ rw fails (refl, refl, inl refl)
  | inr answers ↦ rw answers (refl, refl, inr refl)
]

module _ (owner : ℕ) (name key : Text) where
  saved-IsCreated :
      (kp : KeyPair) (w v : World)
      → tables v ≡ tables w
      → calls v ≡ (creates name key, made kp) ∷ calls w
      → IsCreated owner name key w (save_or_recall owner kp v)
  saved-IsCreated kp w v same asked = elim (save_or_recall_cases owner kp v) [
    | inl (e, (r, failed, kept, recalled)) ↦
        subst (λ o. IsCreated owner name key w (o, (save_or_recall owner kp v).1)) (sym failed)
          (kept ∙ same, inr (inr (kp, (r, recalled ∙ ap (λ c. (deletes kp.name, r) ∷ c) asked))))
    | inr (done, free, written, asked_only) ↦
        subst (λ o. IsCreated owner name key w (o, (save_or_recall owner kp v).1)) (sym done)
          (
            ap (λ t. select kp.name t.key_pairs) (sym same) ∙ free,
            written
                ∙ ap
                    (λ (t : Tables). record t {
                      key_pairs = upsert kp.name (row_of owner kp) t.key_pairs;
                    })
                    same,
            asked_only ∙ asked,
          )
  ]

  answered-IsCreated :
      (r : CloudReply) (w v : World)
      → tables v ≡ tables w
      → calls v ≡ (creates name key, r) ∷ calls w
      → IsCreated owner name key w (continue (save_or_recall owner) (key_pair_from r, v))
  answered-IsCreated (made kp) w v same asked = saved-IsCreated kp w v same asked
  answered-IsCreated deleted w v same asked = (same, inr (inl (_, (_, refl, asked))))
  answered-IsCreated (served inst) w v same asked = (same, inr (inl (_, (_, refl, asked))))
  answered-IsCreated (refused status) w v same asked = (same, inr (inl (_, (_, refl, asked))))

  if_new-IsCreated :
      (found : Option KeyPair) (w v : World)
      → tables v ≡ tables w
      → calls v ≡ calls w
      → IsCreated owner name key w (if_new owner name key found v)
  if_new-IsCreated (some kp) w v same asked = (same, inl asked)
  if_new-IsCreated none w v same asked =
      let (r, v') = cloud_ask (creates name key) v in
      answered-IsCreated r w v' same (ap (λ c. (creates name key, r) ∷ c) asked)

  -- the lookup has answered, or failed
  looked_up-IsCreated :
      (r : Result Error (Option KeyPair)) (w v : World)
      → tables v ≡ tables w
      → calls v ≡ calls w
      → IsCreated owner name key w (continue (if_new owner name key) (r, v))
  looked_up-IsCreated (ok found) w v same asked = if_new-IsCreated found w v same asked
  looked_up-IsCreated (err e) w v same asked = (same, inl asked)

-- However CreateKeyPair ends, the rows and OpenStack agree: on success the owner has a new row, whose name
-- no row had, of the key pair that OpenStack made, and nothing else was asked; on an error no row has
-- changed, and either nothing was asked, or OpenStack made nothing, or what it made was asked back at once.
pub create_key_pair-IsCreated :
    (parses : Text → Bool) (owner : ℕ) (raw_name raw_key : Text) (w : World)
    → IsCreated owner
        (trim_space raw_name)
        (trim_space raw_key)
        w
        (create_key_pair parses owner raw_name raw_key w)
unfolding create_key_pair
create_key_pair-IsCreated parses owner raw_name raw_key w =
    let name = trim_space raw_name in
    let key = trim_space raw_key in
    elim (Bool-cases (is_empty name)) [
      | inl unnamed ↦ rw unnamed (refl, inl refl)
      | inr named ↦ elim (Bool-cases (is_empty key)) [
        | inl keyless ↦ rw (named, keyless) (refl, inl refl)
        | inr keyed ↦ elim (Bool-cases (parses key)) [
          | inr malformed ↦ rw (named, keyed, malformed) (refl, inl refl)
          | inl formed ↦
              let (same, asked, found) = find_cases key_pair_operation_failed owner name w in
              rw (named, keyed, formed) (looked_up-IsCreated owner name key _ w _ same asked)
        ]
      ]
    ]
