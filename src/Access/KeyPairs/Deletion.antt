-- ===== src/Access/KeyPairs/Deletion.antt =====
-- DeleteKeyPair, between the rows and OpenStack.
use rcp_server.Base.{
  ℕ, ◌≡◌, true, not, ◌⊎◌, inl, inr, ◌∷◌, Option, none, some, Text, arith, Bool-cases, Option-cases,
  ap, keep,
}
use rcp_server.Effects.{Result, ok, err, next_fault, continue}
use rcp_server.Table.{texts, select}
use rcp_server.Access.KeyPairs.{
  Error, key_pair_operation_failed, KeyPair, KeyPairRow, Tables, deletes, CloudReply, World, mine,
  key_pair_of, is_row, delete_by_name, is_gone, if_found, delete_key_pair, cloud_ask,
}
use rcp_server.Access.KeyPairs.Owned.{tables, calls, find_cases}

-- the owner has a row of the name
abbrev pub Owns : ℕ → Text → World → Type 0
Owns owner name w = (row : KeyPairRow) × (mine owner (select name (tables w).key_pairs) ≡ some row)

abbrev pub IsDeleted : ℕ → Text → World → Result Error (Unit {0}) × World → Type 0
IsDeleted owner name w (ok _, w') =
    Owns owner name w
    × (tables w' ≡ record (tables w) {
      key_pairs = keep (λ r. not (is_row owner name r)) (tables w).key_pairs;
    })
    × ((r : CloudReply) × (is_gone r ≡ true) × (calls w' ≡ (deletes name, r) ∷ calls w))
IsDeleted owner name w (err e, w') =
    (tables w' ≡ tables w)
    × ((calls w' ≡ calls w)
        ⊎ (Owns owner name w × ((r : CloudReply) × (calls w' ≡ (deletes name, r) ∷ calls w))))

module _ (owner : ℕ) (name : Text) where
  rows-IsDeleted :
      (w v : World) (r : CloudReply)
      → Owns owner name w
      → is_gone r ≡ true
      → tables v ≡ tables w
      → calls v ≡ (deletes name, r) ∷ calls w
      → IsDeleted owner name w (delete_by_name owner name v)
  unfolding delete_by_name
  rows-IsDeleted w v r owns gone same asked = elim (Bool-cases (next_fault v.stored.faults).0) [
    | inl fails ↦ rw fails (same, inr (owns, (r, asked)))
    | inr answers ↦ rw answers (
      owns,
      ap
          (λ (t : Tables). record t {
            key_pairs = keep (λ q. not (is_row owner name q)) t.key_pairs;
          })
          same,
      (r, gone, asked),
    )
  ]

  found-IsDeleted :
      (found : Option KeyPair) (w v : World)
      → (found ≡ none) ⊎ Owns owner name w
      → tables v ≡ tables w
      → calls v ≡ calls w
      → IsDeleted owner name w (if_found owner name found v)
  found-IsDeleted none w v owns same asked = (same, inl asked)
  found-IsDeleted (some kp) w v (inl absent) same asked = absurd (ground arith)
  found-IsDeleted (some kp) w v (inr owns) same asked =
      let (r, v') = cloud_ask (deletes name) v in
      let logged = ap (λ c. (deletes name, r) ∷ c) asked in
      elim (Bool-cases (is_gone r)) [
        | inl gone ↦ rw gone (rows-IsDeleted w v' r owns gone same logged)
        | inr kept ↦ rw kept (same, inr (owns, (r, logged)))
      ]

  looked_up-IsDeleted :
      (r : Result Error (Option KeyPair)) (e : Error) (w v : World)
      → (r ≡ err e) ⊎ (r ≡ ok (key_pair_of name (mine owner (select name (tables w).key_pairs))))
      → tables v ≡ tables w
      → calls v ≡ calls w
      → IsDeleted owner name w (continue (if_found owner name) (r, v))
  looked_up-IsDeleted (err _) e w v is same asked = (same, inl asked)
  looked_up-IsDeleted (ok found) e w v (inl failed) same asked = absurd (ground arith)
  looked_up-IsDeleted (ok found) e w v (inr is) same asked =
      found-IsDeleted found w v
        (elim (Option-cases (mine owner (select name (tables w).key_pairs))) [
          | inl absent ↦ inl (ground (arith, absent))
          | inr (row, there) ↦ inr (row, there)
        ])
        same asked

  -- However DeleteKeyPair ends: it asks OpenStack at most once, and only to delete a key pair of which the
  -- owner has a row; that row goes exactly if it succeeds, which it does only where OpenStack has deleted
  -- the key pair or does not have it, and no other row changes.
  pub delete_key_pair-IsDeleted :
      (w : World) → IsDeleted owner name w (delete_key_pair owner name w)
  unfolding delete_key_pair
  delete_key_pair-IsDeleted w =
      let (same, asked, found) = find_cases key_pair_operation_failed owner name w in
      looked_up-IsDeleted _ key_pair_operation_failed w _ found same asked
