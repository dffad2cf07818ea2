-- ===== src/Storage/Containers.antt =====
-- DeleteContainer, between the rows and Swift.
use rcp_server.Base.{
  ℕ, ◌≡◌, refl, true, false, not, ◌⊎◌, inl, inr, List, [], ◌∷◌, some, Text, arith, Bool-cases,
  Option-cases, find, keep, subst, ap,
}
use rcp_server.Stdlib.Strings.{trim_space}
use rcp_server.Effects.{Result, ok, err, next_fault, continue, ◌>>=◌}
use rcp_server.Storage.{
  Error, Container, Rows, SwiftCall, deletes, lists, SwiftReply, done, listed, refused, World,
  find_by_name, is_named, failed_or_lost, resolve_container, objects_or_lost, empty_out,
  delete_remote, delete_container, delete_row, or_failed, swift_ask, list_remote,
}

abbrev pub rows : World → Rows
rows w = w.stored.rows

abbrev pub calls : World → List (SwiftCall × SwiftReply)
calls w = w.remote.calls

-- the owner's container of the name
abbrev pub Owns : ℕ → Text → ℕ → World → Type 0
Owns owner name id w = (c : Container) × (find (is_named owner name) (rows w) ≡ some (id, c))

-- there is nothing in the container, or no container
abbrev pub IsEmpty : SwiftReply → Type 0
IsEmpty r = objects_or_lost r ≡ ok []

abbrev pub LooksFirst : ℕ → SwiftReply → World → World → Type 0
LooksFirst id seen w w' =
    IsEmpty seen × ((r : SwiftReply) × (calls w' ≡ (deletes id, r) ∷ (lists id, seen) ∷ calls w))

-- the name as it was given, without white space around it to find the row
abbrev pub IsDeleted : ℕ → Text → World → Result Error (Unit {0}) × World → Type 0
IsDeleted owner raw w (ok _, w') =
    (rows w' ≡ keep (λ r. not (is_named owner raw r)) (rows w))
    × ((id : ℕ) × Owns owner (trim_space raw) id w
        × ((seen : SwiftReply) × LooksFirst id seen w w'))
IsDeleted owner raw w (err e, w') =
    (rows w' ≡ rows w)
    × ((calls w' ≡ calls w)
        ⊎ ((id : ℕ) × Owns owner (trim_space raw) id w
            × ((seen : SwiftReply) × ((calls w' ≡ (lists id, seen) ∷ calls w)
                  ⊎ LooksFirst id seen w w'))))

module _ (owner : ℕ) (raw : Text) where
  row-IsDeleted :
      (id : ℕ) (seen r : SwiftReply) (w v : World)
      → Owns owner (trim_space raw) id w
      → IsEmpty seen
      → rows v ≡ rows w
      → calls v ≡ (deletes id, r) ∷ (lists id, seen) ∷ calls w
      → IsDeleted owner raw w (delete_row owner raw v)
  unfolding delete_row
  row-IsDeleted id seen r w v owns empty same asked =
      elim (Bool-cases (next_fault v.stored.faults).0) [
        | inl fails ↦ rw fails (same, inr (id, owns, (seen, inr (empty, (r, asked)))))
        | inr answers ↦ rw answers (
          ap (λ rs. keep (λ q. not (is_named owner raw q)) rs) same,
          (id, owns, (seen, (empty, (r, asked)))),
        )
      ]

  answered-IsDeleted :
      (id : ℕ) (seen r : SwiftReply) (w v : World)
      → Owns owner (trim_space raw) id w
      → IsEmpty seen
      → rows v ≡ rows w
      → calls v ≡ (deletes id, r) ∷ (lists id, seen) ∷ calls w
      → IsDeleted owner raw w
          (continue (λ _. delete_row owner raw) (or_failed (failed_or_lost r) v))
  answered-IsDeleted id seen done w v owns empty same asked =
      row-IsDeleted id seen done w v owns empty same asked
  answered-IsDeleted id seen (listed names) w v owns empty same asked =
      row-IsDeleted id seen (listed names) w v owns empty same asked
  answered-IsDeleted id seen (refused true) w v owns empty same asked =
      row-IsDeleted id seen (refused true) w v owns empty same asked
  answered-IsDeleted id seen (refused false) w v owns empty same asked =
      (same, inr (id, owns, (seen, inr (empty, (refused false, asked)))))

  remote-IsDeleted :
      (id : ℕ) (seen : SwiftReply) (w v : World)
      → Owns owner (trim_space raw) id w
      → IsEmpty seen
      → rows v ≡ rows w
      → calls v ≡ (lists id, seen) ∷ calls w
      → IsDeleted owner raw w (delete_remote owner raw id v)
  remote-IsDeleted id seen w v owns empty same asked =
      let (r, v') = swift_ask (deletes id) v in
      answered-IsDeleted id seen r w v' owns empty same (ap (λ c. (deletes id, r) ∷ c) asked)

  emptied-IsDeleted :
      (id : ℕ) (seen : SwiftReply) (names : Result Error (List Text)) (w v : World)
      → Owns owner (trim_space raw) id w
      → objects_or_lost seen ≡ names
      → rows v ≡ rows w
      → calls v ≡ (lists id, seen) ∷ calls w
      → IsDeleted owner raw w
          (continue (λ _. delete_remote owner raw id) (continue (empty_out false id) (names, v)))
  emptied-IsDeleted id seen (ok []) w v owns is same asked =
      remote-IsDeleted id seen w v owns is same asked
  emptied-IsDeleted id seen (ok (o ∷ os)) w v owns is same asked =
      (same, inr (id, owns, (seen, inl asked)))
  emptied-IsDeleted id seen (err e) w v owns is same asked =
      (same, inr (id, owns, (seen, inl asked)))

  -- What resolving a name does: the rows and Swift stay as they were, and an identifier is that of
  -- the owner's container of the trimmed name.
  resolve_cases :
      (w : World)
      → (rows (resolve_container owner raw w).1 ≡ rows w)
        × (calls (resolve_container owner raw w).1 ≡ calls w)
        × (((e : Error) × ((resolve_container owner raw w).0 ≡ err e))
            ⊎ ((id : ℕ) × ((resolve_container owner raw w).0 ≡ ok id)
                × Owns owner (trim_space raw) id w))
  unfolding resolve_container find_by_name
  resolve_cases w = elim (Bool-cases (next_fault w.stored.faults).0) [
    | inl fails ↦ rw fails (refl, refl, inl (_, refl))
    | inr answers ↦ elim (Option-cases (find (is_named owner (trim_space raw)) w.stored.rows)) [
      | inl absent ↦ rw (answers, absent) (refl, refl, inl (_, refl))
      | inr ((id, c), there) ↦ rw (answers, there) (refl, refl, inr (id, refl, (c, refl)))
    ]
  ]

  resolved-IsDeleted :
      (found : Result Error ℕ) (w v : World)
      → (((e : Error) × (found ≡ err e))
          ⊎ ((id : ℕ) × (found ≡ ok id) × Owns owner (trim_space raw) id w))
      → rows v ≡ rows w
      → calls v ≡ calls w
      → IsDeleted owner raw w (
          continue
            (λ id.
              list_remote objects_or_lost id
              >>= empty_out false id
              >>= (λ _. delete_remote owner raw id))
            (found, v))
  resolved-IsDeleted (err e) w v is same asked = (same, inl asked)
  resolved-IsDeleted (ok id) w v (inl (e, failed)) same asked = absurd (ground arith)
  resolved-IsDeleted (ok id) w v (inr (id', is, owns)) same asked =
      let (seen, v') = swift_ask (lists id) v in
      emptied-IsDeleted id seen (objects_or_lost seen) w v'
        (subst (λ i. Owns owner (trim_space raw) i w) (ground (arith, is)) owns) refl same
        (ap (λ c. (lists id, seen) ∷ c) asked)

  -- DeleteContainer without force, however it ends: Swift is asked to delete only the container of
  -- which the owner has a row with the trimmed name, and only after it has listed it as empty or as
  -- not there. The rows change only where the call succeeds, and then those go that have the name
  -- as it was given.
  pub delete_container-IsDeleted :
      (w : World) → IsDeleted owner raw w (delete_container owner raw false w)
  unfolding delete_container
  delete_container-IsDeleted w =
      let (same, asked, found) = resolve_cases w in resolved-IsDeleted _ w _ found same asked
