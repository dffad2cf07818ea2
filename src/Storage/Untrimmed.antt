-- ===== src/Storage/Untrimmed.antt =====
-- DeleteContainer with white space around the name: Swift's container goes, and its row stays.
use rcp_server.Base.{
  ℕ, ◌≡◌, refl, false, not, List, [], ◌∷◌, none, some, Text, any, find, keep, arith, ap, ◌∙◌,
}
use rcp_server.Stdlib.Strings.{trim_space}
use rcp_server.Effects.{ok, err}
use rcp_server.Storage.{
  container_already_exists, Container, Rows, SwiftCall, deletes, lists, SwiftReply, failed_or_lost,
  World, is_named, find_by_name, resolve_container, delete_row, delete_container, create_container,
}
use rcp_server.Storage.Containers.{IsEmpty}

-- no row of the owner has the name as it was given
abbrev pub IsUnnamed : ℕ → Text → Rows → Type 0
IsUnnamed owner raw rs = any (is_named owner raw) rs ≡ false

-- a database that answers, and Swift with its coming replies and its calls
abbrev pub site : Rows → List SwiftReply → List (SwiftCall × SwiftReply) → World
site rs replies calls = record {
  stored = record { rows = rs; faults = [] };
  remote = record { replies = replies; calls = calls };
}

module _ (owner : ℕ) (raw : Text) (rs : Rows) (id : ℕ) (c : Container)
    (named : find (is_named owner (trim_space raw)) rs ≡ some (id, c)) where
  keep-IsUnnamed :
      (qs : Rows) → IsUnnamed owner raw qs → keep (λ r. not (is_named owner raw r)) qs ≡ qs
  keep-IsUnnamed [] h = refl
  keep-IsUnnamed (r ∷ qs) h = ground (arith, keep-IsUnnamed qs)

  stranded :
      (seen r : SwiftReply) (rest : List SwiftReply) (past : List (SwiftCall × SwiftReply))
      → IsUnnamed owner raw rs
      → IsEmpty seen
      → failed_or_lost r ≡ none
      → delete_container owner raw false (site rs (seen ∷ r ∷ rest) past)
        ≡ (ok tt, site rs rest ((deletes id, r) ∷ (lists id, seen) ∷ past))
  unfolding delete_container resolve_container find_by_name delete_row
  stranded seen r rest past unnamed empty deleted =
      rw (named, empty, deleted)
        (ap (λ qs. (ok tt, site qs rest ((deletes id, r) ∷ (lists id, seen) ∷ past)))
          (keep-IsUnnamed rs unnamed))

  blocked :
      (replies : List SwiftReply) (past : List (SwiftCall × SwiftReply)) (drawn : ℕ)
      → (create_container drawn owner raw (site rs replies past)).0 ≡ err container_already_exists
  unfolding create_container find_by_name
  blocked replies past drawn = rw named refl

  -- Where the database answers, the owner has a container of the trimmed name and none of the name as
  -- it was given, as with white space around it, and Swift lists no object in it and then deletes it, or
  -- does not have it, DeleteContainer without force answers success and leaves every row. The row is then
  -- of a container that Swift does not have, and CreateContainer with that name is refused because of it.
  pub delete_container-stranded :
      (seen r : SwiftReply) (rest : List SwiftReply) (past : List (SwiftCall × SwiftReply))
      (drawn : ℕ)
      → IsUnnamed owner raw rs
      → IsEmpty seen
      → failed_or_lost r ≡ none
      → (delete_container owner raw false (site rs (seen ∷ r ∷ rest) past)
          ≡ (ok tt, site rs rest ((deletes id, r) ∷ (lists id, seen) ∷ past)))
        × ((create_container drawn owner raw
              (delete_container owner raw false (site rs (seen ∷ r ∷ rest) past)).1).0
            ≡ err container_already_exists)
  delete_container-stranded seen r rest past drawn unnamed empty deleted =
      let done = stranded seen r rest past unnamed empty deleted in
      (
        done,
        ap (λ o. (create_container drawn owner raw o.1).0) done
            ∙ blocked rest ((deletes id, r) ∷ (lists id, seen) ∷ past) drawn,
      )
