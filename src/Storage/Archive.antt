-- ===== src/Storage/Archive.antt =====
-- ArchiveObjects of service.go: a ZIP archive of the objects of a container below a prefix. The ZIP
-- writer is a parameter: whether it takes one more entry, given those that it has, and whether it
-- can be closed.
pub mod Below
pub mod Entries
use rcp_server.Base.{
  ℕ, Bool, true, false, not, ◌&&◌, ◌||◌, List, [], ◌∷◌, ◌++◌, Option, none, some, if◌then◌else◌,
  ◌==◌, Text, text_eq, is_empty, keep, any, codes,
}
use rcp_server.Effects.{Result, ok, err, pure, fail, continue, ◌>>=◌}
use rcp_server.Functions.Order.{order_by}
use rcp_server.Storage.{
  Error, object_prefix_not_found, storage_operation_failed, World, downloads, swift, failed,
  resolve_container, list_remote, objects_of,
}

-- strings.TrimLeft at slashes
abbrev pub trim_slashes : Text → Text
trim_slashes [] = []
trim_slashes (c ∷ s) = let rest = trim_slashes s in if c == b'/' then rest else c ∷ s

abbrev pub ends_with_slash : Text → Bool
ends_with_slash [] = false
ends_with_slash (c ∷ []) = c == b'/'
ends_with_slash (c ∷ d ∷ s) = ends_with_slash (d ∷ s)

unfoldable pub normalize_object_prefix : Text → Text
normalize_object_prefix raw =
    let prefix = trim_slashes raw in
    if not (is_empty prefix) && not (ends_with_slash prefix) then prefix ++ (b'/' ∷ []) else prefix

-- strings.Split at slashes
abbrev pub push_segment : ℕ → List Text → List Text
push_segment c [] = (c ∷ []) ∷ []
push_segment c (segment ∷ segments) = (c ∷ segment) ∷ segments

abbrev pub segments : Text → List Text
segments [] = [] ∷ []
segments (c ∷ s) = let rest = segments s in if c == b'/' then [] ∷ rest else push_segment c rest

abbrev pub is_bad_segment : Text → Bool
is_bad_segment s = is_empty s || text_eq s (codes ".") || text_eq s (codes "..")

unfoldable pub safe_zip_entry_name : Text → Option Text
safe_zip_entry_name name =
    let cleaned = trim_slashes name in
    if is_empty cleaned || any is_bad_segment (segments cleaned) then none else some cleaned

abbrev pub has_prefix : Text → Text → Bool
has_prefix [] s = true
has_prefix (p ∷ ps) [] = false
has_prefix (p ∷ ps) (c ∷ s) = p == c && has_prefix ps s

-- the objects of an archive, by name
unfoldable pub matches : Text → List Text → List Text
matches prefix names = order_by (λ name. name) (keep (has_prefix prefix) names)

-- the outcome beside the entries of the archive
abbrev pub Written : Type 0
Written = (Result Error (Unit {0}) × World) × List Text

abbrev pub broken : World → List Text → Written
broken w entries = ((err storage_operation_failed, w), entries)

module _ (opens : List Text → Text → Bool) (closes : List Text → Bool) where
  abbrev pub close : World → List Text → Written
  close w entries = if closes entries then ((ok tt, w), entries) else broken w entries

  -- The loop, whose entries are the newest first: a name that is not safe ends it, and so does an
  -- object that cannot be downloaded, whose entry is already there.
  unfoldable pub add_entries : ℕ → List Text → World → List Text → Written
  add_entries id [] w entries = close w entries
  add_entries id (name ∷ names) w entries = elim (safe_zip_entry_name name) [
    | none ↦ broken w entries
    | some entry ↦
        if opens entries entry
        then (let (r, w') = swift failed (downloads id name) w in
            elim r [
              | err _ ↦ broken w' (entry ∷ entries)
              | ok _ ↦ add_entries id names w' (entry ∷ entries)
            ])
        else broken w entries
  ]

  abbrev pub write_matches : ℕ → List Text → World → Written
  write_matches id [] w = ((err object_prefix_not_found, w), [])
  write_matches id (name ∷ names) w = add_entries id (name ∷ names) w []

  abbrev pub archive_listed : Text → ℕ → Result Error (List Text) × World → Written
  archive_listed raw id (ok names, w) =
      write_matches id (matches (normalize_object_prefix raw) names) w
  archive_listed raw id (err e, w) = ((err e, w), [])

  abbrev pub archive_resolved : Text → Result Error ℕ × World → Written
  archive_resolved raw (ok id, w) = archive_listed raw id (list_remote objects_of id w)
  archive_resolved raw (err e, w) = ((err e, w), [])

  unfoldable pub archive_objects : ℕ → Text → Text → World → Written
  archive_objects owner container raw w = archive_resolved raw (resolve_container owner container w)
