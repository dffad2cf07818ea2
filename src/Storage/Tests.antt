-- ===== src/Storage/Tests.antt =====
-- Runs on containers and archives, and their theorems at concrete replies of Swift.
use rcp_server.Base.{◌≡◌, refl, Bool, true, false, List, [], ◌∷◌, none, Text, codes, text_eq}
use rcp_server.Stdlib.Strings.{trim_space, is_space}
use rcp_server.Functions.Order.{order_by}
use rcp_server.Effects.{ok, err}
use rcp_server.Storage.{
  container_not_empty, container_already_exists, Container, Rows, SwiftReply, creates, deletes,
  lists, done, listed, refused, World, find_by_name, save, delete_row, save_or_recall,
  create_container, resolve_container, delete_container, list_objects, upload_object,
  download_object, delete_object,
}
use rcp_server.Storage.Containers.{IsDeleted, delete_container-IsDeleted}
use rcp_server.Storage.Untrimmed.{site, delete_container-stranded}
use rcp_server.Storage.Archive.{
  normalize_object_prefix, safe_zip_entry_name, matches, add_entries, archive_objects,
}
use rcp_server.Storage.Archive.Entries.{IsArchive, archive_objects-IsArchive}

opened : Unit {0}
unfolding trim_space is_space text_eq find_by_name save delete_row save_or_recall create_container
    resolve_container delete_container list_objects upload_object download_object delete_object
    normalize_object_prefix safe_zip_entry_name matches add_entries archive_objects order_by
opened = tt

abbrev world : Rows → List SwiftReply → World
world rs replies = record {
  stored = record { rows = rs; faults = [] };
  remote = record { replies = replies; calls = [] };
}

abbrev photos_row : Container
photos_row = record { owner = 1; name = codes "photos" }

abbrev photos : Rows
photos = (7, photos_row) ∷ []

created : (create_container 7 1 (codes " photos ") (world [] (done ∷ []))).1.stored.rows ≡ photos
unfolding opened
created = refl

taken : (create_container 8 1 (codes "photos") (world photos [])).0 ≡ err container_already_exists
unfolding opened
taken = refl

-- the UUID is taken by a row, and the new container is deleted again
recalled :
    (create_container 7 2 (codes "x") (world photos (done ∷ done ∷ []))).1.remote.calls
    ≡ (deletes 7, done) ∷ (creates 7, done) ∷ []
unfolding opened
recalled = refl

full :
    (delete_container 1 (codes "photos") false (world photos (listed (codes "a" ∷ []) ∷ []))).0
    ≡ err container_not_empty
unfolding opened
full = refl

-- Swift no longer has the container
removed :
    (delete_container 1
      (codes "photos")
      false
      (world photos (refused true ∷ refused true ∷ []))).1.stored.rows
    ≡ []
unfolding opened
removed = refl

abbrev opens : List Text → Text → Bool
opens entries entry = true

abbrev closes : List Text → Bool
closes entries = true

abbrev archived : World
archived = world photos (listed (codes "a/c" ∷ codes "b" ∷ codes "a/b" ∷ []) ∷ done ∷ done ∷ [])

ordered :
    (archive_objects opens closes 1 (codes "photos") (codes "/a") archived).1
    ≡ codes "a/c" ∷ codes "a/b" ∷ []
unfolding opened
ordered = refl

unsafe : safe_zip_entry_name (codes "/a/../b") ≡ none
unfolding opened
unsafe = refl

delete_container-IsDeleted_example :
    IsDeleted 1
      (codes "photos")
      (world photos (listed [] ∷ done ∷ []))
      (delete_container 1 (codes "photos") false (world photos (listed [] ∷ done ∷ [])))
delete_container-IsDeleted_example =
    delete_container-IsDeleted 1 (codes "photos") (world photos (listed [] ∷ done ∷ []))

delete_container-stranded_example :
    (delete_container 1 (codes "photos ") false (site photos (listed [] ∷ done ∷ []) [])
      ≡ (ok tt, site photos [] ((deletes 7, done) ∷ (lists 7, listed []) ∷ [])))
    × ((create_container 8 1
          (codes "photos ")
          (delete_container 1 (codes "photos ") false (site photos (listed [] ∷ done ∷ []) [])).1).0
        ≡ err container_already_exists)
unfolding opened
delete_container-stranded_example =
    delete_container-stranded 1 (codes "photos ") photos 7 photos_row refl (listed []) done [] [] 8
      refl refl refl

archive_objects-IsArchive_example :
    IsArchive 1
      (codes "photos")
      (codes "/a")
      archived
      (archive_objects opens closes 1 (codes "photos") (codes "/a") archived)
archive_objects-IsArchive_example =
    archive_objects-IsArchive opens closes 1 (codes "photos") (codes "/a") archived
