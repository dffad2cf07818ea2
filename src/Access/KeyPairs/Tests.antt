-- ===== src/Access/KeyPairs/Tests.antt =====
-- Runs on key pairs, and their theorems at concrete replies of OpenStack.
use rcp_server.Base.{◌≡◌, refl, Bool, true, false, List, [], ◌∷◌, Text, codes, text_eq}
use rcp_server.Stdlib.Strings.{trim_space, is_space}
use rcp_server.Effects.{ok, err}
use rcp_server.Table.{texts, select, upsert}
use rcp_server.Access.KeyPairs.{
  key_pair_not_found, KeyPair, Tables, creates, deletes, CloudReply, made, deleted, refused, World,
  find_by_name, save_key_pair, row_of, delete_by_name, key_pair_error, save_or_recall,
  create_key_pair, get_key_pair, delete_key_pair, list_key_pairs,
}
use rcp_server.Access.KeyPairs.Owned.{IsCreated, create_key_pair-IsCreated}
use rcp_server.Access.KeyPairs.Deletion.{IsDeleted, delete_key_pair-IsDeleted}

opened : Unit {0}
unfolding trim_space is_space select upsert text_eq find_by_name save_key_pair delete_by_name
    key_pair_error save_or_recall create_key_pair get_key_pair delete_key_pair list_key_pairs
opened = tt

abbrev lab : KeyPair
lab = record { name = codes "lab"; fingerprint = codes "f"; public_key = codes "k" }

abbrev world : Tables → List Bool → List CloudReply → World
world t faults replies = record {
  stored = record { rows = t; faults = faults };
  remote = record { replies = replies; calls = [] };
}

abbrev empty : Tables
empty = record { key_pairs = []; instances = [] }

abbrev owned : Tables
owned = record { key_pairs = (codes "lab", row_of 1 lab) ∷ []; instances = [] }

abbrev accepts : Text → Bool
accepts key = true

created :
    (create_key_pair accepts 1 (codes " lab ") (codes "k") (world empty [] (made lab ∷ []))).0
    ≡ ok lab
unfolding opened
created = refl

-- the row cannot be saved, and the key pair is deleted again
recalled :
    (create_key_pair accepts 1
      (codes "lab")
      (codes "k")
      (world empty (false ∷ true ∷ []) (made lab ∷ deleted ∷ []))).1.remote.calls
    ≡ (deletes (codes "lab"), deleted) ∷ (creates (codes "lab") (codes "k"), made lab) ∷ []
unfolding opened
recalled = refl

-- OpenStack no longer has the key pair
removed :
    (delete_key_pair 1 (codes "lab") (world owned [] (refused 404 ∷ []))).1.stored.rows ≡ empty
unfolding opened
removed = refl

foreign : (delete_key_pair 2 (codes "lab") (world owned [] [])).0 ≡ err key_pair_not_found
unfolding opened
foreign = refl

create_key_pair-IsCreated_example :
    IsCreated 1
      (trim_space (codes "lab"))
      (trim_space (codes "k"))
      (world empty (false ∷ true ∷ []) (made lab ∷ deleted ∷ []))
      (create_key_pair accepts 1
        (codes "lab")
        (codes "k")
        (world empty (false ∷ true ∷ []) (made lab ∷ deleted ∷ [])))
create_key_pair-IsCreated_example =
    create_key_pair-IsCreated accepts 1 (codes "lab") (codes "k")
      (world empty (false ∷ true ∷ []) (made lab ∷ deleted ∷ []))

delete_key_pair-IsDeleted_example :
    IsDeleted 1
      (codes "lab")
      (world owned [] (refused 404 ∷ []))
      (delete_key_pair 1 (codes "lab") (world owned [] (refused 404 ∷ [])))
delete_key_pair-IsDeleted_example =
    delete_key_pair-IsDeleted 1 (codes "lab") (world owned [] (refused 404 ∷ []))
