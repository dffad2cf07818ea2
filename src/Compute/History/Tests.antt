-- ===== src/Compute/History/Tests.antt =====
-- Runs of the compute service, and its theorems at concrete histories.
use rcp_server.Base.{◌≡◌, refl, true, false, none, some, List, [], ◌∷◌, Text, codes, text_eq, any}
use rcp_server.Table.{texts, select, upsert}
use rcp_server.Stdlib.Strings.{trim_space}
use rcp_server.Compute.Instances.{
  Instance, Server, CreateServerOpts, CloudReply, served, listed, accepted, refused, World,
  find_by_openstack_id, delete_by_openstack_id, save_instance, update_instance_metadata,
  first_non_empty, pause_instance, unpause_instance, delete_instance, update_instance,
}
use rcp_server.Compute.Creation.{
  normalize_create_server_opts, with_network, validate_create_server_opts, normalize_server_status,
  instance_of, save_or_recall, record_server, create_validated, create_instance,
}
use rcp_server.Compute.Listing.{
  list_by_owner, fetch_instances, extract_server_ips, server_ips, flavor_of, server_of, detail_of,
  split_rows, prune_one, prune_stale_instances, join_and_prune, with_servers, with_rows,
  get_instances,
}
use rcp_server.Compute.History.{deletes_instance, lists, step, run}
use rcp_server.Compute.History.Told.{run-is_safe, tells}
use rcp_server.Compute.History.Owners.{run-Holds, Holds}
use rcp_server.Compute.History.Orphans.{IsClean, create_instance-IsClean}

opened : Unit {0}
unfolding find_by_openstack_id delete_by_openstack_id save_instance update_instance_metadata
    first_non_empty pause_instance unpause_instance delete_instance update_instance
    normalize_create_server_opts with_network validate_create_server_opts normalize_server_status
    instance_of save_or_recall record_server create_validated create_instance list_by_owner
    fetch_instances extract_server_ips server_ips flavor_of server_of detail_of split_rows prune_one
    prune_stale_instances join_and_prune with_servers with_rows get_instances step run select upsert
    text_eq trim_space
opened = tt

abbrev vm : Instance
vm = record {
  owner = 1;
  name = codes "vm";
  status = codes "ACTIVE";
  image_id = codes "i";
  flavor_id = codes "f";
  key_name = [];
  note = [];
  created = 5;
}

abbrev id : Text
id = codes "a1"

abbrev with_replies : List CloudReply → World
with_replies replies = record { rows = (id, vm) ∷ []; faults = []; replies = replies; calls = [] }

-- A list that lacks the server, whose own lookup is not found, prunes its row.
abbrev pruning : World
pruning = with_replies (listed [] ∷ refused true ∷ [])

pruned : select id (run pruning ((1, lists (some [])) ∷ [])).rows ≡ none
unfolding opened
pruned = refl

-- A lookup that fails otherwise does not.
not_pruned :
    select id (run (with_replies (listed [] ∷ refused false ∷ [])) ((1, lists (some [])) ∷ [])).rows
    ≡ some vm
unfolding opened
not_pruned = refl

run-is_safe_example : any (tells id) (run pruning ((1, lists (some [])) ∷ [])).calls ≡ true
unfolding opened
run-is_safe_example = run-is_safe id ((1, lists (some [])) ∷ []) pruning vm refl pruned

run-Holds_example :
    Holds 1 id vm (run (with_replies (accepted ∷ [])) ((2, deletes_instance id) ∷ []))
unfolding opened
run-Holds_example =
    run-Holds 1 id vm ((2, deletes_instance id) ∷ []) (with_replies (accepted ∷ [])) (refl, tt)
      (refl, refl)

abbrev opts : CreateServerOpts
opts = record {
  name = codes " new ";
  image_ref = codes "i";
  flavor_ref = codes "f";
  key_name = [];
  note = [];
  security_groups = [];
  networks = [];
}

abbrev server : Server
server = record {
  id = codes "b2";
  name = [];
  status = [];
  image_id = [];
  flavor_id = [];
  addresses = [];
  key_name = [];
  access_ipv4 = [];
  created = 6;
}

-- The database refuses the row, and the server is deleted again.
abbrev failing : World
failing = record {
  rows = [];
  faults = true ∷ [];
  replies = served server ∷ accepted ∷ [];
  calls = [];
}

recalled_calls :
    any (tells (codes "b2")) (create_instance (codes "net") 1 opts failing).1.calls ≡ true
unfolding opened
recalled_calls = refl

create_instance-IsClean_example : IsClean 1 failing (create_instance (codes "net") 1 opts failing)
create_instance-IsClean_example = create_instance-IsClean 1 failing (codes "net") opts
