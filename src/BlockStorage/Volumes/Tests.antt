-- ===== src/BlockStorage/Volumes/Tests.antt =====
-- Runs on volumes, and what they ask at concrete replies of OpenStack.
use rcp_server.Base.{◌≡◌, refl, pos, List, [], ◌∷◌, some, Text, codes, text_eq}
use rcp_server.Stdlib.Strings.{trim_space, is_space}
use rcp_server.Effects.{err}
use rcp_server.BlockStorage.{
  volume_not_found, volume_attached, snapshot_smaller_than_source, Volume, Snapshot,
  CreateVolumeRequest, InstanceRow, CloudReply, World, gets_volume, gets_instance, deletes_volume,
  attaches, volume, snapshot, done, find_instance_name, volume_response, resolve_volume,
  resolve_snapshot,
}
use rcp_server.BlockStorage.Volumes.{
  normalize_create_volume_request, create_volume, delete_volume, attach_volume,
}
use rcp_server.BlockStorage.Volumes.Guarded.{IsGuarded, calls, instances}
use rcp_server.BlockStorage.Volumes.Methods.{perform, attaches_to, perform-IsGuarded}

opened : Unit {0}
unfolding trim_space is_space text_eq find_instance_name volume_response resolve_volume
    resolve_snapshot normalize_create_volume_request create_volume delete_volume attach_volume
opened = tt

abbrev disk : Text → Volume
disk status = record {
  id = codes "v";
  name = codes "disk";
  description = [];
  size_gib = pos 10;
  status = status;
  attachments = [];
  owner = some 1;
}

abbrev copy : Snapshot
copy = record {
  id = codes "s";
  name = codes "copy";
  volume_id = codes "v";
  size_gib = pos 10;
  status = codes "available";
  owner = some 1;
}

abbrev asked : CreateVolumeRequest
asked = record {
  name = codes "disk";
  description = [];
  size_gib = pos 5;
  volume_type = [];
  availability_zone = [];
  snapshot_id = codes "s";
}

abbrev server : InstanceRow
server = record { openstack_id = codes "i"; owner = 1; name = codes "web" }

abbrev world : List CloudReply → World
world replies = record {
  stored = record { rows = server ∷ []; faults = [] };
  remote = record { replies = replies; calls = [] };
}

foreign :
    (delete_volume 2 (codes "v") (world (volume (disk (codes "available")) ∷ []))).0
    ≡ err volume_not_found
unfolding opened
foreign = refl

in_use :
    (delete_volume 1 (codes "v") (world (volume (disk (codes "in-use")) ∷ []))).0
    ≡ err volume_attached
unfolding opened
in_use = refl

-- the id is trimmed to look the volume up, and not to delete it
untrimmed :
    (delete_volume 1
      (codes "v ")
      (world (volume (disk (codes "available")) ∷ done ∷ []))).1.remote.calls
    ≡ (deletes_volume (codes "v "), done)
      ∷ (gets_volume (codes "v"), volume (disk (codes "available")))
      ∷ []
unfolding opened
untrimmed = refl

too_small :
    (create_volume 1 asked (world (snapshot copy ∷ []))).0 ≡ err snapshot_smaller_than_source
unfolding opened
too_small = refl

abbrev attaching : World
attaching = world (volume (disk (codes "available")) ∷ done ∷ done ∷ [])

attached :
    (attach_volume 1 (codes "v") (codes " i") attaching).1.remote.calls
    ≡ (attaches (codes "i") (codes "v"), done)
      ∷ (gets_instance (codes "i"), done)
      ∷ (gets_volume (codes "v"), volume (disk (codes "available")))
      ∷ []
unfolding opened
attached = refl

perform-IsGuarded_example :
    IsGuarded 1
      (instances attaching)
      (calls attaching)
      (calls (perform 1 (attaches_to (codes "v") (codes " i")) attaching))
perform-IsGuarded_example = perform-IsGuarded 1 (attaches_to (codes "v") (codes " i")) attaching
