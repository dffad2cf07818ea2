-- ===== src/BlockStorage.antt =====
-- service.go and repository.go of internal/domain/blockstorage: volumes and snapshots, whose owner
-- stands in the metadata that OpenStack keeps. OpenStack is a script of replies; the rows are those
-- of instances.
pub mod Volumes
use rcp_server.Base.{
  ℕ, ℤ, pos, ltb_ℤ, Bool, true, false, not, ◌&&◌, ◌||◌, List, [], ◌∷◌, Option, none, some,
  if◌then◌else◌, ◌==◌, Text, text_eq, is_empty, codes, any, find,
}
use rcp_server.Stdlib.Strings.{trim_space}
use rcp_server.Effects.{Result, ok, err, pure, fail, continue, ◌>>=◌, Site, query, on_stored, ask}

pub data Error : Type 0 where
  volume_not_found snapshot_not_found instance_not_found volume_name_required : Error
  volume_size_invalid snapshot_name_required volume_not_available volume_attached : Error
  snapshot_busy snapshot_smaller_than_source volume_attachment_not_found : Error
  block_storage_operation_failed : Error

pub record VolumeAttachment : Type 0 where
  pub instance_id : Text
  pub instance_name : Text

-- `owner` is the value of rcp_owner_id in the metadata, if it is a UUID, which is a number here
pub record Volume : Type 0 where
  pub id : Text
  pub name : Text
  pub description : Text
  pub size_gib : ℤ
  pub status : Text
  pub attachments : List VolumeAttachment
  pub owner : Option ℕ

pub record Snapshot : Type 0 where
  pub id : Text
  pub name : Text
  pub volume_id : Text
  pub size_gib : ℤ
  pub status : Text
  pub owner : Option ℕ

pub record CreateVolumeRequest : Type 0 where
  pub name : Text
  pub description : Text
  pub size_gib : ℤ
  pub volume_type : Text
  pub availability_zone : Text
  pub snapshot_id : Text

-- a row of instances: its id in OpenStack, its owner and its name
pub record InstanceRow : Type 0 where
  pub openstack_id : Text
  pub owner : ℕ
  pub name : Text

pub data CloudCall : Type 0 where
  gets_volume gets_snapshot gets_instance deletes_volume deletes_snapshot : (id : Text) → CloudCall
  lists_volumes lists_snapshots : (owner : ℕ) → CloudCall
  creates_volume : CreateVolumeRequest → (owner : ℕ) → CloudCall
  updates_volume : (id name description : Text) → CloudCall
  attaches detaches : (instance volume : Text) → CloudCall
  creates_snapshot : (volume name description : Text) (owner : ℕ) → CloudCall

pub data CloudReply : Type 0 where
  volume : Volume → CloudReply
  volumes : List Volume → CloudReply
  snapshot : Snapshot → CloudReply
  snapshots : List Snapshot → CloudReply
  done : CloudReply
  refused : (not_found : Bool) → CloudReply

abbrev pub World : Type 0
World = Site (List InstanceRow) CloudCall CloudReply

abbrev pub Service : Type 0 → Type 0
Service A = World → Result Error A × World

abbrev pub cloud_ask : CloudCall → World → CloudReply × World
cloud_ask c w =
    let (r, remote) = ask (refused false) c w.remote in (r, record w { remote = remote })

abbrev pub cloud : {A : Type 0} → (CloudReply → Result Error A) → CloudCall → Service A
cloud result c w = let (r, w') = cloud_ask c w in (result r, w')

abbrev pub is_instance : ℕ → Text → InstanceRow → Bool
is_instance owner id row = row.owner == owner && text_eq row.openstack_id id

abbrev pub name_of : Option InstanceRow → Option Text
name_of none = none
name_of (some row) = some row.name

-- FindInstanceName
unfoldable pub find_instance_name : ℕ → Text → Service (Option Text)
find_instance_name owner id = on_stored (
    query block_storage_operation_failed
      (λ rows. ok (name_of (find (is_instance owner id) rows), rows)))

abbrev pub is_there : Option Text → Bool
is_there none = false
is_there (some _) = true

-- InstanceExists, and ErrInstanceNotFound of its callers
abbrev pub or_no_instance : Option Text → Service (Unit {0})
or_no_instance none = fail instance_not_found
or_no_instance (some _) = pure tt

abbrev pub require_instance : ℕ → Text → Service (Unit {0})
require_instance owner id = find_instance_name owner id >>= or_no_instance

-- the loop of volumeResponse, in which an error counts as no name
abbrev pub named : VolumeAttachment → Result Error (Option Text) → VolumeAttachment
named a (ok none) = a
named a (ok (some name)) = record a { instance_name = name }
named a (err e) = a

abbrev pub with_names : ℕ → List VolumeAttachment → World → List VolumeAttachment × World
with_names owner [] w = ([], w)
with_names owner (a ∷ rest) w =
    let (r, w') = find_instance_name owner a.instance_id w in
    let (named_rest, w'') = with_names owner rest w' in (named a r ∷ named_rest, w'')

-- VolumeResponse has the fields of a volume but its metadata
unfoldable pub volume_response : ℕ → Volume → Service Volume
volume_response owner v w =
    let (attachments, w') = with_names owner v.attachments w in
    (ok (record v { attachments = attachments }), w')

abbrev pub is_own : ℕ → Option ℕ → Bool
is_own owner none = false
is_own owner (some o) = o == owner

abbrev pub own_volume : ℕ → CloudReply → Result Error Volume
own_volume owner (volume v) = if is_own owner v.owner then ok v else err volume_not_found
own_volume owner (refused true) = err volume_not_found
own_volume owner _ = err block_storage_operation_failed

abbrev pub own_snapshot : ℕ → CloudReply → Result Error Snapshot
own_snapshot owner (snapshot s) = if is_own owner s.owner then ok s else err snapshot_not_found
own_snapshot owner (refused true) = err snapshot_not_found
own_snapshot owner _ = err block_storage_operation_failed

unfoldable pub resolve_volume : ℕ → Text → Service Volume
resolve_volume owner id = cloud (own_volume owner) (gets_volume (trim_space id))

unfoldable pub resolve_snapshot : ℕ → Text → Service Snapshot
resolve_snapshot owner id = cloud (own_snapshot owner) (gets_snapshot (trim_space id))

abbrev pub a_volume : CloudReply → Result Error Volume
a_volume (volume v) = ok v
a_volume _ = err block_storage_operation_failed

abbrev pub a_snapshot : CloudReply → Result Error Snapshot
a_snapshot (snapshot s) = ok s
a_snapshot _ = err block_storage_operation_failed

abbrev pub all_volumes : CloudReply → Result Error (List Volume)
all_volumes (volumes vs) = ok vs
all_volumes _ = err block_storage_operation_failed

abbrev pub all_snapshots : CloudReply → Result Error (List Snapshot)
all_snapshots (snapshots ss) = ok ss
all_snapshots _ = err block_storage_operation_failed

abbrev pub accepted : CloudReply → Result Error (Unit {0})
accepted (refused _) = err block_storage_operation_failed
accepted _ = ok tt

abbrev pub an_instance : CloudReply → Result Error (Unit {0})
an_instance (refused true) = err instance_not_found
an_instance (refused false) = err block_storage_operation_failed
an_instance _ = ok tt

abbrev pub is_available : Text → Bool
is_available status = text_eq status (codes "available")
