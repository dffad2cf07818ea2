-- ===== src/BlockStorage/Volumes.antt =====
-- The methods of service.go on volumes and snapshots.
pub mod Guarded
pub mod Methods
mod Tests
use rcp_server.Base.{
  ℕ, ℤ, pos, ltb_ℤ, Bool, true, false, not, ◌||◌, List, [], ◌∷◌, if◌then◌else◌, Text, text_eq,
  is_empty, codes, any,
}
use rcp_server.Stdlib.Strings.{trim_space}
use rcp_server.Effects.{Result, ok, err, pure, fail, continue, ◌>>=◌}
use rcp_server.BlockStorage.{
  volume_name_required, volume_size_invalid, snapshot_name_required, volume_not_available,
  volume_attached, snapshot_busy, snapshot_smaller_than_source, volume_attachment_not_found, Volume,
  Snapshot, VolumeAttachment, CreateVolumeRequest, World, Service, gets_instance, deletes_volume,
  deletes_snapshot, lists_volumes, lists_snapshots, creates_volume, updates_volume, attaches,
  detaches, creates_snapshot, cloud, require_instance, volume_response, resolve_volume,
  resolve_snapshot, a_volume, a_snapshot, all_volumes, all_snapshots, accepted, an_instance,
  is_available,
}

abbrev pub responses : ℕ → List Volume → Service (List Volume)
responses owner [] = pure []
responses owner (v ∷ vs) =
    volume_response owner v >>= (λ r. responses owner vs >>= (λ rs. pure (r ∷ rs)))

unfoldable pub list_volumes : ℕ → Service (List Volume)
list_volumes owner = cloud all_volumes (lists_volumes owner) >>= responses owner

unfoldable pub get_volume : ℕ → Text → Service Volume
get_volume owner id = resolve_volume owner id >>= volume_response owner

unfoldable pub normalize_create_volume_request : CreateVolumeRequest → CreateVolumeRequest
normalize_create_volume_request req = record req {
  name = trim_space req.name;
  description = trim_space req.description;
  volume_type = trim_space req.volume_type;
  availability_zone = trim_space req.availability_zone;
  snapshot_id = trim_space req.snapshot_id;
}

abbrev pub make_volume : ℕ → CreateVolumeRequest → Service Volume
make_volume owner req = cloud a_volume (creates_volume req owner) >>= volume_response owner

abbrev pub make_from : ℕ → CreateVolumeRequest → Snapshot → Service Volume
make_from owner req s =
    if ltb_ℤ req.size_gib s.size_gib
    then fail snapshot_smaller_than_source
    else make_volume owner req

-- CreateVolume of a request that is normalised
abbrev pub create_normalized : ℕ → CreateVolumeRequest → Service Volume
create_normalized owner req =
    if is_empty req.name
    then fail volume_name_required
    else (if not (ltb_ℤ (pos 0) req.size_gib)
        then fail volume_size_invalid
        else (if is_empty req.snapshot_id
            then make_volume owner req
            else resolve_snapshot owner req.snapshot_id >>= make_from owner req))

unfoldable pub create_volume : ℕ → CreateVolumeRequest → Service Volume
create_volume owner req = create_normalized owner (normalize_create_volume_request req)

-- normalizeUpdateVolumeRequest
abbrev pub name_or : Text → Text → Text
name_or name current = if is_empty name then current else name

unfoldable pub update_volume : ℕ → Text → Text → Text → Service Volume
update_volume owner id name description = resolve_volume owner id >>= (λ v.
    cloud a_volume (updates_volume id (name_or (trim_space name) v.name) (trim_space description))
    >>= volume_response owner)

unfoldable pub delete_volume : ℕ → Text → Service (Unit {0})
delete_volume owner id = resolve_volume owner id >>= (λ v.
    if is_available v.status then cloud accepted (deletes_volume id) else fail volume_attached)

unfoldable pub attach_volume : ℕ → Text → Text → Service (Unit {0})
attach_volume owner id raw = resolve_volume owner id >>= (λ v.
    if is_available v.status
    then require_instance owner (trim_space raw) >>= (λ _.
      cloud an_instance (gets_instance (trim_space raw))
      >>= (λ _. cloud accepted (attaches (trim_space raw) id)))
    else fail volume_not_available)

abbrev pub is_attached : Text → List VolumeAttachment → Bool
is_attached instance_id attachments = any (λ a. text_eq a.instance_id instance_id) attachments

unfoldable pub detach_volume : ℕ → Text → Text → Service (Unit {0})
detach_volume owner id instance_id = resolve_volume owner id >>= (λ v.
    if is_attached instance_id v.attachments
    then require_instance owner instance_id >>= (λ _. cloud accepted (detaches instance_id id))
    else fail volume_attachment_not_found)

unfoldable pub list_snapshots : ℕ → Service (List Snapshot)
list_snapshots owner = cloud all_snapshots (lists_snapshots owner)

unfoldable pub create_snapshot : ℕ → Text → Text → Text → Service Snapshot
create_snapshot owner id name description =
    if is_empty (trim_space name)
    then fail snapshot_name_required
    else resolve_volume owner id >>= (λ v.
      if is_available v.status
      then cloud a_snapshot (creates_snapshot id (trim_space name) (trim_space description) owner)
      else fail volume_not_available)

unfoldable pub delete_snapshot : ℕ → Text → Service (Unit {0})
delete_snapshot owner id = resolve_snapshot owner id >>= (λ s.
    if is_available s.status || text_eq s.status (codes "error")
    then cloud accepted (deletes_snapshot id)
    else fail snapshot_busy)
