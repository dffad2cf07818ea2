-- ===== src/BlockStorage/Volumes/Methods.antt =====
-- Every method is guarded.
use rcp_server.Base.{
  ℕ, refl, ◌∙◌, inl, inr, pos, ltb_ℤ, ◌||◌, List, [], ◌∷◌, Text, text_eq, is_empty, codes, sym,
  subst, Bool-cases,
}
use rcp_server.Stdlib.Strings.{trim_space}
use rcp_server.BlockStorage.{
  Volume, CreateVolumeRequest, World, gets_instance, deletes_volume, deletes_snapshot,
  lists_volumes, lists_snapshots, creates_volume, updates_volume, attaches, detaches,
  creates_snapshot, cloud, cloud_ask, volume_response, a_volume, a_snapshot, all_volumes,
  all_snapshots, accepted, an_instance, is_available,
}
use rcp_server.BlockStorage.Volumes.{
  list_volumes, get_volume, create_volume, update_volume, delete_volume, attach_volume,
  detach_volume, list_snapshots, create_snapshot, delete_snapshot, is_attached,
}
use rcp_server.BlockStorage.Volumes.{
  responses, create_normalized, normalize_create_volume_request, make_from,
}
use rcp_server.BlockStorage.Volumes.Guarded.{
  calls, instances, IsGuarded, G, start, cloud-G, continue-G, checked-G, response-G, respond-G,
  resolved-G, snapshot-G, required-G,
}

module _ (owner : ℕ) (w : World) where
  update_volume-G :
      (id name description : Text) → G owner w (update_volume owner id name description w).1
  unfolding update_volume
  update_volume-G id name description = resolved-G owner w id _ (λ v u own same asked g.
      respond-G owner w a_volume (updates_volume id _ _) u (v, own, tt, asked) g)

  delete_volume-G : (id : Text) → G owner w (delete_volume owner id w).1
  unfolding delete_volume
  delete_volume-G id = resolved-G owner w id _ (λ v u own same asked g.
      elim (Bool-cases (is_available v.status)) [
        | inl free ↦
            rw free (cloud-G owner w accepted (deletes_volume id) u (v, own, free, asked) g)
        | inr busy ↦ rw busy g
      ])

  create_snapshot-G :
      (id name description : Text) → G owner w (create_snapshot owner id name description w).1
  unfolding create_snapshot
  create_snapshot-G id name description = elim (Bool-cases (is_empty (trim_space name))) [
    | inl nameless ↦ rw nameless (start owner w)
    | inr named ↦ rw named (
        resolved-G owner w id _ (λ v u own same asked g. elim (Bool-cases (is_available v.status)) [
          | inl free ↦ rw free (
              cloud-G owner w a_snapshot (creates_snapshot id _ _ owner) u
                (refl, (v, own, free, asked)) g)
          | inr busy ↦ rw busy g
        ]))
  ]

  delete_snapshot-G : (id : Text) → G owner w (delete_snapshot owner id w).1
  unfolding delete_snapshot
  delete_snapshot-G id = snapshot-G owner w id _ (λ s u own asked g.
      elim (Bool-cases (is_available s.status || text_eq s.status (codes "error"))) [
        | inl idle ↦
            rw idle (cloud-G owner w accepted (deletes_snapshot id) u (s, own, idle, asked) g)
        | inr busy ↦ rw busy g
      ])

  detach_volume-G : (id instance_id : Text) → G owner w (detach_volume owner id instance_id w).1
  unfolding detach_volume
  detach_volume-G id instance_id = resolved-G owner w id _ (λ v u own same asked g.
      elim (Bool-cases (is_attached instance_id v.attachments)) [
        | inl attached ↦ rw attached (
            required-G owner w instance_id _ u same g (λ t has kept.
              cloud-G owner w accepted (detaches instance_id id) t
                (has, (v, own, attached, kept ∙ asked))
                (subst (IsGuarded owner (instances w) (calls w)) (sym kept) g)))
        | inr detached ↦ rw detached g
      ])

  attach_volume-G : (id raw : Text) → G owner w (attach_volume owner id raw w).1
  unfolding attach_volume
  attach_volume-G id raw = resolved-G owner w id _ (λ v u own same asked g.
      elim (Bool-cases (is_available v.status)) [
        | inr busy ↦ rw busy g
        | inl free ↦ rw free (
            required-G owner w (trim_space raw) _ u same g (λ t has kept.
              let (r, t') = cloud_ask (gets_instance (trim_space raw)) t in
              let h =
                cloud-G owner w an_instance (gets_instance (trim_space raw)) t tt
                  (subst (IsGuarded owner (instances w) (calls w)) (sym kept) g) in
              checked-G owner w _ (an_instance r) t' h (λ _ there.
                cloud-G owner w accepted (attaches (trim_space raw) id) t'
                  (has, (r, (calls t, there, (v, own, free, kept ∙ asked), refl))) h)))
      ])

  responses-G : (vs : List Volume) (u : World) → G owner w u → G owner w (responses owner vs u).1
  responses-G [] u g = g
  responses-G (v ∷ vs) u g =
      let h = response-G owner w v u g in
      continue-G owner w _ (volume_response owner v u).0 (volume_response owner v u).1 h (λ r.
        let t = (volume_response owner v u).1 in
        let k = responses-G vs t h in
        continue-G owner w _ (responses owner vs t).0 (responses owner vs t).1 k (λ rs. k))

  create_volume-G : (req : CreateVolumeRequest) → G owner w (create_normalized owner req w).1
  create_volume-G req = elim (Bool-cases (is_empty req.name)) [
    | inl nameless ↦ rw nameless (start owner w)
    | inr named ↦ elim (Bool-cases (ltb_ℤ (pos 0) req.size_gib)) [
      | inr small ↦ rw (named, small) (start owner w)
      | inl sized ↦ elim (Bool-cases (is_empty req.snapshot_id)) [
        | inl fresh ↦
            rw (named, sized, fresh)
              (respond-G owner w a_volume (creates_volume req owner) w refl (start owner w))
        | inr copied ↦
            rw (named, sized, copied)
              (snapshot-G owner w req.snapshot_id (make_from owner req) (λ s u own asked g.
                elim (Bool-cases (ltb_ℤ req.size_gib s.size_gib)) [
                  | inl smaller ↦ rw smaller g
                  | inr fits ↦
                      rw fits (respond-G owner w a_volume (creates_volume req owner) u refl g)
                ]))
      ]
    ]
  ]

-- a call of the service
pub data Method : Type 0 where
  lists lists_snapshots_of : Method
  gets deletes removes_snapshot : (id : Text) → Method
  creates : CreateVolumeRequest → Method
  updates snapshots_of : (id name description : Text) → Method
  attaches_to detaches_from : (id instance_id : Text) → Method

unfoldable pub perform : ℕ → Method → World → World
perform owner lists w = (list_volumes owner w).1
perform owner lists_snapshots_of w = (list_snapshots owner w).1
perform owner (gets id) w = (get_volume owner id w).1
perform owner (deletes id) w = (delete_volume owner id w).1
perform owner (removes_snapshot id) w = (delete_snapshot owner id w).1
perform owner (creates req) w = (create_volume owner req w).1
perform owner (updates id name description) w = (update_volume owner id name description w).1
perform owner (snapshots_of id name description) w = (create_snapshot owner id name description w).1
perform owner (attaches_to id i) w = (attach_volume owner id i w).1
perform owner (detaches_from id i) w = (detach_volume owner id i w).1

-- Whatever OpenStack and the database answer, a method asks OpenStack to change only what the call
-- of it may: to update, delete, attach, detach or snapshot a volume only after OpenStack has given a
-- volume of the owner for the trimmed id, which to delete, attach or snapshot it is available, and to
-- detach it is attached to the instance; to attach or detach only for an instance of which the owner has a row and, to attach,
-- that OpenStack knows; to delete a snapshot only where it is the owner's and available or in
-- error; and what is listed or made is the owner's.
pub perform-IsGuarded :
    (owner : ℕ) (m : Method) (w : World)
    → IsGuarded owner (instances w) (calls w) (calls (perform owner m w))
unfolding perform list_volumes list_snapshots get_volume create_volume
perform-IsGuarded owner lists w =
    let g = cloud-G owner w all_volumes (lists_volumes owner) w refl (start owner w) in
    continue-G owner w (responses owner) (cloud all_volumes (lists_volumes owner) w).0 _ g
      (λ vs. responses-G owner w vs _ g)
perform-IsGuarded owner lists_snapshots_of w =
    cloud-G owner w all_snapshots (lists_snapshots owner) w refl (start owner w)
perform-IsGuarded owner (gets id) w =
    resolved-G owner w id (volume_response owner) (λ v u own same asked g. response-G owner w v u g)
perform-IsGuarded owner (deletes id) w = delete_volume-G owner w id
perform-IsGuarded owner (removes_snapshot id) w = delete_snapshot-G owner w id
perform-IsGuarded owner (creates req) w =
    create_volume-G owner w (normalize_create_volume_request req)
perform-IsGuarded owner (updates id name description) w =
    update_volume-G owner w id name description
perform-IsGuarded owner (snapshots_of id name description) w =
    create_snapshot-G owner w id name description
perform-IsGuarded owner (attaches_to id i) w = attach_volume-G owner w id i
perform-IsGuarded owner (detaches_from id i) w = detach_volume-G owner w id i
