-- ===== src/Compute/History/Told.antt =====
-- When the row of an instance goes, and what OpenStack has said of its server by then.
use rcp_server.Base.{
  ℕ, ◌≡◌, refl, Bool, true, false, not, ◌&&◌, ◌||◌, List, [], ◌∷◌, Option, none, some, arith, Text,
  text_eq, text_eq_iff, any, keep, inl, inr,
}
use rcp_server.Table.{texts, select, select-upsert}
use rcp_server.Compute.Instances.{
  Instance, UpdateInstanceRequest, CloudCall, deletes, fetches, CloudReply, World, ask, accepts,
  updated, is_row, find_by_openstack_id, delete_by_openstack_id, save_instance,
  update_instance_metadata,
}
use rcp_server.Compute.Listing.{list_by_owner, is_not_found}
use rcp_server.Compute.History.{Call, run}
use rcp_server.Compute.History.Keeps.{IsKept, run-keeps, trivial}
use rcp_server.Compute.History.Rows.{update_cases}

module _ (id : Text) where
  -- an exchange by which OpenStack says that it has no server of the id any more
  abbrev pub tells : CloudCall × CloudReply → Bool
  tells (deletes j, r) = text_eq j id && accepts r
  tells (fetches j, r) = text_eq j id && is_not_found r
  tells _ = false

  abbrev pub has_row : Option Instance → Bool
  has_row none = false
  has_row (some inst) = true

  abbrev pub is_safe : World → Bool
  is_safe w = has_row (select id w.rows) || any tells w.calls

  select-keep_other :
      (owner : ℕ) (other : Text) (rows : List (Text × Instance))
      → text_eq other id ≡ false
      → select id (keep (λ r. not (is_row owner other r)) rows) ≡ select id rows
  unfolding select
  select-keep_other owner other [] h = refl
  select-keep_other owner other ((j, inst) ∷ rows) h = ground (
    arith,
    text_eq_iff j id,
    text_eq_iff j other,
    text_eq_iff id other,
    text_eq_iff other id,
    select-keep_other owner other rows,
  )

  ask-is_safe : (c : CloudCall) (w : World) → is_safe w ≡ true → is_safe (ask c w).1 ≡ true
  ask-is_safe c w h = ground arith

  -- a deletion that follows an exchange of its id
  delete-is_safe :
      (owner : ℕ) (other : Text) (w : World)
      → (text_eq other id ≡ true → any tells w.calls ≡ true)
      → is_safe w ≡ true
      → is_safe (delete_by_openstack_id owner other w).1 ≡ true
  unfolding delete_by_openstack_id
  delete-is_safe owner other w told h = ground (arith, told, select-keep_other owner other w.rows)

  update-is_safe :
      (owner : ℕ) (other : Text) (req : UpdateInstanceRequest) (w : World)
      → is_safe w ≡ true
      → is_safe (update_instance_metadata owner other req w).1 ≡ true
  update-is_safe owner other req w h = elim (update_cases owner other req w).1 [
    | inl kept ↦ rw ((update_cases owner other req w).0, kept) h
    | inr (inst, here, owned, is) ↦
        rw ((update_cases owner other req w).0, is)
          (ground (arith, select-upsert other id (updated req inst) w.rows))
  ]

  safe : (o : ℕ) → IsKept (λ w. is_safe w ≡ true) o
  unfolding find_by_openstack_id list_by_owner save_instance update_instance_metadata
  safe o = record {
    ask_keeps = ask-is_safe;
    find_keeps = λ j w h. ground arith;
    list_keeps = λ w h. ground arith;
    save_keeps = λ j inst w e h. ground (arith, select-upsert j id inst w.rows);
    update_keeps = λ j req w h. update-is_safe o j req w h;
    delete_keeps = λ j w yes h.
        delete-is_safe o j _ (λ same. ground (arith, yes)) (ask-is_safe (deletes j) w h);
    prune_keeps = λ j w yes h.
        delete-is_safe o j _ (λ same. ground (arith, yes)) (ask-is_safe (fetches j) w h);
  }

  -- Whatever methods are called, by whatever owners, and whichever calls of the database and of
  -- OpenStack fail: the row of an instance is there until OpenStack has accepted a deletion of the
  -- server, or has answered that it does not find it.
  pub run-is_safe :
      (cs : List (ℕ × Call)) (w : World) (inst : Instance)
      → select id w.rows ≡ some inst
      → select id (run w cs).rows ≡ none
      → any tells (run w cs).calls ≡ true
  run-is_safe cs w inst here gone = ground (
    arith,
    run-keeps (λ v. is_safe v ≡ true) (λ c. Unit {0}) (λ o c q. safe o) cs w (trivial cs)
        (ground arith),
  )
