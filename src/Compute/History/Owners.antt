-- ===== src/Compute/History/Owners.antt =====
-- An owner's instances under the calls of other owners.
use rcp_server.Base.{
  ℕ, ◌≡◌, false, not, List, [], ◌∷◌, some, arith, Text, text_eq_iff, keep, All, ◌==◌, ==_iff, inl,
  inr,
}
use rcp_server.Table.{texts, select, select-upsert}
use rcp_server.Compute.Instances.{
  Instance, UpdateInstanceRequest, World, updated, is_row, find_by_openstack_id,
  delete_by_openstack_id, save_instance, update_instance_metadata,
}
use rcp_server.Compute.Listing.{list_by_owner}
use rcp_server.Compute.History.{Call, run}
use rcp_server.Compute.History.Keeps.{IsKept, run-keeps}
use rcp_server.Compute.History.Rows.{update_cases, save_cases}

module _ (owner : ℕ) (id : Text) (inst : Instance) where
  -- the owner's row of the instance, as it was
  abbrev pub Holds : World → Type 0
  Holds w = (select id w.rows ≡ some inst) × (inst.owner ≡ owner)

  abbrev pub IsOther : ℕ × Call → Type 0
  IsOther (o, c) = (o == owner) ≡ false

  select-keep_mine :
      (o : ℕ) (other : Text) (rows : List (Text × Instance))
      → (o == owner) ≡ false
      → inst.owner ≡ owner
      → select id rows ≡ some inst
      → select id (keep (λ r. not (is_row o other r)) rows) ≡ some inst
  unfolding select
  select-keep_mine o other [] h e s = s
  select-keep_mine o other ((j, i) ∷ rows) h e s =
      ground (arith, select-keep_mine o other rows h e, ==_iff i.owner o, ==_iff o owner)

  delete-Holds :
      (o : ℕ) (other : Text) (w : World)
      → (o == owner) ≡ false
      → Holds w
      → Holds (delete_by_openstack_id o other w).1
  unfolding delete_by_openstack_id
  delete-Holds o other w h (s, e) = (ground (arith, select-keep_mine o other w.rows h e s), e)

  update-Holds :
      (o : ℕ) (other : Text) (req : UpdateInstanceRequest) (w : World)
      → (o == owner) ≡ false
      → Holds w
      → Holds (update_instance_metadata o other req w).1
  update-Holds o other req w h (s, e) = elim (update_cases o other req w).1 [
    | inl kept ↦ (rw kept s, e)
    | inr (i, here, owned, is) ↦ (
      rw is (
          ground (
            arith,
            select-upsert other id (updated req i) w.rows,
            text_eq_iff other id,
            ==_iff o owner,
          )),
      e,
    )
  ]

  save-Holds :
      (new : Text) (made : Instance) (w : World) → Holds w → Holds (save_instance new made w).1
  save-Holds new made w (s, e) = elim (save_cases new made w).1 [
    | inl (kept, failed) ↦ (rw kept s, e)
    | inr (free, done, is) ↦
        (rw is (ground (arith, select-upsert new id made w.rows, text_eq_iff new id)), e)
  ]

  other-IsKept : (o : ℕ) → (o == owner) ≡ false → IsKept Holds o
  unfolding find_by_openstack_id list_by_owner
  other-IsKept o h = record {
    ask_keeps = λ c w p. p;
    find_keeps = λ j w p. (ground (arith, p), p.1);
    list_keeps = λ w p. (ground (arith, p), p.1);
    save_keeps = λ j i w e p. save-Holds j i w p;
    update_keeps = λ j req w p. update-Holds o j req w h p;
    delete_keeps = λ j w yes p. delete-Holds o j _ h p;
    prune_keeps = λ j w yes p. delete-Holds o j _ h p;
  }

  -- Other owners' calls, however many and whatever fails, leave an owner's row as it was.
  pub run-Holds : (cs : List (ℕ × Call)) (w : World) → All IsOther cs → Holds w → Holds (run w cs)
  run-Holds cs w others p = run-keeps Holds IsOther (λ o c h. other-IsKept o h) cs w others p
