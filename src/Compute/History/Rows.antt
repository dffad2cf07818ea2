-- ===== src/Compute/History/Rows.antt =====
-- What an update of the metadata and a save do to the rows.
use rcp_server.Base.{
  ℕ, ◌≡◌, none, some, arith, Text, ◌⊎◌, inl, inr, Option-cases, Bool-cases, ◌==◌, ==_iff,
}
use rcp_server.Table.{texts, select, upsert}
use rcp_server.Compute.Instances.{
  Instance, UpdateInstanceRequest, World, updated, save_instance, update_instance_metadata,
  next_fault, ok, err, operation_failed,
}

pub update_cases :
    (owner : ℕ) (id : Text) (req : UpdateInstanceRequest) (w : World)
    → ((update_instance_metadata owner id req w).1.calls ≡ w.calls)
      × (((update_instance_metadata owner id req w).1.rows ≡ w.rows)
          ⊎ ((inst : Instance) × (select id w.rows ≡ some inst)
              × (inst.owner ≡ owner)
              × ((update_instance_metadata owner id req w).1.rows
                  ≡ upsert id (updated req inst) w.rows)))
unfolding update_instance_metadata
update_cases owner id req w = elim (Bool-cases (next_fault w.faults).0) [
  | inl failed ↦ (ground arith, inl (ground arith))
  | inr works ↦ elim (Option-cases (select id w.rows)) [
    | inl absent ↦ (ground arith, inl (ground arith))
    | inr (inst, here) ↦ elim (Bool-cases (inst.owner == owner)) [
      | inl same ↦
          (ground arith, inr (inst, here, ground (arith, ==_iff inst.owner owner), ground arith))
      | inr other ↦ (ground arith, inl (ground arith))
    ]
  ]
]

pub save_cases :
    (id : Text) (inst : Instance) (w : World)
    → ((save_instance id inst w).1.calls ≡ w.calls)
      × ((((save_instance id inst w).1.rows ≡ w.rows)
            × ((save_instance id inst w).0 ≡ err operation_failed))
          ⊎ ((select id w.rows ≡ none)
              × ((save_instance id inst w).0 ≡ ok tt)
              × ((save_instance id inst w).1.rows ≡ upsert id inst w.rows)))
unfolding save_instance
save_cases id inst w = ground arith
