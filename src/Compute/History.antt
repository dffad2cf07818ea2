-- ===== src/Compute/History.antt =====
-- Histories of calls of the compute service, each by an owner.
pub mod Rows
pub mod Runs
pub mod Keeps
pub mod Told
pub mod Owners
pub mod Orphans
mod Tests
use rcp_server.Base.{ℕ, List, [], ◌∷◌, Option, Text}
use rcp_server.Compute.Flavors.{Flavor}
use rcp_server.Compute.Instances.{
  CreateServerOpts, UpdateInstanceRequest, World, pause_instance, unpause_instance, delete_instance,
  update_instance,
}
use rcp_server.Compute.Creation.{create_instance}
use rcp_server.Compute.Listing.{get_instances}

pub data Call : Type 0 where
  creates_instance : (default_network : Text) (opts : CreateServerOpts) → Call
  updates : (id : Text) (req : UpdateInstanceRequest) → Call
  pauses_instance unpauses_instance deletes_instance : (id : Text) → Call
  lists : (fetched : Option (List Flavor)) → Call

unfoldable pub step : World → ℕ × Call → World
step w (o, creates_instance default_network opts) = (create_instance default_network o opts w).1
step w (o, updates id req) = (update_instance o id req w).1
step w (o, pauses_instance id) = (pause_instance o id w).1
step w (o, unpauses_instance id) = (unpause_instance o id w).1
step w (o, deletes_instance id) = (delete_instance o id w).1
step w (o, lists fetched) = (get_instances fetched o w).1

unfoldable pub run : World → List (ℕ × Call) → World
unfolding step
run w [] = w
run w (c ∷ cs) = run (step w c) cs
