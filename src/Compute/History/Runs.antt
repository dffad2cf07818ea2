-- ===== src/Compute/History/Runs.antt =====
-- How the methods of the compute service run, one call after the other.
use rcp_server.Base.{◌≡◌, refl, arith, Text, inl, inr, ◌⊎◌}
use rcp_server.Compute.Instances.{
  Instance, CreateServerOpts, Error, Result, ok, err, creates, deletes, fetches_all, World, Service,
  ask, ◌>>=◌, save_instance,
}
use rcp_server.Compute.Creation.{create_server, save_or_recall}
use rcp_server.Compute.Listing.{fetch_instances}

pub Result-cases :
    {A : Type 0} (r : Result A) → ((a : A) × (r ≡ ok a)) ⊎ ((e : Error) × (r ≡ err e))
Result-cases (ok a) = inl (a, refl)
Result-cases (err e) = inr (e, refl)

module _ {A B : Type 0} (m : Service A) (n : A → Service B) (w : World) where
  pub bind-ok : (a : A) → (m w).0 ≡ ok a → (m >>= n) w ≡ n a (m w).1
  bind-ok a h = ground arith

  pub bind-err : (e : Error) → (m w).0 ≡ err e → (m >>= n) w ≡ (err e, (m w).1)
  bind-err e h = ground arith

pub create_server-world :
    (opts : CreateServerOpts) (w : World) → (create_server opts w).1 ≡ (ask (creates opts) w).1
create_server-world opts w = ground arith

pub fetch_instances-world : (w : World) → (fetch_instances w).1 ≡ (ask fetches_all w).1
unfolding fetch_instances
fetch_instances-world w = ground arith

module _ (id : Text) (inst : Instance) (w : World) where
  pub save_or_recall-ok :
      (a : Unit {0})
      → (save_instance id inst w).0 ≡ ok a
      → (save_or_recall id inst w).1 ≡ (save_instance id inst w).1
  unfolding save_or_recall
  save_or_recall-ok a h = ground arith

  pub save_or_recall-err :
      (x : Error)
      → (save_instance id inst w).0 ≡ err x
      → (save_or_recall id inst w).1 ≡ (ask (deletes id) (save_instance id inst w).1).1
  unfolding save_or_recall
  save_or_recall-err x h = ground arith
