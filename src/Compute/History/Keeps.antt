-- ===== src/Compute/History/Keeps.antt =====
-- From the calls of the repository and of OpenStack to the methods made of them.
use rcp_server.Base.{
  ℕ, ◌≡◌, refl, sym, subst, true, List, [], ◌∷◌, Option, none, some, arith, Text, text_eq,
  Bool-cases, All, inl, inr,
}
use rcp_server.Compute.Flavors.{Flavor}
use rcp_server.Compute.Instances.{
  Instance, Server, CreateServerOpts, UpdateInstanceRequest, Error, ok, CloudCall, creates, renames,
  pauses, unpauses, deletes, fetches, fetches_all, World, Service, ask, accepts, ◌>>=◌,
  find_by_openstack_id, delete_by_openstack_id, save_instance, update_instance_metadata, found,
  cloud, pause_instance, unpause_instance, delete_instance, rename, filled, update_instance,
}
use rcp_server.Compute.Creation.{
  create_server, save_or_recall, instance_of, record_server, create_validated, create_instance,
}
use rcp_server.Compute.Listing.{
  list_by_owner, fetch_instances, is_not_found, prune_one, prune_stale_instances, given, split_rows,
  join_and_prune, with_servers, with_rows, get_instances,
}
use rcp_server.Compute.History.Runs.{
  Result-cases, bind-ok, bind-err, create_server-world, fetch_instances-world, save_or_recall-ok,
  save_or_recall-err,
}
use rcp_server.Compute.History.{
  Call, creates_instance, updates, pauses_instance, unpauses_instance, deletes_instance, lists,
  step, run,
}

-- the calls that an owner's methods are made of, each where the service makes it
pub record IsKept (P : World → Type 0) (o : ℕ) : Type 0 where
  pub ask_keeps : (c : CloudCall) (w : World) → P w → P (ask c w).1
  pub find_keeps : (id : Text) (w : World) → P w → P (find_by_openstack_id o id w).1
  pub list_keeps : (w : World) → P w → P (list_by_owner o w).1
  pub save_keeps :
      (id : Text) (inst : Instance) (w : World)
      → inst.owner ≡ o
      → P w
      → P (save_instance id inst w).1
  pub update_keeps :
      (id : Text) (req : UpdateInstanceRequest) (w : World)
      → P w
      → P (update_instance_metadata o id req w).1
  pub delete_keeps :
      (id : Text) (w : World)
      → accepts (ask (deletes id) w).0 ≡ true
      → P w
      → P (delete_by_openstack_id o id (ask (deletes id) w).1).1
  pub prune_keeps :
      (id : Text) (w : World)
      → is_not_found (ask (fetches id) w).0 ≡ true
      → P w
      → P (delete_by_openstack_id o id (ask (fetches id) w).1).1

module _ (P : World → Type 0) (o : ℕ) (k : IsKept P o) where
  bind_keeps :
      {A B : Type 0} (m : Service A) (n : A → Service B) (w : World)
      → P (m w).1
      → ((a : A) → (m w).0 ≡ ok a → P (n a (m w).1).1)
      → P ((m >>= n) w).1
  bind_keeps m n w p q = elim (Result-cases (m w).0) [
    | inl (a, h) ↦ subst (λ x. P x.1) (sym (bind-ok m n w a h)) (q a h)
    | inr (e, h) ↦ subst (λ x. P x.1) (sym (bind-err m n w e h)) p
  ]

  found_keeps :
      {A : Type 0} (n : Instance → Service A) (r : Option Instance) (w : World)
      → P w
      → ((inst : Instance) → P (n inst w).1)
      → P (found n r w).1
  found_keeps n none w p q = p
  found_keeps n (some inst) w p q = q inst

  -- a method on an instance that the owner has
  on_instance :
      {A : Type 0} (n : Instance → Service A) (id : Text) (w : World)
      → P w
      → ((inst : Instance) (v : World) → P v → P (n inst v).1)
      → P ((find_by_openstack_id o id >>= found n) w).1
  on_instance n id w p q =
      bind_keeps (find_by_openstack_id o id) (found n) w (k.find_keeps id w p) (λ r h.
        found_keeps n r (find_by_openstack_id o id w).1 (k.find_keeps id w p)
          (λ inst. q inst _ (k.find_keeps id w p)))

  cloud_keeps : (c : CloudCall) (w : World) → P w → P (cloud c w).1
  cloud_keeps c w p = elim (Bool-cases (accepts (ask c w).0)) [
    | inl h ↦ rw h (k.ask_keeps c w p)
    | inr h ↦ rw h (k.ask_keeps c w p)
  ]

  pause_instance-keeps : (id : Text) (w : World) → P w → P (pause_instance o id w).1
  unfolding pause_instance
  pause_instance-keeps id w p = on_instance _ id w p (λ inst v q. cloud_keeps (pauses id) v q)

  unpause_instance-keeps : (id : Text) (w : World) → P w → P (unpause_instance o id w).1
  unfolding unpause_instance
  unpause_instance-keeps id w p = on_instance _ id w p (λ inst v q. cloud_keeps (unpauses id) v q)

  cloud-ok :
      (c : CloudCall) (w : World)
      → (cloud c w).0 ≡ ok tt
      → (accepts (ask c w).0 ≡ true) × ((cloud c w).1 ≡ (ask c w).1)
  cloud-ok c w h = ground arith

  delete_instance-keeps : (id : Text) (w : World) → P w → P (delete_instance o id w).1
  unfolding delete_instance
  delete_instance-keeps id w p = on_instance _ id w p (λ inst v q.
      bind_keeps (cloud (deletes id)) (λ _. delete_by_openstack_id o id) v
        (cloud_keeps (deletes id) v q)
        (λ a h.
          rw ((cloud-ok (deletes id) v h).1) (k.delete_keeps id v (cloud-ok (deletes id) v h).0 q)))

  rename-keeps : (id old name : Text) (w : World) → P w → P (rename id old name w).1
  rename-keeps id old name w p = elim (Bool-cases (text_eq name old)) [
    | inl h ↦ rw h p
    | inr h ↦ rw h (cloud_keeps (renames id name) w p)
  ]

  update_instance-keeps :
      (id : Text) (req : UpdateInstanceRequest) (w : World) → P w → P (update_instance o id req w).1
  unfolding update_instance
  update_instance-keeps id req w p = on_instance _ id w p (λ inst v q.
      bind_keeps (rename id inst.name (filled inst req).name)
        (λ _. update_instance_metadata o id (filled inst req)) v
        (rename-keeps id inst.name (filled inst req).name v q)
        (λ a h.
          k.update_keeps id (filled inst req) _
            (rename-keeps id inst.name (filled inst req).name v q)))

  create_server-keeps : (opts : CreateServerOpts) (w : World) → P w → P (create_server opts w).1
  create_server-keeps opts w p =
      subst P (sym (create_server-world opts w)) (k.ask_keeps (creates opts) w p)

  save_or_recall-keeps :
      (id : Text) (inst : Instance) (w : World)
      → inst.owner ≡ o
      → P w
      → P (save_or_recall id inst w).1
  unfolding save_or_recall
  save_or_recall-keeps id inst w e p = elim (Result-cases (save_instance id inst w).0) [
    | inl (a, h) ↦ subst P (sym (save_or_recall-ok id inst w a h)) (k.save_keeps id inst w e p)
    | inr (x, h) ↦
        subst P (sym (save_or_recall-err id inst w x h))
          (k.ask_keeps (deletes id) _ (k.save_keeps id inst w e p))
  ]

  saves :
      (server : Server) (opts : CreateServerOpts) (w : World)
      → P w
      → P (save_or_recall server.id (instance_of o opts server) w).1
  unfolding instance_of
  saves server opts w p = save_or_recall-keeps server.id _ w refl p

  record_server-keeps :
      (opts : CreateServerOpts) (server : Server) (w : World)
      → P w
      → P (record_server o opts server w).1
  unfolding record_server
  record_server-keeps opts server w p =
      bind_keeps (save_or_recall server.id (instance_of o opts server)) (λ _ v. (ok server, v)) w
        (saves server opts w p) (λ a saved. saves server opts w p)

  create_validated-keeps :
      (opts : CreateServerOpts) (e : Option Error) (w : World)
      → P w
      → P (create_validated o opts e w).1
  unfolding create_validated
  create_validated-keeps opts (some e) w p = p
  create_validated-keeps opts none w p =
      bind_keeps (create_server opts) (record_server o opts) w (create_server-keeps opts w p)
        (λ server made. record_server-keeps opts server _ (create_server-keeps opts w p))

  create_instance-keeps :
      (default_network : Text) (raw : CreateServerOpts) (w : World)
      → P w
      → P (create_instance default_network o raw w).1
  unfolding create_instance
  create_instance-keeps default_network raw w p = create_validated-keeps _ _ w p

  prune_one-keeps : (id : Text) (w : World) → P w → P (prune_one o id w).1
  unfolding prune_one
  prune_one-keeps id w p = elim (Bool-cases (is_not_found (ask (fetches id) w).0)) [
    | inl h ↦ rw h (k.prune_keeps id w h p)
    | inr h ↦ rw h (k.ask_keeps (fetches id) w p)
  ]

  prune-keeps : (stale : List Text) (w : World) → P w → P (prune_stale_instances o stale w).1
  unfolding prune_stale_instances
  prune-keeps [] w p = p
  prune-keeps (id ∷ stale) w p =
      subst P (ground arith) (prune-keeps stale (prune_one o id w).1 (prune_one-keeps id w p))

  fetch_instances-keeps : (w : World) → P w → P (fetch_instances w).1
  fetch_instances-keeps w p = subst P (sym (fetch_instances-world w)) (k.ask_keeps fetches_all w p)

  given_keeps : {A : Type 0} (r : Option A) (w : World) → P w → P (given r w).1
  given_keeps none w p = p
  given_keeps (some a) w p = p

  join_and_prune-keeps :
      (rows : List (Text × Instance)) (servers : List Server) (flavors : List Flavor) (w : World)
      → P w
      → P (join_and_prune o rows servers flavors w).1
  unfolding join_and_prune
  join_and_prune-keeps rows servers flavors w p =
      prune-keeps (split_rows flavors servers rows).1 w p

  with_servers-keeps :
      (fetched : Option (List Flavor)) (rows : List (Text × Instance)) (servers : List Server)
      (w : World)
      → P w
      → P (with_servers fetched o rows servers w).1
  unfolding with_servers
  with_servers-keeps fetched rows servers w p =
      bind_keeps (given fetched) (join_and_prune o rows servers) w (given_keeps fetched w p)
        (λ flavors is. join_and_prune-keeps rows servers flavors _ (given_keeps fetched w p))

  with_rows-keeps :
      (fetched : Option (List Flavor)) (rows : List (Text × Instance)) (w : World)
      → P w
      → P (with_rows fetched o rows w).1
  unfolding with_rows
  with_rows-keeps fetched rows w p =
      bind_keeps fetch_instances (with_servers fetched o rows) w (fetch_instances-keeps w p)
        (λ servers is. with_servers-keeps fetched rows servers _ (fetch_instances-keeps w p))

  get_instances-keeps :
      (fetched : Option (List Flavor)) (w : World) → P w → P (get_instances fetched o w).1
  unfolding get_instances
  get_instances-keeps fetched w p =
      bind_keeps (list_by_owner o) (with_rows fetched o) w (k.list_keeps w p)
        (λ rows is. with_rows-keeps fetched rows _ (k.list_keeps w p))

  pub step-keeps : (c : Call) (w : World) → P w → P (step w (o, c))
  unfolding step
  step-keeps (creates_instance default_network opts) w p =
      create_instance-keeps default_network opts w p
  step-keeps (updates id req) w p = update_instance-keeps id req w p
  step-keeps (pauses_instance id) w p = pause_instance-keeps id w p
  step-keeps (unpauses_instance id) w p = unpause_instance-keeps id w p
  step-keeps (deletes_instance id) w p = delete_instance-keeps id w p
  step-keeps (lists fetched) w p = get_instances-keeps fetched w p

-- what every owner's calls keep, a history keeps
pub run-keeps :
    (P : World → Type 0) (Q : ℕ × Call → Type 0)
    → ((o : ℕ) (c : Call) → Q (o, c) → IsKept P o)
    → (cs : List (ℕ × Call)) (w : World) → All Q cs
    → P w
    → P (run w cs)
unfolding run
run-keeps P Q kept [] w q p = p
run-keeps P Q kept ((o, c) ∷ cs) w (here, q) p =
    run-keeps P Q kept cs (step w (o, c)) q (step-keeps P o (kept o c here) c w p)

pub trivial : (cs : List (ℕ × Call)) → All (λ c. Unit {0}) cs
trivial [] = tt
trivial (c ∷ cs) = (tt, trivial cs)
