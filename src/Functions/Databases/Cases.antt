-- ===== src/Functions/Databases/Cases.antt =====
-- The ways in which each method that writes can end.
use rcp_server.Base.{
  ℕ, ◌≡◌, ◌≢◌, ◌⊎◌, ◌<◌, Bool, true, false, not, ◌&&◌, ◌∷◌, arith, Text, count, keep, any, ◌==◌,
}
use rcp_server.Functions.Errors.{Result, ok, err}
use rcp_server.Table.{numbers, select, upsert}
use rcp_server.Functions.Exec.{Uuid, Database, Tables, World, binding_keys, spend}
use rcp_server.Functions.Databases.{
  valid_database_name, max_databases_per_owner, clashes, owned, has, binding, place_database,
  create_named, delete_database, bind_database, unbind_database,
}

abbrev pub with_database : Uuid → Database → Tables → Tables
with_database id d t = record t { app_databases = (id, d) ∷ t.app_databases }

abbrev pub is_ok {ℓ} : {A : Type ℓ} → Result A → Bool
is_ok (ok a) = true
is_ok (err e) = false

module _ (owner : Uuid) (name : Text) (id : Uuid) (now : ℕ) (w : World) where
  abbrev pub new_row : Database
  new_row = record { owner = owner; name = name; created_at = now }

  -- The row is added only if it clashes with none; the file stays only if the call succeeds.
  pub record Placed : Type 0 where
    pub fresh : any (clashes id owner name) w.tables.app_databases ≡ false
    pub absent : has id w.files ≡ false
    pub tables : (place_database owner name id now w).1.tables ≡ with_database id new_row w.tables

  pub place_database_cases :
      Placed
      ⊎ (((place_database owner name id now w).1.tables ≡ w.tables)
          × (is_ok (place_database owner name id now w).0 ≡ false))
  unfolding place_database
  place_database_cases = ground arith

-- the world after three calls that did not write
abbrev later : World → World
later w = record w { faults = (spend (spend (spend w.faults).1).1).1 }

module _ (owner : Uuid) (name : Text) (id : Uuid) (now : ℕ) (w : World) where
  -- a row that CreateDatabase added, and the tests that came before
  pub record Created : Type 0 where
    pub named : valid_database_name name ≡ true
    pub below : count (λ r. r.1.owner == owner) w.tables.app_databases < max_databases_per_owner
    pub fresh : any (clashes id owner name) w.tables.app_databases ≡ false
    pub tables :
        (create_named owner name id now w).1.tables
        ≡ with_database id (new_row owner name id now w) w.tables

  pub create_named_cases :
      Created
      ⊎ (((create_named owner name id now w).1.tables ≡ w.tables)
          × (is_ok (create_named owner name id now w).0 ≡ false))
  unfolding create_named
  create_named_cases = ground (arith, place_database_cases owner name id now (later w))

-- the tables after a DeleteDatabase that commits
abbrev pub without_database : Uuid → Uuid → Tables → Tables
without_database owner id t = record t {
  app_database_bindings = keep (λ r. not (r.0.owner == owner && r.1 == id)) t.app_database_bindings;
  app_databases = keep (λ r. not (r.1.owner == owner && r.0 == id)) t.app_databases;
}

abbrev pub with_binding : Uuid → Uuid → Uuid → Text → Tables → Tables
with_binding owner function database alias t = record t {
  app_database_bindings = upsert (binding owner function alias) database t.app_database_bindings;
}

module _ (owner : Uuid) (w : World) where
  pub delete_database_cases :
      (id : Uuid)
      → ((owned owner (select id w.tables.app_databases) ≡ true)
          × ((delete_database owner id w).1.tables ≡ without_database owner id w.tables))
        ⊎ (((delete_database owner id w).0 ≢ ok tt)
            × ((delete_database owner id w).1.tables ≡ w.tables))
  unfolding delete_database
  delete_database_cases id = ground arith

  pub bind_database_cases :
      (function database : Uuid) (alias : Text)
      → ((owned owner (select database w.tables.app_databases) ≡ true)
          × ((bind_database owner function database alias w).1.tables
              ≡ with_binding owner function database alias w.tables))
        ⊎ (((bind_database owner function database alias w).0 ≢ ok tt)
            × ((bind_database owner function database alias w).1.tables ≡ w.tables))
  unfolding bind_database
  bind_database_cases function database alias = ground arith

  pub unbind_database_cases :
      (function : Uuid) (alias : Text)
      → ((unbind_database owner function alias w).1.tables ≡ record w.tables {
        app_database_bindings =
            keep
              (λ r. not (binding_keys.same r.0 (binding owner function alias)))
              w.tables.app_database_bindings;
      })
        ⊎ ((unbind_database owner function alias w).1.tables ≡ w.tables)
  unfolding unbind_database
  unbind_database_cases function alias = ground arith
