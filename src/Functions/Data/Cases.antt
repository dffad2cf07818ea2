-- ===== src/Functions/Data/Cases.antt =====
-- The two ways in which each method that writes can end.
use rcp_server.Base.{
  ℕ, ◌≡◌, ◌≢◌, ◌⊎◌, ◌<◌, Bool, true, none, arith, Text, count, keep, not, ◌&&◌, ◌==◌,
}
use rcp_server.Functions.Errors.{Error, ok, err}
use rcp_server.Table.{select, upsert}
use rcp_server.Functions.Exec.{Uuid, ItemKey, ItemValue, Tables, World, item_keys, scopes}
use rcp_server.Functions.Data.{
  valid_collection, valid_data_key, valid_value, item, item_key, in_scope, scope, exists, put,
  delete, delete_function, max_data_items_per_function,
}

-- The item is there already, or its function has fewer than the most items.
abbrev pub HasRoom : Uuid → Uuid → Text → Text → Tables → Type 0
HasRoom owner function collection key t =
    (exists (select (item_key owner function collection key) t.function_data) ≡ true)
    ⊎ (count (λ r. in_scope owner function r.0) t.function_data < max_data_items_per_function)

module _ (owner function : Uuid) (collection key value : Text) (now : ℕ) (w : World) where
  abbrev new_value : ItemValue
  new_value = record { value = value; updated_at = now }

  pub record Stored : Type 0 where
    pub collection_fits : valid_collection collection ≡ true
    pub key_fits : valid_data_key key ≡ true
    pub value_fits : valid_value value ≡ true
    pub live : select (scope owner function) w.tables.deleted_functions ≡ none
    pub has_room : HasRoom owner function collection key w.tables
    pub result :
        (put owner function collection key value now w).0 ≡ ok (item collection key new_value)
    pub tables : (put owner function collection key value now w).1.tables ≡ record w.tables {
      function_data =
          upsert (item_key owner function collection key) new_value w.tables.function_data;
    }

  pub put_cases :
      Stored
      ⊎ ((e : Error) × ((put owner function collection key value now w).0 ≡ err e)
          × ((put owner function collection key value now w).1.tables ≡ w.tables))
  unfolding put
  put_cases = ground arith

-- the tables after a DeleteFunction that commits
abbrev pub dropped : Uuid → Uuid → Tables → Tables
dropped owner function t = record t {
  function_data = keep (λ r. not (in_scope owner function r.0)) t.function_data;
  app_database_bindings =
      keep (λ r. not (r.0.owner == owner && r.0.function == function)) t.app_database_bindings;
  deleted_functions = upsert (scope owner function) tt t.deleted_functions;
}

-- the tables after a Delete
abbrev pub is_row : Uuid → Uuid → Text → Text → ItemKey × ItemValue → Bool
is_row owner function collection key r = item_keys.same r.0 (item_key owner function collection key)

abbrev pub removed : Uuid → Uuid → Text → Text → Tables → Tables
removed owner function collection key t = record t {
  function_data = keep (λ r. not (is_row owner function collection key r)) t.function_data;
}

module _ (owner function : Uuid) (w : World) where
  -- Either all three statements took effect, or none did.
  pub delete_function_cases :
      (((delete_function owner function w).0 ≡ ok tt)
        × ((delete_function owner function w).1.tables ≡ dropped owner function w.tables))
      ⊎ ((e : Error) × ((delete_function owner function w).0 ≡ err e)
          × ((delete_function owner function w).1.tables ≡ w.tables))
  unfolding delete_function
  delete_function_cases = ground arith

  pub delete_cases :
      (collection key : Text)
      → ((delete owner function collection key w).1.tables
          ≡ removed owner function collection key w.tables)
        ⊎ (((delete owner function collection key w).0 ≢ ok tt)
            × ((delete owner function collection key w).1.tables ≡ w.tables))
  unfolding delete
  delete_cases collection key = ground arith
