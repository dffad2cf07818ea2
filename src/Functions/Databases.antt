-- ===== src/Functions/Databases.antt =====
-- sql_database.go but for validateSQL and the queries: the databases of an owner, their files and
-- their bindings.
pub mod Cases
pub mod Invariant
pub mod Access
mod Tests
use rcp_server.Base.{
  ℕ, zero, suc, ◌≡◌, Bool, true, false, not, ◌&&◌, ◌||◌, List, [], ◌∷◌, ◌++◌, map, Option, none,
  some, leb, ltb, ◌==◌, if◌then◌else◌, Text, text_eq, length, keep, count, any,
}
use rcp_server.Stdlib.Strings.{
  trim_space, to_lower, matches_name, is_lower_letter, is_upper_letter, is_digit,
}
use rcp_server.Functions.Errors.{
  Error, Result, ok, err, invalid_database, database_limit, data_unavailable, conflict, not_found,
  sql_limit, timeout, unavailable_call,
}
use rcp_server.Table.{numbers, select, upsert}
use rcp_server.Functions.Order.{order_by}
use rcp_server.Functions.Exec.{
  Uuid, BindingKey, Database, Tables, World, binding_keys, Exec, pure, raise, attempt, query, exec,
  exec_count, transaction, ◌>>=◌, ◌>>◌,
}
use rcp_server.Functions.Sql.{Param, validate_sql}

abbrev pub max_databases_per_owner : ℕ
max_databases_per_owner = 10

pub record AppDatabase : Type 0 where
  pub id : Uuid
  pub name : Text
  pub created_at : ℕ

pub record DatabaseBinding : Type 0 where
  pub alias : Text
  pub database_id : Uuid
  pub database_name : Text

unfoldable pub valid_database_name : Text → Bool
valid_database_name =
    matches_name (λ c. is_lower_letter c) (λ c. is_lower_letter c || is_digit c || c == b'-') 62

unfoldable pub valid_binding_name : Text → Bool
valid_binding_name =
    matches_name (λ c. is_upper_letter c) (λ c. is_upper_letter c || is_digit c || c == b'_') 31

-- A failed call that the code answers with an error of its own.
abbrev pub attempt_or : Error → Exec (Unit {0})
attempt_or e w = let (r, w') = attempt w in elim r [ ok _ ↦ (ok tt, w') | err _ ↦ (err e, w') ]

abbrev pub has : Uuid → List Uuid → Bool
has id files = any (λ f. f == id) files

-- os.OpenFile with O_CREATE and O_EXCL
abbrev pub create_file : Uuid → Exec (Unit {0})
create_file id = attempt >> λ w.
    if has id w.files then (err unavailable_call, w) else (ok tt, record w { files = id ∷ w.files })

-- os.Remove
abbrev pub remove_file : Uuid → Exec (Unit {0})
remove_file id = attempt >> λ w.
    if has id w.files
    then (ok tt, record w { files = keep (λ f. not (f == id)) w.files })
    else (err unavailable_call, w)

-- a call whose error is dropped
abbrev pub ignore : Exec (Unit {0}) → Exec (Unit {0})
ignore m w = (ok tt, (m w).1)

-- `defer func() { if remove { os.Remove(path) } }()`
abbrev pub or_remove : {A : Type 0} → Uuid → Result A × World → Result A × World
or_remove id (ok a, w) = (ok a, w)
or_remove id (err e, w) = (err e, (remove_file id w).1)

abbrev pub removing : {A : Type 0} → Uuid → Exec A → Exec A
removing id body w = or_remove id (body w)

-- openDatabase: Lstat, sql.Open and the page limit
abbrev pub open_database : Uuid → Exec (Unit {0})
open_database id = do
  attempt_or data_unavailable
  (λ w. if has id w.files then (ok tt, w) else (err data_unavailable, w))
  attempt
  attempt

-- INSERT OR IGNORE INTO app_databases, with its primary key and UNIQUE(owner_id, name)
abbrev pub clashes : Uuid → Uuid → Text → Uuid × Database → Bool
clashes id owner name (i, d) = i == id || d.owner == owner && text_eq d.name name

abbrev pub insert_database : Uuid → Database → Tables → ℕ × Tables
insert_database id d t =
    if any (clashes id d.owner d.name) t.app_databases
    then (0, t)
    else (1, record t { app_databases = (id, d) ∷ t.app_databases })

-- CreateDatabase from its second call of the file system on: the file and then the row
unfoldable pub place_database : Uuid → Text → Uuid → ℕ → Exec AppDatabase
place_database owner name id now = do
  create_file id
  removing id attempt
  removing id (do
    open_database id
    inserted ←
        exec_count (insert_database id (record { owner = owner; name = name; created_at = now }))
    if inserted == 0
        then raise conflict
        else pure (record { id = id; name = name; created_at = now }))

-- CreateDatabase after it has normalised the name
unfoldable pub create_named : Uuid → Text → Uuid → ℕ → Exec AppDatabase
create_named owner name id now =
    if not (valid_database_name name) then raise invalid_database else do
      n ← query (λ t. count (λ r. r.1.owner == owner) t.app_databases)
      if leb max_databases_per_owner n
          then raise database_limit
          else do attempt; attempt_or data_unavailable; place_database owner name id now

-- `id` is what uuid.New returns, `now` what time.Now does.
unfoldable pub create_database : Uuid → Text → Uuid → ℕ → Exec AppDatabase
unfolding create_named place_database trim_space to_lower
create_database owner raw id now = create_named owner (trim_space (to_lower raw)) id now

unfoldable pub list_databases : Uuid → Exec (List AppDatabase)
list_databases owner = query λ t.
    order_by (λ (d : AppDatabase). d.name)
      (map (λ r. record { id = r.0; name = r.1.name; created_at = r.1.created_at })
        (keep (λ (r : Uuid × Database). r.1.owner == owner) t.app_databases))

-- SELECT … WHERE owner_id=? AND id=?
abbrev pub owned : Uuid → Option Database → Bool
owned owner none = false
owned owner (some d) = d.owner == owner

unfoldable pub database_owned : Uuid → Uuid → Exec (Unit {0})
database_owned owner id = do
  found ← query (λ t. owned owner (select id t.app_databases))
  if found then pure tt else raise not_found

unfoldable pub delete_database : Uuid → Uuid → Exec (Unit {0})
unfolding database_owned
delete_database owner id = do
  database_owned owner id
  transaction (do
    exec λ t. record t {
      app_database_bindings =
          keep (λ r. not (r.0.owner == owner && r.1 == id)) t.app_database_bindings;
    }
    exec λ t. record t {
      app_databases = keep (λ r. not (r.1.owner == owner && r.0 == id)) t.app_databases;
    })
  remove_file id

abbrev pub binding : Uuid → Uuid → Text → BindingKey
binding owner function alias = record { owner = owner; function = function; alias = alias }

unfoldable pub bind_database : Uuid → Uuid → Uuid → Text → Exec (Unit {0})
unfolding database_owned
bind_database owner function database alias =
    if not (valid_binding_name alias) then raise invalid_database else do
      database_owned owner database
      exec λ t. record t {
        app_database_bindings =
            upsert (binding owner function alias) database t.app_database_bindings;
      }

unfoldable pub unbind_database : Uuid → Uuid → Text → Exec (Unit {0})
unbind_database owner function alias =
    if not (valid_binding_name alias) then raise invalid_database else do
      let is_row = λ (r : BindingKey × Uuid). binding_keys.same r.0 (binding owner function alias)
      n ← exec_count λ t. (
        count is_row t.app_database_bindings,
        record t { app_database_bindings = keep (λ r. not (is_row r)) t.app_database_bindings },
      )
      if n == 0 then raise not_found else pure tt

-- JOIN app_databases d ON d.id=b.database_id AND d.owner_id=b.owner_id
abbrev pub joined : Tables → Uuid → Uuid → Option Database
joined t owner id = elim (select id t.app_databases) [
  | none ↦ none
  | some d ↦ if d.owner == owner then some d else none
]

abbrev pub join_rows : Tables → List (BindingKey × Uuid) → List DatabaseBinding
join_rows t [] = []
join_rows t ((k, id) ∷ rows) = elim (joined t k.owner id) [
  | none ↦ join_rows t rows
  | some d ↦ record { alias = k.alias; database_id = id; database_name = d.name } ∷ join_rows t rows
]

unfoldable pub list_bindings : Uuid → Uuid → Exec (List DatabaseBinding)
list_bindings owner function = query λ t.
    order_by (λ (b : DatabaseBinding). b.alias)
      (join_rows t (
        keep (λ (r : BindingKey × Uuid). r.0.owner == owner && r.0.function == function)
          t.app_database_bindings))
