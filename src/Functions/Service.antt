-- ===== src/Functions/Service.antt =====
-- service.go and repository.go of internal/domain/functions, on the functions of an owner: the rows of the
-- database, and the data store where the service has one. createMu is held over the count and the
-- insertion, so a creation is one step. The key's columns stand in Keys.
pub mod Kept
pub mod Rows
pub mod History
pub mod Owners
mod Tests
use rcp_server.Base.{
  ℕ, ◌≡◌, Bool, true, false, not, ◌&&◌, ◌||◌, List, [], ◌∷◌, ◌++◌, Option, none, some, length, leb,
  ltb, ◌==◌, if◌then◌else◌, Text, text_eq, codes, keep, count, any, ℤ,
}
use rcp_server.Stdlib.Strings.{trim_space, to_lower, matches_name, is_lower_letter, is_digit}
use rcp_server.Table.{numbers, select, upsert}
use rcp_server.Functions.Errors.{
  Error, Result, ok, err, invalid_name, not_found, conflict, limit, invalid_language, source_size,
  build_unavailable, data_unavailable, unavailable_call,
}
use rcp_server.Functions.Exec.{Uuid, World, Exec}
use rcp_server.Functions.Data
use rcp_server.Functions.Data.{DataItem}
use rcp_server.Functions.Databases.{bind_database, unbind_database}
use rcp_server.Functions.Validation.{Signature, Compiled, validate}

abbrev pub max_functions_per_user : ℕ
max_functions_per_user = 20

abbrev pub max_source_bytes : ℕ
max_source_bytes = 262144

-- a row of functions beside its id
pub record FunctionRow : Type 0 where
  pub owner : Uuid
  pub name : Text
  pub language : Text
  pub source : Text
  pub wasm : Text
  pub data_mode : Bool

pub record Deployment : Type 0 where
  pub language : Text
  pub source : Text
  pub wasm : Text
  pub data_mode : Bool

abbrev pub Functions : Type 0
Functions = List (Uuid × FunctionRow)

-- the database, which fails where `faults` says so, and the store of DataStore
pub record Api : Type 0 where
  pub functions : Functions
  pub faults : List Bool
  pub store : Option World

abbrev pub Op : Type 0 → Type 0
Op A = Api → Result A × Api

abbrev pub continue : {A B : Type 0} → (A → Op B) → Result A × Api → Result B × Api
continue k (ok a, s) = k a s
continue k (err e, s) = (err e, s)

infixl 30 ◌>>=◌
abbrev pub ◌>>=◌ : {A B : Type 0} → Op A → (A → Op B) → Op B
(m >>= k) s = continue k (m s)

abbrev pub fail : {A : Type 0} → Error → Op A
fail e s = (err e, s)

abbrev pub next_fault : List Bool → Bool × List Bool
next_fault [] = (false, [])
next_fault (f ∷ fs) = (f, fs)

abbrev pub after_repo : {A : Type 0} → Api → Result (A × Functions) → Result A × Api
after_repo s (ok (a, rows)) = (ok a, record s { functions = rows })
after_repo s (err e) = (err e, s)

abbrev pub repo : {A : Type 0} → (Functions → Result (A × Functions)) → Op A
repo run s =
    let (failed, rest) = next_fault s.faults in
    let t : Api = record s { faults = rest } in
    if failed then (err unavailable_call, t) else after_repo t (run s.functions)

abbrev pub is_of : Uuid → Uuid × FunctionRow → Bool
is_of owner r = r.1.owner == owner

abbrev pub mine : Uuid → Option FunctionRow → Result FunctionRow
mine owner none = err not_found
mine owner (some row) = if row.owner == owner then ok row else err not_found

abbrev pub with_rows : {A : Type 0} → Functions → Result A → Result (A × Functions)
with_rows rows (ok a) = ok (a, rows)
with_rows rows (err e) = err e

-- Get of the repository
abbrev pub got : Uuid → Uuid → Functions → Result (FunctionRow × Functions)
got owner id rows = with_rows rows (mine owner (select id rows))

unfoldable pub get_row : Uuid → Uuid → Op FunctionRow
get_row owner id = repo (got owner id)

-- the length of what List of the repository returns
unfoldable pub count_rows : Uuid → Op ℕ
count_rows owner = repo (λ rows. ok (count (is_of owner) rows, rows))

-- an index on name and owner is unique, and so is the id
abbrev pub clashes : Uuid → Text → Uuid → Uuid × FunctionRow → Bool
clashes owner name id r = r.0 == id || r.1.owner == owner && text_eq r.1.name name

abbrev pub row_of : Uuid → Text → Deployment → FunctionRow
row_of owner name d = record {
  owner = owner;
  name = name;
  language = d.language;
  source = d.source;
  wasm = d.wasm;
  data_mode = d.data_mode;
}

-- CreateDeployment of the repository, with the id that the row draws
abbrev pub inserted : Uuid → Uuid → Text → Deployment → Functions → Result (FunctionRow × Functions)
inserted id owner name d rows =
    if any (clashes owner name id) rows
    then err conflict
    else ok (row_of owner name d, upsert id (row_of owner name d) rows)

unfoldable pub create_deployment : Uuid → Uuid → Text → Deployment → Op FunctionRow
create_deployment id owner name d = repo (inserted id owner name d)

abbrev pub redeployed :
    Uuid → Deployment → Functions → Result FunctionRow → Result (FunctionRow × Functions)
redeployed id d rows (ok row) =
    let new = row_of row.owner row.name d in ok (new, upsert id new rows)
redeployed id d rows (err e) = err e

-- UpdateDeployment of the repository
abbrev pub rewritten : Uuid → Uuid → Deployment → Functions → Result (FunctionRow × Functions)
rewritten owner id d rows = redeployed id d rows (mine owner (select id rows))

unfoldable pub update_deployment : Uuid → Uuid → Deployment → Op FunctionRow
update_deployment owner id d = repo (rewritten owner id d)

abbrev pub is_row : Uuid → Uuid → Uuid × FunctionRow → Bool
is_row owner id r = r.0 == id && r.1.owner == owner

-- Delete of the repository
abbrev pub removed : Uuid → Uuid → Functions → Result (Unit {0} × Functions)
removed owner id rows =
    if any (is_row owner id) rows
    then ok (tt, keep (λ r. not (is_row owner id r)) rows)
    else err not_found

unfoldable pub delete_row : Uuid → Uuid → Op (Unit {0})
delete_row owner id = repo (removed owner id)

unfoldable pub valid_name : Text → Bool
valid_name = matches_name is_lower_letter (λ c. is_lower_letter c || is_digit c || c == b'-') 62

-- a method of the store, where there is one
abbrev pub put_store : {A : Type 0} → Api → Result A × World → Result A × Api
put_store s (r, w) = (r, record s { store = some w })

abbrev pub with_store : {A : Type 0} → Api → Exec A → Option World → Result A × Api
with_store s m none = (err data_unavailable, s)
with_store s m (some w) = put_store s (m w)

abbrev pub on_store : {A : Type 0} → Exec A → Op A
on_store m s = with_store s m s.store

-- `deployment.DataMode && s.data == nil`
abbrev pub lacks : Bool → Option World → Bool
lacks data_mode none = data_mode
lacks data_mode (some _) = false

abbrev pub unless_lacking : {A : Type 0} → Bool → Op A → Op A
unless_lacking data_mode m s = if lacks data_mode s.store then (err data_unavailable, s) else m s

-- what createMu guards
abbrev pub if_room : Uuid → Uuid → Text → Deployment → ℕ → Op FunctionRow
if_room id owner name d n =
    if leb max_functions_per_user n then fail limit else create_deployment id owner name d

unfoldable pub place : Uuid → Uuid → Text → Deployment → Op FunctionRow
place id owner name d = count_rows owner >>= if_room id owner name d

-- Create checks the data mode between the count and the insertion
abbrev pub if_room_and_store : Uuid → Uuid → Text → Deployment → ℕ → Op FunctionRow
if_room_and_store id owner name d n =
    if leb max_functions_per_user n
    then fail limit
    else unless_lacking d.data_mode (create_deployment id owner name d)

abbrev pub checked : {A : Type 0} → Result A → (A → Op FunctionRow) → Op FunctionRow
checked (err e) k = fail e
checked (ok a) k = k a

abbrev pub wasm_deployment : Text → Bool → Deployment
wasm_deployment wasm data_mode = record {
  language = codes "wasm";
  source = [];
  wasm = wasm;
  data_mode = data_mode;
}

abbrev pub is_language : Text → Bool
is_language l =
    text_eq l (codes "rust")
    || text_eq l (codes "go")
    || text_eq l (codes "javascript")
    || text_eq l (codes "python")

unfoldable pub function_name : Text → Text
function_name raw = trim_space (to_lower raw)

-- What the service has beside its rows: the functions of WASI, the compiler, the builder if it is set, and
-- how many slots are taken.
module _ (wasi : List (Text × Signature)) (compile : Text → Compiled) where
  abbrev pub built : ℕ → Text → Text → Bool → Option (Text → Text → Result Text) → Result Deployment
  built running language source data_mode none = err build_unavailable
  built running language source data_mode (some builder) = elim (builder language source) [
    | err e ↦ err e
    | ok wasm ↦ elim (validate wasi compile running wasm) [
      | err e ↦ err e
      | ok _ ↦
          ok (record { language = language; source = source; wasm = wasm; data_mode = data_mode })
    ]
  ]

  -- build, with the data mode that its callers add
  unfoldable pub build :
      Option (Text → Text → Result Text) → ℕ → Text → Text → Bool → Result Deployment
  build builder running language source data_mode =
      if not (is_language language)
      then err invalid_language
      else (if length source == 0 || ltb max_source_bytes (length source)
          then err source_size
          else built running language source data_mode builder)

  unfoldable pub create : ℕ → Uuid → Uuid → Text → Text → Bool → Op FunctionRow
  create running id owner raw wasm data_mode =
      if not (valid_name (function_name raw))
      then fail invalid_name
      else checked (validate wasi compile running wasm) (λ _.
        count_rows owner
        >>= if_room_and_store id owner (function_name raw) (wasm_deployment wasm data_mode))

  unfoldable pub create_source :
      Option (Text → Text → Result Text)
      → ℕ
      → Uuid
      → Uuid
      → Text
      → Text
      → Text
      → Bool
      → Op FunctionRow
  create_source builder running id owner raw language source data_mode =
      if not (valid_name (function_name raw))
      then fail invalid_name
      else checked (build builder running language source data_mode)
          (λ d. unless_lacking data_mode (place id owner (function_name raw) d))

  unfoldable pub update : ℕ → Uuid → Uuid → Text → Bool → Op FunctionRow
  update running owner id wasm data_mode =
      checked (validate wasi compile running wasm) (λ _.
        unless_lacking data_mode (update_deployment owner id (wasm_deployment wasm data_mode)))

  unfoldable pub update_source :
      Option (Text → Text → Result Text) → ℕ → Uuid → Uuid → Text → Text → Bool → Op FunctionRow
  update_source builder running owner id language source data_mode = get_row owner id >>= (λ _.
      checked (build builder running language source data_mode)
        (λ d. unless_lacking data_mode (update_deployment owner id d)))

-- a store that is not there is left out
abbrev pub with_store_or_not : Api → Exec (Unit {0}) → Option World → Result (Unit {0}) × Api
with_store_or_not s m none = (ok tt, s)
with_store_or_not s m (some w) = put_store s (m w)

abbrev pub if_stored : Exec (Unit {0}) → Op (Unit {0})
if_stored m s = with_store_or_not s m s.store

-- Delete of the service
unfoldable pub delete : Uuid → Uuid → Op (Unit {0})
delete owner id = delete_row owner id >>= (λ _. if_stored (Data.delete_function owner id))

-- dataFor, and what the methods on items do with the store that it gives
abbrev pub data_for : {A : Type 0} → Uuid → Uuid → Exec A → Op A
data_for owner id m = get_row owner id >>= (λ _. on_store m)

unfoldable pub list_data : Uuid → Uuid → Text → ℤ → Op (List DataItem)
list_data owner id collection offset = data_for owner id (Data.list owner id collection offset)

unfoldable pub get_data : Uuid → Uuid → Text → Text → Op DataItem
get_data owner id collection key = data_for owner id (Data.get owner id collection key)

unfoldable pub put_data : Uuid → Uuid → Text → Text → Text → ℕ → Op DataItem
put_data owner id collection key value now =
    data_for owner id (Data.put owner id collection key value now)

unfoldable pub delete_data : Uuid → Uuid → Text → Text → Op (Unit {0})
delete_data owner id collection key = data_for owner id (Data.delete owner id collection key)

abbrev pub if_data_mode : Exec (Unit {0}) → FunctionRow → Op (Unit {0})
if_data_mode m row = if row.data_mode then on_store m else fail data_unavailable

unfoldable pub bind : Uuid → Uuid → Uuid → Text → Op (Unit {0})
bind owner id database alias =
    get_row owner id >>= if_data_mode (bind_database owner id database alias)

unfoldable pub unbind : Uuid → Uuid → Text → Op (Unit {0})
unbind owner id alias = data_for owner id (unbind_database owner id alias)
