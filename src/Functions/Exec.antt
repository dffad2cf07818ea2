-- ===== src/Functions/Exec.antt =====
-- Methods of `DataStore`: they may fail, and what they wrote before an error stays written, so the
-- state comes back beside the error. The state and its transactions are those of data.go.
pub mod Transactions
use rcp_server.Base.{
  ℕ, ◌≡◌, refl, Bool, true, false, List, [], ◌∷◌, if◌then◌else◌, Text, text_eq, text_eq_iff, ◌==◌,
  ◌&&◌, ◌↔◌, arith, ==_iff, Option,
}
use rcp_server.Functions.Errors.{Error, Result, ok, err, unavailable_call}
use rcp_server.Table.{Key}

-- A UUID is a number here: the code only compares them. uuid.Nil is 0.
abbrev pub Uuid : Type 0
Uuid = ℕ

-- PRIMARY KEY (owner_id, function_id, collection, item_key)
pub record ItemKey : Type 0 where
  pub owner : Uuid
  pub function : Uuid
  pub collection : Text
  pub item_key : Text

pub record ItemValue : Type 0 where
  pub value : Text
  pub updated_at : ℕ

-- PRIMARY KEY (owner_id, function_id)
pub record Scope : Type 0 where
  pub owner : Uuid
  pub function : Uuid

-- PRIMARY KEY (owner_id, function_id, alias)
pub record BindingKey : Type 0 where
  pub owner : Uuid
  pub function : Uuid
  pub alias : Text

-- a row of app_databases beside its id
pub record Database : Type 0 where
  pub owner : Uuid
  pub name : Text
  pub created_at : ℕ

pub record Tables : Type 0 where
  pub function_data : List (ItemKey × ItemValue)
  pub deleted_functions : List (Scope × Unit {0})
  pub app_databases : List (Uuid × Database)
  pub app_database_bindings : List (BindingKey × Uuid)

-- `faults` says of each coming call of the driver or the file system whether it fails; when the
-- list has run out, calls succeed. `files` are the database files in the store's directory.
pub record World : Type 0 where
  pub tables : Tables
  pub files : List Uuid
  pub faults : List Bool

unfoldable pub item_key_same : ItemKey → ItemKey → Bool
item_key_same a b =
    a.owner == b.owner
    && a.function == b.function
    && text_eq a.collection b.collection
    && text_eq a.item_key b.item_key

unfoldable pub scope_same : Scope → Scope → Bool
scope_same a b = a.owner == b.owner && a.function == b.function

unfoldable pub binding_same : BindingKey → BindingKey → Bool
binding_same a b = a.owner == b.owner && a.function == b.function && text_eq a.alias b.alias

pub item_key_same_iff : (a b : ItemKey) → (item_key_same a b ≡ true) ↔ (a ≡ b)
unfolding item_key_same
item_key_same_iff a b =
    ground (arith, text_eq_iff a.collection b.collection, text_eq_iff a.item_key b.item_key)

pub scope_same_iff : (a b : Scope) → (scope_same a b ≡ true) ↔ (a ≡ b)
unfolding scope_same
scope_same_iff a b = ground arith

pub binding_same_iff : (a b : BindingKey) → (binding_same a b ≡ true) ↔ (a ≡ b)
unfolding binding_same
binding_same_iff a b = ground (arith, text_eq_iff a.alias b.alias)

instance abbrev pub item_keys : Key ItemKey
item_keys = record { same = item_key_same; same_iff = item_key_same_iff }

instance abbrev pub scopes : Key Scope
scopes = record { same = scope_same; same_iff = scope_same_iff }

instance abbrev pub binding_keys : Key BindingKey
binding_keys = record { same = binding_same; same_iff = binding_same_iff }

abbrev pub Exec : Type 0 → Type 0
Exec A = World → Result A × World

abbrev pub pure : {A : Type 0} → A → Exec A
pure a w = (ok a, w)

abbrev pub raise : {A : Type 0} → Error → Exec A
raise e w = (err e, w)

abbrev pub continue : {A B : Type 0} → Result A → (A → Exec B) → Exec B
continue (ok a) f w = f a w
continue (err e) f w = (err e, w)

infixl 10 ◌>>=◌ ◌>>◌
abbrev pub ◌>>=◌ : {A B : Type 0} → Exec A → (A → Exec B) → Exec B
◌>>=◌ m f w = let (r, w') = m w in continue r f w'

abbrev pub ◌>>◌ : {A B : Type 0} → Exec A → Exec B → Exec B
m >> n = m >>= λ _. n

-- One call of the driver or the file system.
abbrev pub spend : List Bool → Result (Unit {0}) × List Bool
spend [] = (ok tt, [])
spend (true ∷ rest) = (err unavailable_call, rest)
spend (false ∷ rest) = (ok tt, rest)

abbrev pub attempt : Exec (Unit {0})
attempt w = let (r, rest) = spend w.faults in (r, record w { faults = rest })

-- QueryRowContext and QueryContext, ExecContext
abbrev pub query : {A : Type 0} → (Tables → A) → Exec A
query f = attempt >> λ w. (ok (f w.tables), w)

abbrev pub exec : (Tables → Tables) → Exec (Unit {0})
exec f = attempt >> λ w. (ok tt, record w { tables = f w.tables })

-- ExecContext and RowsAffected: what was written stays written if the second fails.
abbrev pub exec_count : (Tables → ℕ × Tables) → Exec ℕ
exec_count f =
    attempt >> λ w. let (n, t) = f w.tables in (attempt >> pure n) (record w { tables = t })

-- BeginTx, Commit and the deferred Rollback: whatever fails, the tables are those of the start.
abbrev pub settle : {A : Type 0} → Tables → Result A × World → Result A × World
settle saved (err e, w) = (err e, record w { tables = saved })
settle saved (ok a, w) =
    let (r, w') = attempt w in
    elim r [ ok _ ↦ (ok a, w') | err e ↦ (err e, record w' { tables = saved }) ]

abbrev pub transaction : {A : Type 0} → Exec A → Exec A
transaction body = attempt >> λ w. settle w.tables (body w)
