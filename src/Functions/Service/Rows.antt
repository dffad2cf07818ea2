-- ===== src/Functions/Service/Rows.antt =====
-- The rows of functions: what they keep under an insertion, an update and a deletion.
use rcp_server.Base.{
  ◌≤◌, ◌≡◌, refl, Bool, true, false, not, ◌&&◌, ◌==◌, ==_iff, [], ◌∷◌, Option, none, some, Text,
  text_eq, text_eq_iff, arith, leb, All, All-keep, All-imp, keep, count, any,
}
use rcp_server.Table.{
  numbers, select, upsert, IsUnique, upsert-IsUnique, keep-IsUnique, All-upsert, All-select,
  count-upsert_row, count-keep-le,
}
use rcp_server.Functions.Exec.{Uuid, World}
use rcp_server.Functions.Service.{
  FunctionRow, Deployment, Functions, max_functions_per_user, is_of, clashes, row_of, is_row,
  valid_name, lacks,
}

abbrev pub is_named : Uuid → Text → Uuid × FunctionRow → Bool
is_named owner name r = r.1.owner == owner && text_eq r.1.name name

abbrev pub HasName : Uuid × FunctionRow → Type 0
HasName r = valid_name r.1.name ≡ true

abbrev pub IsHeld : Option World → Uuid × FunctionRow → Type 0
IsHeld store r = lacks r.1.data_mode store ≡ false

-- An id has one row, and an owner has one row of a name, and 20 at most; names are valid, and a function in
-- data mode has a store.
pub record IsSound (store : Option World) (rows : Functions) : Type 0 where
  pub unique : IsUnique rows
  pub named : All HasName rows
  pub held : All (IsHeld store) rows
  pub single : (owner : Uuid) (name : Text) → count (is_named owner name) rows ≤ 1
  pub within : (owner : Uuid) → count (is_of owner) rows ≤ max_functions_per_user

pub empty-IsSound : (store : Option World) → IsSound store []
empty-IsSound store = record {
  unique = tt;
  named = tt;
  held = tt;
  single = λ owner name. omega arith;
  within = λ owner. omega arith;
}

unclashed :
    (owner : Uuid) (name : Text) (id : Uuid) (rows : Functions)
    → any (clashes owner name id) rows ≡ false
    → (select id rows ≡ none) × (count (is_named owner name) rows ≡ 0)
unfolding select
unclashed owner name id [] h = (refl, refl)
unclashed owner name id ((i, row) ∷ rows) h =
    ground (arith, unclashed owner name id rows, ==_iff i id)

module _ (store : Option World) where
  pub insert-IsSound :
      (id owner : Uuid) (name : Text) (d : Deployment) (rows : Functions)
      → IsSound store rows
      → any (clashes owner name id) rows ≡ false
      → valid_name name ≡ true
      → lacks d.data_mode store ≡ false
      → leb max_functions_per_user (count (is_of owner) rows) ≡ false
      → IsSound store (upsert id (row_of owner name d) rows)
  insert-IsSound id owner name d rows s free valid stored room =
      let (absent, unnamed) = unclashed owner name id rows free in
      let row = row_of owner name d in
      record {
        unique = upsert-IsUnique id row rows s.unique;
        named = All-upsert HasName id row rows s.named valid;
        held = All-upsert (IsHeld store) id row rows s.held stored;
        single = λ o n. ground (
          arith,
          count-upsert_row (is_named o n) id row rows,
          absent,
          unnamed,
          s.single o n,
          ==_iff owner o,
          text_eq_iff name n,
        );
        within = λ o. ground (
          arith,
          count-upsert_row (is_of o) id row rows,
          absent,
          s.within o,
          room,
          ==_iff owner o,
        );
      }

  pub redeploy-IsSound :
      (id : Uuid) (old : FunctionRow) (d : Deployment) (rows : Functions)
      → IsSound store rows
      → select id rows ≡ some old
      → lacks d.data_mode store ≡ false
      → IsSound store (upsert id (row_of old.owner old.name d) rows)
  redeploy-IsSound id old d rows s there stored =
      let row = row_of old.owner old.name d in
      record {
        unique = upsert-IsUnique id row rows s.unique;
        named = All-upsert HasName id row rows s.named (All-select HasName id rows s.named there);
        held = All-upsert (IsHeld store) id row rows s.held stored;
        single =
            λ o n. ground (arith, count-upsert_row (is_named o n) id row rows, there, s.single o n);
        within = λ o. ground (arith, count-upsert_row (is_of o) id row rows, there, s.within o);
      }

  pub delete-IsSound :
      (owner id : Uuid) (rows : Functions)
      → IsSound store rows
      → IsSound store (keep (λ r. not (is_row owner id r)) rows)
  delete-IsSound owner id rows s =
      let p = λ (r : Uuid × FunctionRow). not (is_row owner id r) in
      record {
        unique = keep-IsUnique p rows s.unique;
        named = All-keep HasName p rows s.named;
        held = All-keep (IsHeld store) p rows s.held;
        single = λ o n. omega (arith, count-keep-le p (is_named o n) rows, s.single o n);
        within = λ o. omega (arith, count-keep-le p (is_of o) rows, s.within o);
      }

-- a store stays a store
pub stored-IsSound :
    (w w' : World) (rows : Functions) → IsSound (some w) rows → IsSound (some w') rows
stored-IsSound w w' rows s = record {
  unique = s.unique;
  named = s.named;
  held = All-imp (IsHeld (some w)) (IsHeld (some w')) (λ r h. refl) rows s.held;
  single = s.single;
  within = s.within;
}
