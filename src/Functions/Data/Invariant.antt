-- ===== src/Functions/Data/Invariant.antt =====
-- What every row of function_data satisfies, under the methods of data.go.
use rcp_server.Base.{
  refl, ℕ, ◌+◌, ◌≤◌, ◌≡◌, inl, inr, true, not, ◌&&◌, List, [], ◌∷◌, none, some, arith, Text, count,
  keep, All, All-keep, ◌==◌, subst, sym,
}
use rcp_server.Table.{
  select, upsert, IsUnique, select-upsert, upsert-IsUnique, keep-IsUnique, count-upsert, added,
  All-upsert, count-keep-le,
}
use rcp_server.Functions.Exec.{Uuid, ItemKey, ItemValue, Tables, World, item_keys, scopes}
use rcp_server.Functions.Data.{
  valid_collection, valid_data_key, valid_value, item_key, in_scope, scope, put, delete,
  delete_function, max_data_items_per_function,
}
use rcp_server.Functions.Data.Cases.{
  HasRoom, put_cases, delete_cases, delete_function_cases, dropped, removed, is_row,
}

-- a row that passed the tests of Put
abbrev pub IsStorable : ItemKey × ItemValue → Type 0
IsStorable (k, v) =
    (valid_collection k.collection ≡ true)
    × (valid_data_key k.item_key ≡ true)
    × (valid_value v.value ≡ true)

-- how many items a function has
abbrev pub size : Uuid → Uuid → Tables → ℕ
size o f t = count (λ r. in_scope o f r.0) t.function_data

pub record IsSound (t : Tables) : Type 0 where
  pub unique : IsUnique t.function_data
  pub storable : All IsStorable t.function_data
  pub bounded : (o f : Uuid) → size o f t ≤ max_data_items_per_function
  pub buried : (o f : Uuid) → select (scope o f) t.deleted_functions ≡ some tt → size o f t ≡ 0

module _ (owner function : Uuid) (collection key : Text) (v : ItemValue) (t : Tables) where
  abbrev stored : Tables
  stored = record t {
    function_data = upsert (item_key owner function collection key) v t.function_data;
  }

  size-stored :
      (o f : Uuid)
      → size o f stored
        ≡ size o f t
          + added
              (owner == o && function == f)
              (select (item_key owner function collection key) t.function_data)
  size-stored o f =
      count-upsert (in_scope o f) (item_key owner function collection key) v t.function_data

  bounded-stored :
      IsSound t
      → HasRoom owner function collection key t
      → (o f : Uuid) → size o f stored ≤ max_data_items_per_function
  bounded-stored s room o f = ground (arith, size-stored o f, s.bounded o f)

  buried-stored :
      IsSound t
      → select (scope owner function) t.deleted_functions ≡ none
      → (o f : Uuid) → select (scope o f) t.deleted_functions ≡ some tt
      → size o f stored ≡ 0
  buried-stored s live o f dead = ground (arith, size-stored o f, s.buried o f)

module _ (owner function : Uuid) (t : Tables) where
  -- DeleteFunction takes every item of its scope, and none of another.
  pub size-dropped_self : size owner function (dropped owner function t) ≡ 0
  size-dropped_self = gone t.function_data
    where
      gone :
          (rows : List (ItemKey × ItemValue))
          → count
              (λ r. in_scope owner function r.0)
              (keep (λ r. not (in_scope owner function r.0)) rows)
            ≡ 0
      gone [] = refl
      gone (row ∷ rows) = ground (arith, gone rows)

  buried-dropped :
      IsSound t
      → (o f : Uuid) → select (scope o f) (dropped owner function t).deleted_functions ≡ some tt
      → size o f (dropped owner function t) ≡ 0
  buried-dropped s o f dead = ground (
    arith,
    size-dropped_self,
    select-upsert (scope owner function) (scope o f) tt t.deleted_functions,
    scopes.same_iff (scope owner function) (scope o f),
    s.buried o f,
    count-keep-le (λ r. not (in_scope owner function r.0)) (λ r. in_scope o f r.0) t.function_data,
  )

  dropped-IsSound : IsSound t → IsSound (dropped owner function t)
  dropped-IsSound s = record {
    unique = keep-IsUnique _ t.function_data s.unique;
    storable = All-keep IsStorable _ t.function_data s.storable;
    bounded = λ o f. omega (
      arith,
      s.bounded o f,
      count-keep-le (λ r. not (in_scope owner function r.0)) (λ r. in_scope o f r.0)
          t.function_data,
    );
    buried = buried-dropped s;
  }

module _ (owner function : Uuid) (collection key : Text) (t : Tables) (s : IsSound t) where
  removed-IsSound : IsSound (removed owner function collection key t)
  removed-IsSound = record {
    unique = keep-IsUnique _ t.function_data s.unique;
    storable = All-keep IsStorable _ t.function_data s.storable;
    bounded = λ o f. omega (
      arith,
      s.bounded o f,
      count-keep-le (λ r. not (is_row owner function collection key r)) (λ r. in_scope o f r.0)
          t.function_data,
    );
    buried = λ o f dead. omega (
      arith,
      s.buried o f dead,
      count-keep-le (λ r. not (is_row owner function collection key r)) (λ r. in_scope o f r.0)
          t.function_data,
    );
  }

module _ (owner function : Uuid) (w : World) (s : IsSound w.tables) where
  pub put-IsSound :
      (collection key value : Text) (now : ℕ)
      → IsSound (put owner function collection key value now w).1.tables
  put-IsSound collection key value now =
      elim (put_cases owner function collection key value now w) [
        | inr (e, failed, same) ↦ subst IsSound (sym same) s
        | inl done ↦ subst IsSound (sym done.tables) (record {
          unique = upsert-IsUnique _ _ w.tables.function_data s.unique;
          storable =
              All-upsert IsStorable _ _ w.tables.function_data s.storable
                (done.collection_fits, done.key_fits, done.value_fits);
          bounded = bounded-stored owner function collection key _ w.tables s done.has_room;
          buried = buried-stored owner function collection key _ w.tables s done.live;
        })
      ]

  pub delete-IsSound :
      (collection key : Text) → IsSound (delete owner function collection key w).1.tables
  delete-IsSound collection key = elim (delete_cases owner function w collection key) [
    | inl done ↦ subst IsSound (sym done) (removed-IsSound owner function collection key w.tables s)
    | inr (failed, same) ↦ subst IsSound (sym same) s
  ]

  pub delete_function-IsSound : IsSound (delete_function owner function w).1.tables
  delete_function-IsSound = elim (delete_function_cases owner function w) [
    | inl (done, gone) ↦ subst IsSound (sym gone) (dropped-IsSound owner function w.tables s)
    | inr (e, failed, same) ↦ subst IsSound (sym same) s
  ]
