-- ===== src/Functions/Databases/Invariant.antt =====
-- What the rows of app_databases and app_database_bindings satisfy after any history of calls.
use rcp_server.Base.{
  ℕ, ◌≤◌, ◌<◌, ◌≡◌, refl, sym, subst, inl, inr, Bool, true, false, not, ◌&&◌, List, [], ◌∷◌, none,
  arith, Text, count, keep, any, All, All-imp, All-keep, All-keep_imp, ◌==◌, text_eq,
}
use rcp_server.Stdlib.Strings.{trim_space, to_lower}
use rcp_server.Table.{
  numbers, select, IsUnique, select-keep, keep-IsUnique, upsert-IsUnique, All-upsert, count-keep-le,
}
use rcp_server.Functions.Exec.{Uuid, BindingKey, Database, Tables, World, binding_keys}
use rcp_server.Functions.Databases.{
  valid_database_name, max_databases_per_owner, clashes, owned, create_database, delete_database,
  bind_database, unbind_database,
}
use rcp_server.Functions.Databases.Cases.{
  create_named_cases, with_database, delete_database_cases, without_database, bind_database_cases,
  unbind_database_cases,
}

abbrev pub owned_by : Uuid → Uuid × Database → Bool
owned_by o r = r.1.owner == o

-- UNIQUE(owner_id, name)
abbrev pub is_namesake : Database → Database → Bool
is_namesake d e = e.owner == d.owner && text_eq e.name d.name

abbrev pub HasUniqueNames : List (Uuid × Database) → Type 0
HasUniqueNames [] = Unit
HasUniqueNames ((i, d) ∷ rows) = All (λ r. is_namesake d r.1 ≡ false) rows × HasUniqueNames rows

-- A binding leads to a database of its own owner.
abbrev pub IsBound : List (Uuid × Database) → BindingKey × Uuid → Type 0
IsBound databases (k, id) = owned k.owner (select id databases) ≡ true

pub record IsConsistent (t : Tables) : Type 0 where
  pub unique : IsUnique t.app_databases
  pub names : HasUniqueNames t.app_databases
  pub named : All (λ r. valid_database_name r.1.name ≡ true) t.app_databases
  pub limited : (o : Uuid) → count (owned_by o) t.app_databases ≤ max_databases_per_owner
  pub keys : IsUnique t.app_database_bindings
  pub bound : All (IsBound t.app_databases) t.app_database_bindings

module _ (id : Uuid) (d : Database) where
  select-fresh :
      (rows : List (Uuid × Database))
      → any (clashes id d.owner d.name) rows ≡ false
      → select id rows ≡ none
  unfolding select
  select-fresh [] h = refl
  select-fresh (r ∷ rows) h = ground (arith, select-fresh rows)

  names-fresh :
      (rows : List (Uuid × Database))
      → any (clashes id d.owner d.name) rows ≡ false
      → All (λ r. is_namesake d r.1 ≡ false) rows
  names-fresh [] h = tt
  names-fresh (r ∷ rows) h = ground (arith, names-fresh rows)

  IsBound-cons :
      (rows : List (Uuid × Database)) (b : BindingKey × Uuid)
      → select id rows ≡ none
      → IsBound rows b
      → IsBound ((id, d) ∷ rows) b
  unfolding select
  IsBound-cons rows b fresh h = ground arith

  with_database-IsConsistent :
      (t : Tables)
      → any (clashes id d.owner d.name) t.app_databases ≡ false
      → valid_database_name d.name ≡ true
      → count (owned_by d.owner) t.app_databases < max_databases_per_owner
      → IsConsistent t
      → IsConsistent (with_database id d t)
  with_database-IsConsistent t fresh fits room s = record {
    unique = (select-fresh t.app_databases fresh, s.unique);
    names = (names-fresh t.app_databases fresh, s.names);
    named = (fits, s.named);
    limited = λ o. ground (arith, s.limited o);
    keys = s.keys;
    bound =
        All-imp (IsBound t.app_databases) (IsBound ((id, d) ∷ t.app_databases))
          (λ b. IsBound-cons t.app_databases b (select-fresh t.app_databases fresh))
          t.app_database_bindings s.bound;
  }

keep-HasUniqueNames :
    (p : Uuid × Database → Bool) (rows : List (Uuid × Database))
    → HasUniqueNames rows
    → HasUniqueNames (keep p rows)
keep-HasUniqueNames p [] h = tt
keep-HasUniqueNames p ((i, d) ∷ rows) h = ground (
  arith,
  keep-HasUniqueNames p rows h.1,
  All-keep (λ (r : Uuid × Database). is_namesake d r.1 ≡ false) p rows h.0,
)

module _ (owner id : Uuid) (t : Tables) (s : IsConsistent t) where
  still_bound :
      (b : BindingKey × Uuid)
      → not (b.0.owner == owner && b.1 == id) ≡ true
      → IsBound t.app_databases b
      → IsBound (without_database owner id t).app_databases b
  still_bound (k, i) other h = ground (
    arith,
    select-keep (λ (r : Uuid × Database). not (r.1.owner == owner && r.0 == id)) i t.app_databases
        s.unique,
  )

  without_database-IsConsistent : IsConsistent (without_database owner id t)
  without_database-IsConsistent = record {
    unique = keep-IsUnique _ t.app_databases s.unique;
    names = keep-HasUniqueNames _ t.app_databases s.names;
    named = All-keep _ _ t.app_databases s.named;
    limited = λ o. omega (
      arith,
      s.limited o,
      count-keep-le (λ (r : Uuid × Database). not (r.1.owner == owner && r.0 == id)) (owned_by o)
          t.app_databases,
    );
    keys = keep-IsUnique _ t.app_database_bindings s.keys;
    bound =
        All-keep_imp (IsBound t.app_databases) (IsBound (without_database owner id t).app_databases)
          _ still_bound t.app_database_bindings s.bound;
  }

module _ (w : World) (s : IsConsistent w.tables) where
  pub create_database-IsConsistent :
      (owner : Uuid) (raw : Text) (id : Uuid) (now : ℕ)
      → IsConsistent (create_database owner raw id now w).1.tables
  unfolding create_database
  create_database-IsConsistent owner raw id now =
      elim (create_named_cases owner (trim_space (to_lower raw)) id now w) [
        | inl c ↦
            subst IsConsistent (sym c.tables)
              (with_database-IsConsistent id _ w.tables c.fresh c.named c.below s)
        | inr (same, failed) ↦ subst IsConsistent (sym same) s
      ]

  pub delete_database-IsConsistent :
      (owner id : Uuid) → IsConsistent (delete_database owner id w).1.tables
  delete_database-IsConsistent owner id = elim (delete_database_cases owner w id) [
    | inl (mine, gone) ↦
        subst IsConsistent (sym gone) (without_database-IsConsistent owner id w.tables s)
    | inr (failed, same) ↦ subst IsConsistent (sym same) s
  ]

  pub bind_database-IsConsistent :
      (owner function database : Uuid) (alias : Text)
      → IsConsistent (bind_database owner function database alias w).1.tables
  bind_database-IsConsistent owner function database alias =
      elim (bind_database_cases owner w function database alias) [
        | inl (mine, put) ↦ subst IsConsistent (sym put) (record {
          unique = s.unique;
          names = s.names;
          named = s.named;
          limited = s.limited;
          keys = upsert-IsUnique _ _ w.tables.app_database_bindings s.keys;
          bound =
              All-upsert (IsBound w.tables.app_databases) _ _ w.tables.app_database_bindings s.bound
                mine;
        })
        | inr (failed, same) ↦ subst IsConsistent (sym same) s
      ]

  pub unbind_database-IsConsistent :
      (owner function : Uuid) (alias : Text)
      → IsConsistent (unbind_database owner function alias w).1.tables
  unbind_database-IsConsistent owner function alias =
      elim (unbind_database_cases owner w function alias) [
        | inl gone ↦ subst IsConsistent (sym gone) (record {
          unique = s.unique;
          names = s.names;
          named = s.named;
          limited = s.limited;
          keys = keep-IsUnique _ w.tables.app_database_bindings s.keys;
          bound =
              All-keep (IsBound w.tables.app_databases) _ w.tables.app_database_bindings s.bound;
        })
        | inr same ↦ subst IsConsistent (sym same) s
      ]
