-- ===== src/Functions/Service/Owners.antt =====
-- Delete of the service, between the rows and the data store.
use rcp_server.Base.{
  ◌≡◌, refl, true, false, not, ◌==◌, ==_iff, List, [], ◌∷◌, none, some, arith, keep, any,
  Bool-cases, inl, inr, ap, sym, ◌∙◌, subst,
}
use rcp_server.Table.{numbers, select, IsUnique, select-keep-none}
use rcp_server.Functions.Errors.{Error, ok, err, not_found}
use rcp_server.Functions.Exec.{Uuid, World}
use rcp_server.Functions.Data.{delete_function}
use rcp_server.Functions.Errors.{Result-cases}
use rcp_server.Functions.Data.History.{Call, run, size-run-delete_function}
use rcp_server.Functions.Data.Invariant.{IsSound, size}
use rcp_server.Functions.Data.Cases.{delete_function_cases}
use rcp_server.Functions.Service.{
  FunctionRow, Functions, Api, continue, is_row, next_fault, delete_row, with_store_or_not,
  if_stored, delete,
}

-- the row of an id is the owner's
abbrev pub Owns : Uuid → Uuid → Functions → Type 0
Owns owner id rows = (row : FunctionRow) × ((select id rows ≡ some row) × (row.owner ≡ owner))

owns-any :
    (owner id : Uuid) (rows : Functions) (row : FunctionRow)
    → select id rows ≡ some row
    → row.owner ≡ owner
    → any (is_row owner id) rows ≡ true
unfolding select
owns-any owner id [] row h o = absurd (ground arith)
owns-any owner id ((i, r) ∷ rows) row h o = ground (arith, owns-any owner id rows row)

kept-none :
    (owner id : Uuid) (rows : Functions)
    → any (is_row owner id) (keep (λ r. not (is_row owner id r)) rows) ≡ false
kept-none owner id [] = refl
kept-none owner id (r ∷ rows) = ground (arith, kept-none owner id rows)

module _ (owner id : Uuid) where
  gone : Functions → Functions
  gone = keep (λ r. not (is_row owner id r))

  delete_row-some :
      (s : Api)
      → (next_fault s.faults).0 ≡ false
      → any (is_row owner id) s.functions ≡ true
      → delete_row owner id s
        ≡ (ok tt, record s { functions = gone s.functions; faults = (next_fault s.faults).1 })
  unfolding delete_row gone
  delete_row-some s answers there = rw (answers, there) refl

  delete_row-none :
      (s : Api)
      → (next_fault s.faults).0 ≡ false
      → any (is_row owner id) s.functions ≡ false
      → delete_row owner id s ≡ (err not_found, record s { faults = (next_fault s.faults).1 })
  unfolding delete_row
  delete_row-none s answers absent = rw (answers, absent) refl

  -- what Delete does where the owner has the function
  delete-stored :
      (s : Api) (w : World)
      → (next_fault s.faults).0 ≡ false
      → Owns owner id s.functions
      → s.store ≡ some w
      → delete owner id s ≡ (
        (delete_function owner id w).0,
        record s {
          functions = gone s.functions;
          faults = (next_fault s.faults).1;
          store = some (delete_function owner id w).1;
        },
      )
  unfolding delete
  delete-stored s w answers (row, (there, is_owner)) stored =
      let t : Api = record s { functions = gone s.functions; faults = (next_fault s.faults).1 } in
      ap (continue (λ _. if_stored (delete_function owner id)))
        (delete_row-some s answers (owns-any owner id s.functions row there is_owner))
      ∙ ap (with_store_or_not t (delete_function owner id)) stored

  delete-absent :
      (s : Api)
      → (next_fault s.faults).0 ≡ false
      → any (is_row owner id) s.functions ≡ false
      → delete owner id s ≡ (err not_found, record s { faults = (next_fault s.faults).1 })
  unfolding delete
  delete-absent s answers absent =
      ap (continue (λ _. if_stored (delete_function owner id))) (delete_row-none s answers absent)

  -- A function's items outlive it where the store fails: Delete has removed the row by then, and if the
  -- store's DeleteFunction fails, the error is returned, the store's tables are as they were, and another
  -- Delete of the function right after it, the database answering both, ends with ErrNotFound and leaves the
  -- store as it is.
  pub delete-stranded :
      (s : Api) (w : World) (e : Error)
      → (next_fault s.faults).0 ≡ false
      → (next_fault (next_fault s.faults).1).0 ≡ false
      → Owns owner id s.functions
      → s.store ≡ some w
      → (delete_function owner id w).0 ≡ err e
      → ((delete owner id s).0 ≡ err e)
        × ((delete owner id s).1.store ≡ some (delete_function owner id w).1)
        × ((delete_function owner id w).1.tables ≡ w.tables)
        × ((delete owner id (delete owner id s).1).0 ≡ err not_found)
        × ((delete owner id (delete owner id s).1).1.store ≡ some (delete_function owner id w).1)
  unfolding gone
  delete-stranded s w e answers again owns stored failed =
      let t = (delete owner id s).1 in
      let first = delete-stored s w answers owns stored in
      let after : t ≡ record s {
        functions = gone s.functions;
        faults = (next_fault s.faults).1;
        store = some (delete_function owner id w).1;
      } =
        ap (λ r. r.1) first in
      let second =
        ap (λ (u : Api). delete owner id u) after
        ∙ delete-absent _ again (kept-none owner id s.functions) in
      (
        ap (λ r. r.0) first ∙ failed,
        ap (λ (u : Api). u.store) after,
        elim (delete_function_cases owner id w) [
          | inl (done, _) ↦ absurd (ground (arith, done, failed))
          | inr (_, _, same) ↦ same
        ],
        ap (λ r. r.0) second,
        ap (λ r. r.1.store) second,
      )

  absent-any : (rows : Functions) → select id rows ≡ none → any (is_row owner id) rows ≡ false
  unfolding select
  absent-any [] h = refl
  absent-any ((i, row) ∷ rows) h = ground (arith, absent-any rows)

  select-gone :
      (rows : Functions)
      → IsUnique rows
      → any (is_row owner id) rows ≡ true
      → select id (gone rows) ≡ none
  unfolding gone select
  select-gone [] u h = refl
  select-gone ((i, row) ∷ rows) u h = elim (Bool-cases (i == id)) [
    | inl same ↦
        let absent = subst (λ k. select k rows ≡ none) ((==_iff i id).0 same) u.0 in
        ground (
          arith,
          absent,
          absent-any rows absent,
          select-keep-none (λ r. not (is_row owner id r)) id rows absent,
        )
    | inr other ↦ ground (arith, other, select-gone rows u.1)
  ]

  delete_row-ok :
      (s : Api)
      → (delete_row owner id s).0 ≡ ok tt
      → ((next_fault s.faults).0 ≡ false) × (any (is_row owner id) s.functions ≡ true)
  unfolding delete_row
  delete_row-ok s h = ground arith

  any-Owns :
      (rows : Functions) → any (is_row owner id) rows ≡ true → IsUnique rows → Owns owner id rows
  unfolding select
  any-Owns [] h u = absurd (ground arith)
  any-Owns ((i, row) ∷ rows) h u = elim (Bool-cases (i == id)) [
    | inl same ↦
        let absent = subst (λ k. select k rows ≡ none) ((==_iff i id).0 same) u.0 in
        (row, (rw same refl, ground (arith, absent-any rows absent)))
    | inr other ↦
        let (found, (there, is_owner)) = any-Owns rows (ground (arith, other)) u.1 in
        (found, (rw other there, is_owner))
  ]

  delete_row-delete : (s : Api) → (delete owner id s).0 ≡ ok tt → (delete_row owner id s).0 ≡ ok tt
  unfolding delete
  delete_row-delete s h = elim (Result-cases (delete_row owner id s).0) [
    | inl (u, done) ↦ done
    | inr (e, failed) ↦ absurd (ground (arith, failed, h))
  ]

  -- Once Delete has succeeded, the function has no row, and the store has no item of it, whatever is called
  -- on the store afterwards.
  delete-forgets :
      (s : Api) (w : World) (cs : List (Uuid × Uuid × Call))
      → IsUnique s.functions
      → IsSound w.tables
      → s.store ≡ some w
      → (delete owner id s).0 ≡ ok tt
      → (select id (delete owner id s).1.functions ≡ none)
        × ((w' : World) × (((delete owner id s).1.store ≡ some w')
              × (size owner id (run w' cs).tables ≡ 0)))
  delete-forgets s w cs unique sound stored done =
      let (answers, there) = delete_row-ok s (delete_row-delete s done) in
      let is = delete-stored s w answers (any-Owns s.functions there unique) stored in
      let w' = (delete_function owner id w).1 in
      (
        ap (λ r. select id r.1.functions) is ∙ select-gone s.functions unique there,
        (
          w',
          (
            ap (λ r. r.1.store) is,
            size-run-delete_function owner id w cs sound (sym (ap (λ r. r.0) is) ∙ done),
          ),
        ),
      )
