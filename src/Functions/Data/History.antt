-- ===== src/Functions/Data/History.antt =====
-- Histories of calls of the store, each by the owner and the function that it names.
use rcp_server.Base.{
  ℕ, ◌≡◌, refl, ◌∙◌, false, not, ◌&&◌, List, [], ◌∷◌, some, arith, Text, ℤ, ◌==◌, All,
}
use rcp_server.Functions.Errors.{ok}
use rcp_server.Table.{select, select-upsert, select-keep}
use rcp_server.Functions.Exec.{Uuid, World, item_keys, scopes}
use rcp_server.Functions.Data.{item_key, in_scope, scope, get, list, put, delete, delete_function}
use rcp_server.Functions.Data.Cases.{put_cases, delete_cases, delete_function_cases, is_row}
use rcp_server.Functions.Data.Invariant.{
  IsSound, size, put-IsSound, delete-IsSound, delete_function-IsSound,
}
use rcp_server.Functions.Data.RoundTrip.{calm}

pub data Call : Type 0 where
  gets : (collection key : Text) → Call
  lists : (collection : Text) (offset : ℤ) → Call
  puts : (collection key value : Text) (now : ℕ) → Call
  deletes : (collection key : Text) → Call
  deletes_function : Call

unfoldable pub step : World → Uuid × Uuid × Call → World
step w (o, f, gets collection key) = (get o f collection key w).1
step w (o, f, lists collection offset) = (list o f collection offset w).1
step w (o, f, puts collection key value now) = (put o f collection key value now w).1
step w (o, f, deletes collection key) = (delete o f collection key w).1
step w (o, f, deletes_function) = (delete_function o f w).1

unfoldable pub run : World → List (Uuid × Uuid × Call) → World
unfolding step
run w [] = w
run w (c ∷ cs) = run (step w c) cs

get-tables : (o f : Uuid) (c k : Text) (w : World) → (get o f c k w).1.tables ≡ w.tables
unfolding get
get-tables o f c k w = ground arith

list-tables : (o f : Uuid) (c : Text) (n : ℤ) (w : World) → (list o f c n w).1.tables ≡ w.tables
unfolding list
list-tables o f c n w = ground arith

pub step-IsSound :
    (w : World) (c : Uuid × Uuid × Call) → IsSound w.tables → IsSound (step w c).tables
unfolding step
step-IsSound w (o, f, gets c k) s = rw (get-tables o f c k w) s
step-IsSound w (o, f, lists c n) s = rw (list-tables o f c n w) s
step-IsSound w (o, f, puts c k v now) s = put-IsSound o f w s c k v now
step-IsSound w (o, f, deletes c k) s = delete-IsSound o f w s c k
step-IsSound w (o, f, deletes_function) s = delete_function-IsSound o f w s

-- Whatever the calls are and whichever of them fail, the rows stay valid, at most 256 to a function,
-- with no two of one key, and a deleted function keeps no row.
pub run-IsSound :
    (w : World) (cs : List (Uuid × Uuid × Call)) → IsSound w.tables → IsSound (run w cs).tables
unfolding run
run-IsSound w [] s = s
run-IsSound w (c ∷ cs) s = run-IsSound (step w c) cs (step-IsSound w c s)

-- a call of another function than f of o
abbrev pub IsOther : Uuid → Uuid → Uuid × Uuid × Call → Type 0
IsOther o f (p, g, c) = (p == o && g == f) ≡ false

module _ (o f : Uuid) (collection key : Text) where
  pub select-step :
      (w : World) (c : Uuid × Uuid × Call)
      → IsSound w.tables
      → IsOther o f c
      → select (item_key o f collection key) (step w c).tables.function_data
        ≡ select (item_key o f collection key) w.tables.function_data
  unfolding step
  select-step w (p, g, gets c k) s h = rw (get-tables p g c k w)
  select-step w (p, g, lists c n) s h = rw (list-tables p g c n w)
  select-step w (p, g, puts c k v now) s h = ground (
    arith,
    put_cases p g c k v now w,
    select-upsert (item_key p g c k) (item_key o f collection key)
        (record { value = v; updated_at = now }) w.tables.function_data,
    item_keys.same_iff (item_key p g c k) (item_key o f collection key),
  )
  select-step w (p, g, deletes c k) s h = ground (
    arith,
    delete_cases p g w c k,
    select-keep (λ r. not (is_row p g c k r)) (item_key o f collection key) w.tables.function_data
        s.unique,
    item_keys.same_iff (item_key o f collection key) (item_key p g c k),
  )
  select-step w (p, g, deletes_function) s h = ground (
    arith,
    delete_function_cases p g w,
    select-keep (λ r. not (in_scope p g r.0)) (item_key o f collection key) w.tables.function_data
        s.unique,
  )

  select-run :
      (w : World) (cs : List (Uuid × Uuid × Call))
      → IsSound w.tables
      → All (IsOther o f) cs
      → select (item_key o f collection key) (run w cs).tables.function_data
        ≡ select (item_key o f collection key) w.tables.function_data
  unfolding run
  select-run w [] s h = refl
  select-run w (c ∷ cs) s (h, hs) =
      select-run (step w c) cs (step-IsSound w c s) hs ∙ select-step w c s h

  -- Whatever other functions do, of this owner or of another, Get of this function returns what it
  -- returned before.
  get-run_other :
      (w : World) (cs : List (Uuid × Uuid × Call))
      → IsSound w.tables
      → All (IsOther o f) cs
      → (get o f collection key (calm (run w cs))).0 ≡ (get o f collection key (calm w)).0
  unfolding get
  get-run_other w cs s h = ground (arith, select-run w cs s h)

module _ (o f : Uuid) where
  deleted_step :
      (w : World) (c : Uuid × Uuid × Call)
      → select (scope o f) w.tables.deleted_functions ≡ some tt
      → select (scope o f) (step w c).tables.deleted_functions ≡ some tt
  unfolding step
  deleted_step w (p, g, gets c k) h = rw (get-tables p g c k w) h
  deleted_step w (p, g, lists c n) h = rw (list-tables p g c n w) h
  deleted_step w (p, g, puts c k v now) h = ground (arith, put_cases p g c k v now w)
  deleted_step w (p, g, deletes c k) h = ground (arith, delete_cases p g w c k)
  deleted_step w (p, g, deletes_function) h = ground (
    arith,
    delete_function_cases p g w,
    select-upsert (scope p g) (scope o f) tt w.tables.deleted_functions,
  )

  pub deleted_run :
      (w : World) (cs : List (Uuid × Uuid × Call))
      → select (scope o f) w.tables.deleted_functions ≡ some tt
      → select (scope o f) (run w cs).tables.deleted_functions ≡ some tt
  unfolding run
  deleted_run w [] h = h
  deleted_run w (c ∷ cs) h = deleted_run (step w c) cs (deleted_step w c h)

  deleted-delete_function :
      (w : World)
      → (delete_function o f w).0 ≡ ok tt
      → select (scope o f) (delete_function o f w).1.tables.deleted_functions ≡ some tt
  deleted-delete_function w h = ground (
    arith,
    delete_function_cases o f w,
    select-upsert (scope o f) (scope o f) tt w.tables.deleted_functions,
    scopes.same_iff (scope o f) (scope o f),
  )

  -- Once DeleteFunction has succeeded, the function's items are gone, and no later calls bring one
  -- back: its item count stays 0.
  pub size-run-delete_function :
      (w : World) (cs : List (Uuid × Uuid × Call))
      → IsSound w.tables
      → (delete_function o f w).0 ≡ ok tt
      → size o f (run (delete_function o f w).1 cs).tables ≡ 0
  size-run-delete_function w cs s done =
      (run-IsSound _ cs (delete_function-IsSound o f w s)).buried o f
        (deleted_run _ cs (deleted-delete_function w done))
