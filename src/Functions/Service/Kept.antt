-- ===== src/Functions/Service/Kept.antt =====
-- What the parts of the service's methods keep of the rows of functions.
use rcp_server.Base.{
  ℕ, ◌≡◌, refl, Bool, true, false, Option, none, some, Text, arith, leb, count, any, Bool-cases,
  inl, inr, sym, subst,
}
use rcp_server.Table.{numbers, select}
use rcp_server.Functions.Errors.{Result, ok, err}
use rcp_server.Functions.Exec.{Uuid, World, Exec}
use rcp_server.Functions.Service.{
  FunctionRow, Deployment, Functions, Api, Op, continue, max_functions_per_user, is_of, mine,
  clashes, redeployed, is_row, repo, after_repo, with_rows, got, inserted, rewritten, removed,
  valid_name, lacks, next_fault, get_row, count_rows, create_deployment, update_deployment,
  delete_row, with_store, on_store, unless_lacking, if_room, place, if_room_and_store, checked,
  if_stored, with_store_or_not,
}
use rcp_server.Functions.Service.Rows.{
  IsSound, insert-IsSound, redeploy-IsSound, delete-IsSound, stored-IsSound,
}

abbrev pub IsKept : Api → Type 0
IsKept s = IsSound s.store s.functions

-- An operation that keeps what the rows promise.
abbrev pub Keeps : {A : Type 0} → Op A → Type 0
Keeps m = (s : Api) → IsKept s → IsKept (m s).1

pub continue-Keeps :
    {A B : Type 0} (k : A → Op B) (r : Result A) (s : Api)
    → ((a : A) → Keeps (k a))
    → IsKept s
    → IsKept (continue k (r, s)).1
continue-Keeps k (ok a) s h v = h a s v
continue-Keeps k (err e) s h v = v

pub checked-Keeps :
    {A : Type 0} (r : Result A) (k : A → Op FunctionRow)
    → ((a : A) → Keeps (k a))
    → Keeps (checked r k)
checked-Keeps (ok a) k h s v = h a s v
checked-Keeps (err e) k h s v = v

module _ {A : Type 0} where
  with_store-IsKept :
      (s : Api) (m : Exec A) (o : Option World)
      → s.store ≡ o
      → IsKept s
      → IsKept (with_store s m o).1
  with_store-IsKept s m none is v = v
  with_store-IsKept s m (some w) is v =
      stored-IsSound w (m w).1 s.functions (subst (λ o. IsSound o s.functions) is v)

  pub on_store-Keeps : (m : Exec A) → Keeps (on_store m)
  on_store-Keeps m s v = with_store-IsKept s m s.store refl v

  abbrev IsSoundResult : Option World → Result (A × Functions) → Type 0
  IsSoundResult store (ok (a, rows)) = IsSound store rows
  IsSoundResult store (err e) = Unit

  after_repo-IsKept :
      (s : Api) (r : Result (A × Functions))
      → IsSoundResult s.store r
      → IsKept s
      → IsKept (after_repo s r).1
  after_repo-IsKept s (ok (a, rows)) h v = h
  after_repo-IsKept s (err e) h v = v

  repo-IsKept :
      (run : Functions → Result (A × Functions)) (s : Api)
      → IsSoundResult s.store (run s.functions)
      → IsKept s
      → IsKept (repo run s).1
  repo-IsKept run s h v = elim (Bool-cases (next_fault s.faults).0) [
    | inl fails ↦ rw fails v
    | inr answers ↦
        rw answers
          (after_repo-IsKept (record s { faults = (next_fault s.faults).1 }) (run s.functions) h v)
  ]

  read-IsSoundResult :
      (store : Option World) (rows : Functions) (r : Result A)
      → IsSound store rows
      → IsSoundResult store (with_rows rows r)
  read-IsSoundResult store rows (ok a) v = v
  read-IsSoundResult store rows (err e) v = tt

pub get_row-Keeps : (owner id : Uuid) → Keeps (get_row owner id)
unfolding get_row
get_row-Keeps owner id s v =
    repo-IsKept (got owner id) s
      (read-IsSoundResult s.store s.functions (mine owner (select id s.functions)) v) v

mine-ok :
    (owner : Uuid) (o : Option FunctionRow) {row : FunctionRow}
    → mine owner o ≡ ok row
    → o ≡ some row
mine-ok owner none h = absurd (ground arith)
mine-ok owner (some row) h = ground arith

redeployed-IsSound :
    (id : Uuid) (d : Deployment) (store : Option World) (rows : Functions) (r : Result FunctionRow)
    (owner : Uuid)
    → mine owner (select id rows) ≡ r
    → IsSound store rows
    → lacks d.data_mode store ≡ false
    → IsSoundResult store (redeployed id d rows r)
redeployed-IsSound id d store rows (ok row) owner is v stored =
    redeploy-IsSound store id row d rows v (mine-ok owner (select id rows) is) stored
redeployed-IsSound id d store rows (err e) owner is v stored = tt

pub update_deployment-IsKept :
    (owner id : Uuid) (d : Deployment) (s : Api)
    → IsKept s
    → lacks d.data_mode s.store ≡ false
    → IsKept (update_deployment owner id d s).1
unfolding update_deployment
update_deployment-IsKept owner id d s v stored =
    repo-IsKept (rewritten owner id d) s
      (redeployed-IsSound id d s.store s.functions _ owner refl v stored) v

pub delete_row-Keeps : (owner id : Uuid) → Keeps (delete_row owner id)
unfolding delete_row
delete_row-Keeps owner id s v =
    repo-IsKept (removed owner id) s
      (elim (Bool-cases (any (is_row owner id) s.functions)) [
        | inl there ↦ rw there (delete-IsSound s.store owner id s.functions v)
        | inr absent ↦ rw absent tt
      ])
      v

create_deployment-IsKept :
    (id owner : Uuid) (name : Text) (d : Deployment) (s : Api)
    → IsKept s
    → valid_name name ≡ true
    → lacks d.data_mode s.store ≡ false
    → leb max_functions_per_user (count (is_of owner) s.functions) ≡ false
    → IsKept (create_deployment id owner name d s).1
unfolding create_deployment
create_deployment-IsKept id owner name d s v valid stored room =
    repo-IsKept (inserted id owner name d) s
      (elim (Bool-cases (any (clashes owner name id) s.functions)) [
        | inl clash ↦ rw clash tt
        | inr free ↦
            rw free (insert-IsSound s.store id owner name d s.functions v free valid stored room)
      ])
      v

-- what is placed after a count
pub place_after-IsKept :
    (m : ℕ → Op FunctionRow) (owner : Uuid) (s : Api)
    → IsKept s
    → ((t : Api)
        → t.functions ≡ s.functions
        → t.store ≡ s.store
        → IsKept (m (count (is_of owner) s.functions) t).1)
    → IsKept (continue m (count_rows owner s)).1
unfolding count_rows
place_after-IsKept m owner s v h = elim (Bool-cases (next_fault s.faults).0) [
  | inl fails ↦ rw fails v
  | inr answers ↦ rw answers (h (record s { faults = (next_fault s.faults).1 }) refl refl)
]

module _ (id owner : Uuid) (name : Text) (d : Deployment) (s : Api) (v : IsKept s)
    (valid : valid_name name ≡ true) where
  moved-IsKept : (t : Api) → t.functions ≡ s.functions → t.store ≡ s.store → IsKept t
  moved-IsKept t rows store =
      subst (λ o. IsSound o t.functions) (sym store) (subst (IsSound s.store) (sym rows) v)

  pub if_room_and_store-IsKept :
      (t : Api)
      → t.functions ≡ s.functions
      → t.store ≡ s.store
      → IsKept (if_room_and_store id owner name d (count (is_of owner) s.functions) t).1
  if_room_and_store-IsKept t rows store =
      let w = moved-IsKept t rows store in
      elim (Bool-cases (leb max_functions_per_user (count (is_of owner) s.functions))) [
        | inl full ↦ rw full w
        | inr room ↦ elim (Bool-cases (lacks d.data_mode t.store)) [
          | inl lacking ↦ rw (room, lacking) w
          | inr stored ↦
              rw (room, stored)
                (create_deployment-IsKept id owner name d t w valid stored (
                  subst (λ f. leb max_functions_per_user (count (is_of owner) f) ≡ false) (sym rows)
                    room))
        ]
      ]

  pub place-IsKept : lacks d.data_mode s.store ≡ false → IsKept (place id owner name d s).1
  unfolding place
  place-IsKept stored = place_after-IsKept (if_room id owner name d) owner s v (λ t rows store.
      let w = moved-IsKept t rows store in
      elim (Bool-cases (leb max_functions_per_user (count (is_of owner) s.functions))) [
        | inl full ↦ rw full w
        | inr room ↦ rw room (
            create_deployment-IsKept id owner name d t w valid
              (subst (λ o. lacks d.data_mode o ≡ false) (sym store) stored)
              (subst (λ f. leb max_functions_per_user (count (is_of owner) f) ≡ false) (sym rows)
                room))
      ])

pub unless_lacking-IsKept :
    (data_mode : Bool) (m : Op FunctionRow) (s : Api)
    → IsKept s
    → (lacks data_mode s.store ≡ false → IsKept (m s).1)
    → IsKept (unless_lacking data_mode m s).1
unless_lacking-IsKept data_mode m s v h = elim (Bool-cases (lacks data_mode s.store)) [
  | inl lacking ↦ rw lacking v
  | inr stored ↦ rw stored (h stored)
]

with_store_or_not-IsKept :
    (s : Api) (m : Exec (Unit {0})) (o : Option World)
    → s.store ≡ o
    → IsKept s
    → IsKept (with_store_or_not s m o).1
with_store_or_not-IsKept s m none is v = v
with_store_or_not-IsKept s m (some w) is v =
    stored-IsSound w (m w).1 s.functions (subst (λ o. IsSound o s.functions) is v)

pub if_stored-Keeps : (m : Exec (Unit {0})) → Keeps (if_stored m)
if_stored-Keeps m s v = with_store_or_not-IsKept s m s.store refl v
