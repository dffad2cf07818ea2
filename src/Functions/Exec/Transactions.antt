-- ===== src/Functions/Exec/Transactions.antt =====
-- What a transaction promises, whatever its body does and whichever call fails.
use rcp_server.Base.{◌≡◌, arith}
use rcp_server.Functions.Errors.{Error, Result, err}
use rcp_server.Functions.Exec.{Tables, World, Exec, settle, transaction}

module _ {A : Type 0} where
  settle_error :
      (saved : Tables) (r : Result A) (w : World) {e : Error}
      → (settle saved (r, w)).0 ≡ err e
      → (settle saved (r, w)).1.tables ≡ saved
  settle_error saved r w h = ground arith

  pub transaction_error :
      (body : Exec A) (w : World) {e : Error}
      → (transaction body w).0 ≡ err e
      → (transaction body w).1.tables ≡ w.tables
  transaction_error body w h = ground arith
