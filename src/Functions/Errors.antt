-- ===== src/Functions/Errors.antt =====
-- The error values of internal/domain/functions, and results. `unavailable_call` stands for what a
-- call outside the package returned: the SQLite driver, the file system or the clock's context.
use rcp_server.Base.{◌≡◌, refl, ◌⊎◌, inl, inr}

pub data Error : Type 0 where
  invalid_data data_limit data_unavailable data_not_found : Error
  invalid_database database_limit sql_limit : Error
  invalid_name invalid_wasm not_found conflict limit busy timeout output_limit : Error
  invalid_input invalid_output invalid_language build_unavailable build_failed : Error
  invalid_key invalid_expiry source_size input_size : Error
  unavailable_call : Error

pub data Result {ℓ} (A : Type ℓ) : Type ℓ where
  ok : A → Result A
  err : Error → Result A

pub Result-cases {ℓ} :
    {A : Type ℓ} (r : Result A) → ((a : A) × (r ≡ ok a)) ⊎ ((e : Error) × (r ≡ err e))
Result-cases (ok a) = inl (a, refl)
Result-cases (err e) = inr (e, refl)
