-- ===== src/Functions/Sql/Tests.antt =====
-- Runs of validateSQL, and its theorems at concrete statements.
use rcp_server.Base.{
  ◌≤◌, ◌≡◌, ◌≢◌, refl, true, false, List, [], ◌∷◌, none, Text, codes, length, All, text_eq,
}
use rcp_server.Functions.Errors.{ok, err, invalid_database}
use rcp_server.Functions.Sql.{
  number, other, validate_sql, tokens_of, classify, max_sql_bytes, max_sql_params,
}
use rcp_server.Functions.Sql.Termination.{tokens_of-ne-none}
use rcp_server.Functions.Sql.Lexemes.{Lexeme, Lexes, is_single, IsAllowed, words}
use rcp_server.Functions.Sql.Accepts.{validate_sql-ok}

abbrev query : Text
query = codes "SELECT name FROM t WHERE note = 'it''s; PRAGMA' -- done"

validate_sql_runs :
    (validate_sql query (number ∷ []) ≡ ok true)
    × (validate_sql (codes "insert into t values (?) ;") [] ≡ ok false)
    × (validate_sql (codes "DELETE FROM t RETURNING id") [] ≡ ok true)
    × (validate_sql (codes "DROP INDEX i /* x */") [] ≡ ok false)
    × (validate_sql (codes "CREATE TRIGGER x") [] ≡ err invalid_database)
    × (validate_sql (codes "SELECT 1; SELECT 2") [] ≡ err invalid_database)
    × (validate_sql (codes "pragma x") [] ≡ err invalid_database)
    × (validate_sql (codes "SELECT 'a") [] ≡ err invalid_database)
    × (validate_sql (codes "SELECT 1") (other ∷ []) ≡ err invalid_database)
unfolding validate_sql text_eq
validate_sql_runs = (refl, refl, refl, refl, refl, refl, refl, refl, refl)

tokens_of-ne-none_example : tokens_of query ≢ none
tokens_of-ne-none_example = tokens_of-ne-none query

validate_sql-ok_example :
    (length query ≤ max_sql_bytes)
    × (length (number ∷ []) ≤ max_sql_params)
    × ((ls : List Lexeme) × Lexes query ls
        × (is_single false false ls ≡ true)
        × All IsAllowed (words ls)
        × (classify (words ls) ≡ ok true))
validate_sql-ok_example = validate_sql-ok query (number ∷ []) true validate_sql_runs.0
