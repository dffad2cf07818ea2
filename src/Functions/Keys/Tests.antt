-- ===== src/Functions/Keys/Tests.antt =====
-- Keys that are issued and revoked, with a hash that keeps 32 bytes of padding.
use rcp_server.Base.{
  ℕ, zero, suc, ◌+◌, ◌*◌, ◌≤◌, ◌<◌, ◌≡◌, ◌↔◌, ◌++◌, refl, true, none, [], ◌∷◌, length, Text, codes,
  text_eq, pos, arith,
}
use rcp_server.Functions.Errors.{ok, err, invalid_expiry}
use rcp_server.Table.{numbers, select, upsert}
use rcp_server.Functions.Keys.{
  IssuedKey, Rows, key_prefix, day, set_key, delete_key_row, key_days, issue_key, check_key,
  check_public,
}
use rcp_server.Functions.Keys.Expiry.{issue_key-check_public}

-- the first 32 places of a text, filled up with 0
abbrev padded : ℕ → Text → Text
padded zero s = []
padded (suc n) [] = 0 ∷ padded n []
padded (suc n) (c ∷ s) = c ∷ padded n s

length-padded : (n : ℕ) (s : Text) → length (padded n s) ≡ n
length-padded zero s = refl
length-padded (suc n) [] = ground (arith, length-padded n [])
length-padded (suc n) (c ∷ s) = ground (arith, length-padded n s)

abbrev sum256 : Text → Text
sum256 s = padded 32 s

abbrev drawn : Text
drawn = codes "0123456789012345678901234567890123456789012"

abbrev rows : Rows
rows = (7, record { owner = 1; key_hash = []; key_created_at = none; key_expires_at = none }) ∷ []

abbrev key : IssuedKey
key = record { key = key_prefix ++ drawn; expires_at = 5 + 2 * day }

opened : Unit {0}
unfolding set_key delete_key_row key_days issue_key check_key check_public select upsert text_eq
opened = tt

issues : (issue_key sum256 true 1 7 (pos 2) drawn 5 rows).0 ≡ ok key
unfolding opened
issues = refl

too_long : (issue_key sum256 true 1 7 (pos 91) drawn 5 rows).0 ≡ err invalid_expiry
unfolding opened
too_long = refl

issue_key-check_public_example :
    ((check_public sum256 7 key.key 6 (issue_key sum256 true 1 7 (pos 2) drawn 5 rows).1 ≡ ok tt)
      ↔ ((sum256 key.key ≡ sum256 key.key) × (length key.key ≡ 48) × (6 < key.expires_at)))
    × ((5 + day ≤ key.expires_at) × (key.expires_at ≤ 5 + 90 * day))
issue_key-check_public_example =
    issue_key-check_public sum256 1 7 (pos 2) drawn 5 true rows (length-padded 32) key issues
      key.key 6

revokes : (delete_key_row true 1 7 rows).0 ≡ ok tt
unfolding opened
revokes = refl
