-- ===== src/Functions/Keys/Expiry.antt =====
-- Which keys are accepted after an IssueKey and after a RevokeKey.
use rcp_server.Base.{
  ℕ, zero, suc, ◌+◌, ◌*◌, ◌≤◌, ◌<◌, ◌≡◌, ◌↔◌, Bool, [], ◌++◌, none, some, arith, length, leb_iff,
  ltb_iff, ◌==◌, ==_iff, Text, text_eq_iff, ℤ, pos, negsuc, Option-cases, Bool-cases, inl, inr,
}
use rcp_server.Functions.Errors.{invalid_key, ok, err}
use rcp_server.Functions.Exec.{Uuid}
use rcp_server.Table.{numbers, select, select-upsert}
use rcp_server.Functions.Keys.{
  key_prefix, max_key_days, day, FunctionKey, IssuedKey, Rows, set_key, delete_key_row, key_days,
  issue_key, check_key, check_public,
}

key_days-bounds : (days : ℤ) (n : ℕ) → key_days days ≡ some n → (1 ≤ n) × (n ≤ 90)
unfolding key_days
key_days-bounds (negsuc k) n h = absurd (ground arith)
key_days-bounds (pos zero) n h = (ground arith, ground arith)
key_days-bounds (pos (suc k)) n h =
    (ground (arith, leb_iff (suc k) max_key_days), ground (arith, leb_iff (suc k) max_key_days))

module _ (sum256 : Text → Text) (owner id : Uuid) (days : ℤ) (encoded : Text) (now : ℕ)
    (works : Bool) (rows : Rows) where
  issue_key-row :
      (k : IssuedKey)
      → (issue_key sum256 works owner id days encoded now rows).0 ≡ ok k
      → (n : ℕ) × (fn : FunctionKey) × (key_days days ≡ some n)
        × (k.key ≡ key_prefix ++ encoded)
        × (k.expires_at ≡ now + n * day)
        × (select id (issue_key sum256 works owner id days encoded now rows).1 ≡ some fn)
        × (fn.key_hash ≡ sum256 k.key)
        × (fn.key_expires_at ≡ some k.expires_at)
  unfolding issue_key set_key
  issue_key-row k h = elim (Option-cases (key_days days)) [
    | inl out ↦ absurd (ground arith)
    | inr (n, is) ↦ elim (Bool-cases works) [
      | inr fails ↦ absurd (ground arith)
      | inl calls ↦ elim (Option-cases (select id rows)) [
        | inl absent ↦ absurd (ground arith)
        | inr (fn, here) ↦ elim (Bool-cases (fn.owner == owner)) [
          | inr other ↦ absurd (ground arith)
          | inl mine ↦ (
            n,
            record fn {
              key_hash = sum256 (key_prefix ++ encoded);
              key_created_at = some now;
              key_expires_at = some (now + n * day);
            },
            is,
            ground arith,
            ground arith,
            ground (
              arith,
              select-upsert id id
                  (record fn {
                    key_hash = sum256 (key_prefix ++ encoded);
                    key_created_at = some now;
                    key_expires_at = some (now + n * day);
                  })
                  rows,
              ==_iff id id,
            ),
            ground arith,
            ground arith,
          )
        ]
      ]
    ]
  ]

  -- After an IssueKey that succeeds, a key is accepted exactly if it has the hash of the issued one
  -- and its length, and the issued key has not expired; it expires after 1 to 90 days.
  pub issue_key-check_public :
      ((s : Text) → length (sum256 s) ≡ 32)
      → (k : IssuedKey) → (issue_key sum256 works owner id days encoded now rows).0 ≡ ok k
      → (key : Text) (later : ℕ)
      → ((check_public sum256 id key later (issue_key sum256 works owner id days encoded now rows).1
            ≡ ok tt)
          ↔ ((sum256 key ≡ sum256 k.key) × (length key ≡ 48) × (later < k.expires_at)))
        × ((now + day ≤ k.expires_at) × (k.expires_at ≤ now + 90 * day))
  unfolding check_public check_key
  issue_key-check_public sized k h key later =
      let (n, fn, is, key_is, expires_is, here, hash_is, expiry_is) = issue_key-row k h in
      (
        (
          (λ accepted. ground (
            arith,
            here,
            hash_is,
            expiry_is,
            accepted,
            text_eq_iff (sum256 key) fn.key_hash,
            ==_iff (length key) 48,
            ltb_iff later k.expires_at,
          )),
          (λ fits. ground (
            arith,
            here,
            hash_is,
            expiry_is,
            fits,
            sized k.key,
            text_eq_iff (sum256 key) fn.key_hash,
            ==_iff (length fn.key_hash) 32,
            ltb_iff later k.expires_at,
          )),
        ),
        (
          ground (arith, expires_is, key_days-bounds days n is),
          ground (arith, expires_is, key_days-bounds days n is),
        ),
      )

-- After a RevokeKey that succeeds, no key of the function is accepted.
delete_key_row-check_public :
    (sum256 : Text → Text) (works : Bool) (owner id : Uuid) (rows : Rows)
    → (delete_key_row works owner id rows).0 ≡ ok tt
    → (key : Text) (later : ℕ)
    → check_public sum256 id key later (delete_key_row works owner id rows).1 ≡ err invalid_key
unfolding delete_key_row check_public check_key
delete_key_row-check_public sum256 works owner id rows h key later =
    elim (Option-cases (select id rows)) [
      | inl absent ↦ absurd (ground arith)
      | inr (fn, here) ↦ ground (
        arith,
        select-upsert id id
            (record fn { key_hash = []; key_created_at = none; key_expires_at = none }) rows,
        ==_iff id id,
      )
    ]
