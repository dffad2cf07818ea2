-- ===== src/Table.antt =====
-- A table with a primary key, and a Go map, as an association list: `upsert` writes a key and `keep`
-- deletes.
use rcp_server.Base.{
  ==_iff, ◌==◌, Text, text_eq, text_eq_iff, ℕ, ◌+◌, ◌≤◌, ◌≡◌, refl, ◌↔◌, Bool, true, List, [], ◌∷◌,
  Option, none, some, arith, if◌then◌else◌, not, keep, count, All, Bool-cases, subst, inl, inr,
}

-- Equality of keys as SQL compares them.
pub record Key (K : Type 0) : Type 0 where
  pub same : K → K → Bool
  pub same_iff : (a b : K) → (same a b ≡ true) ↔ (a ≡ b)

-- An upsert adds a row only where the key had none.
abbrev pub added : {V : Type 0} → Bool → Option V → ℕ
added true none = 1
added _ _ = 0

-- A key's row counts where it passes the test.
abbrev pub counted : {K V : Type 0} → (K × V → Bool) → K → Option V → ℕ
counted q k none = 0
counted q k (some v) = if q (k, v) then 1 else 0

module _ {K V : Type 0} ⦃e : Key K⦄ where
  -- SELECT … WHERE key = k
  unfoldable pub select : K → List (K × V) → Option V
  select k [] = none
  select k ((j, v) ∷ rows) = if e.same j k then some v else select k rows

  -- INSERT … ON CONFLICT(key) DO UPDATE
  unfoldable pub upsert : K → V → List (K × V) → List (K × V)
  upsert k v [] = (k, v) ∷ []
  upsert k v ((j, w) ∷ rows) = if e.same j k then (k, v) ∷ rows else (j, w) ∷ upsert k v rows

  pub select-upsert :
      (k j : K) (v : V) (rows : List (K × V))
      → select j (upsert k v rows) ≡ (if e.same k j then some v else select j rows)
  unfolding select upsert
  select-upsert k j v [] = refl
  select-upsert k j v ((i, w) ∷ rows) =
      ground (arith, e.same_iff k j, e.same_iff i k, e.same_iff i j, select-upsert k j v rows)

  -- PRIMARY KEY: no two rows with one key
  abbrev pub IsUnique : List (K × V) → Type 0
  IsUnique [] = Unit
  IsUnique ((k, v) ∷ rows) = (select k rows ≡ none) × IsUnique rows

  pub upsert-IsUnique :
      (k : K) (v : V) (rows : List (K × V)) → IsUnique rows → IsUnique (upsert k v rows)
  unfolding select upsert
  upsert-IsUnique k v [] u = (refl, tt)
  upsert-IsUnique k v ((j, w) ∷ rows) u = ground (
    arith,
    e.same_iff j k,
    e.same_iff k j,
    select-upsert k j v rows,
    upsert-IsUnique k v rows u.1,
  )

  -- A DELETE with a test on whole rows leaves of a key's row what passes the opposite test.
  abbrev pub passing : (K × V → Bool) → K → Option V → Option V
  passing p k none = none
  passing p k (some v) = if p (k, v) then some v else none

  pub select-keep-none :
      (p : K × V → Bool) (k : K) (rows : List (K × V))
      → select k rows ≡ none
      → select k (keep p rows) ≡ none
  unfolding select
  select-keep-none p k [] h = refl
  select-keep-none p k ((j, w) ∷ rows) h = ground (arith, select-keep-none p k rows)

  pub select-keep :
      (p : K × V → Bool) (k : K) (rows : List (K × V))
      → IsUnique rows
      → select k (keep p rows) ≡ passing p k (select k rows)
  unfolding select
  select-keep p k [] u = refl
  select-keep p k ((j, w) ∷ rows) u =
      ground (arith, e.same_iff j k, select-keep p k rows u.1, select-keep-none p k rows)

  pub keep-IsUnique :
      (p : K × V → Bool) (rows : List (K × V)) → IsUnique rows → IsUnique (keep p rows)
  keep-IsUnique p [] u = u
  keep-IsUnique p ((j, w) ∷ rows) u =
      ground (arith, keep-IsUnique p rows u.1, select-keep-none p j rows u.0)

  pub count-upsert :
      (q : K → Bool) (k : K) (v : V) (rows : List (K × V))
      → count (λ r. q r.0) (upsert k v rows) ≡ count (λ r. q r.0) rows + added (q k) (select k rows)
  unfolding select upsert
  count-upsert q k v [] = ground arith
  count-upsert q k v ((j, w) ∷ rows) = ground (arith, e.same_iff j k, count-upsert q k v rows)

  pub count-upsert_row :
      (q : K × V → Bool) (k : K) (v : V) (rows : List (K × V))
      → count q (upsert k v rows) + counted q k (select k rows)
        ≡ count q rows + counted q k (some v)
  unfolding select upsert
  count-upsert_row q k v [] = ground arith
  count-upsert_row q k v ((j, w) ∷ rows) =
      ground (arith, e.same_iff j k, count-upsert_row q k v rows)

  count_absent :
      (q : K × V → Bool) (k : K) (rows : List (K × V))
      → select k rows ≡ none
      → count q (keep (λ r. not (e.same r.0 k)) rows) ≡ count q rows
  unfolding select
  count_absent q k [] h = refl
  count_absent q k ((j, w) ∷ rows) h = ground (arith, count_absent q k rows)

  pub count-delete :
      (q : K × V → Bool) (k : K) (rows : List (K × V))
      → IsUnique rows
      → count q (keep (λ r. not (e.same r.0 k)) rows) + counted q k (select k rows) ≡ count q rows
  unfolding select
  count-delete q k [] u = refl
  count-delete q k ((j, w) ∷ rows) u =
      ground (arith, e.same_iff j k, count-delete q k rows u.1, count_absent q k rows)

  pub All-upsert :
      (P : K × V → Type 0) (k : K) (v : V) (rows : List (K × V))
      → All P rows
      → P (k, v)
      → All P (upsert k v rows)
  unfolding upsert
  All-upsert P k v [] a p = (p, tt)
  All-upsert P k v ((j, w) ∷ rows) a p = ground (arith, All-upsert P k v rows a.1 p)

  pub All-select :
      (P : K × V → Type 0) (k : K) (rows : List (K × V)) {v : V}
      → All P rows
      → select k rows ≡ some v
      → P (k, v)
  unfolding select
  All-select P k [] a h = absurd (cc)
  All-select P k ((j, w) ∷ rows) a h = elim (Bool-cases (e.same j k)) [
    | inl same ↦ subst P (ground (arith, e.same_iff j k)) a.0
    | inr other ↦ All-select P k rows a.1 (ground arith)
  ]

module _ {A : Type 0} where
  pub count-keep-le : (p q : A → Bool) (xs : List A) → count q (keep p xs) ≤ count q xs
  count-keep-le p q [] = omega arith
  count-keep-le p q (x ∷ xs) = ground (arith, count-keep-le p q xs)

instance abbrev pub numbers : Key ℕ
numbers = record { same = λ a b. a == b; same_iff = ==_iff }

instance abbrev pub texts : Key Text
texts = record { same = text_eq; same_iff = text_eq_iff }
