-- ===== src/Functions/Order.antt =====
-- ORDER BY a text column, in SQLite's byte order.
use rcp_server.Base.{
  suc, ◌≡◌, refl, inl, inr, Bool, true, false, ◌&&◌, ◌||◌, List, [], ◌∷◌, arith, ltb, ◌==◌,
  if◌then◌else◌, Text, count, All, Bool-cases,
}

unfoldable pub text_leb : Text → Text → Bool
text_leb [] t = true
text_leb (x ∷ s) [] = false
text_leb (x ∷ s) (y ∷ t) = let rest = text_leb s t in ltb x y || x == y && rest

pub text_leb_total : (s t : Text) → text_leb s t ≡ false → text_leb t s ≡ true
unfolding text_leb
text_leb_total [] t h = absurd (cc)
text_leb_total (x ∷ s) [] h = refl
text_leb_total (x ∷ s) (y ∷ t) h = ground (arith, text_leb_total s t)

pub text_leb_trans :
    (s t u : Text) → text_leb s t ≡ true → text_leb t u ≡ true → text_leb s u ≡ true
unfolding text_leb
text_leb_trans [] t u h k = refl
text_leb_trans (x ∷ s) [] u h k = cc
text_leb_trans (x ∷ s) (y ∷ t) [] h k = cc
text_leb_trans (x ∷ s) (y ∷ t) (z ∷ u) h k = ground (arith, text_leb_trans s t u)

module _ {A : Type 0} (column : A → Text) where
  insert_by : A → List A → List A
  insert_by a [] = a ∷ []
  insert_by a (b ∷ rows) =
      if text_leb (column a) (column b) then a ∷ b ∷ rows else b ∷ insert_by a rows

  unfoldable pub order_by : List A → List A
  unfolding insert_by text_leb
  order_by [] = []
  order_by (a ∷ rows) = insert_by a (order_by rows)

  -- Each row's column is at most those of the rows after it.
  abbrev pub IsOrdered : List A → Type 0
  IsOrdered [] = Unit
  IsOrdered (a ∷ rows) = All (λ b. text_leb (column a) (column b) ≡ true) rows × IsOrdered rows

  module _ (P : A → Type 0) where
    insert_by-All : (a : A) (rows : List A) → P a → All P rows → All P (insert_by a rows)
    unfolding insert_by
    insert_by-All a [] p h = (p, tt)
    insert_by-All a (b ∷ rows) p h = ground (arith, insert_by-All a rows p h.1)

    pub order_by-All : (rows : List A) → All P rows → All P (order_by rows)
    unfolding order_by
    order_by-All [] h = h
    order_by-All (a ∷ rows) (p, h) = insert_by-All a (order_by rows) p (order_by-All rows h)

  below_trans :
      (a b : A) (rows : List A)
      → text_leb (column a) (column b) ≡ true
      → All (λ c. text_leb (column b) (column c) ≡ true) rows
      → All (λ c. text_leb (column a) (column c) ≡ true) rows
  below_trans a b [] h k = tt
  below_trans a b (c ∷ rows) h (p, k) =
      (text_leb_trans (column a) (column b) (column c) h p, below_trans a b rows h k)

  insert_by-IsOrdered : (a : A) (rows : List A) → IsOrdered rows → IsOrdered (insert_by a rows)
  unfolding insert_by
  insert_by-IsOrdered a [] h = (tt, tt)
  insert_by-IsOrdered a (b ∷ rows) (p, h) = elim (Bool-cases (text_leb (column a) (column b))) [
    | inl le ↦ rw le ((le, below_trans a b rows le p), (p, h))
    | inr gt ↦ rw gt (
      insert_by-All (λ c. text_leb (column b) (column c) ≡ true) a rows
          (text_leb_total (column a) (column b) gt) p,
      insert_by-IsOrdered a rows h,
    )
  ]

  pub order_by-IsOrdered : (rows : List A) → IsOrdered (order_by rows)
  unfolding order_by
  order_by-IsOrdered [] = tt
  order_by-IsOrdered (a ∷ rows) = insert_by-IsOrdered a (order_by rows) (order_by-IsOrdered rows)

  count-insert_by :
      (q : A → Bool) (a : A) (rows : List A)
      → count q (insert_by a rows) ≡ (if q a then suc (count q rows) else count q rows)
  unfolding insert_by
  count-insert_by q a [] = refl
  count-insert_by q a (b ∷ rows) = ground (arith, count-insert_by q a rows)

  -- Ordering neither drops nor repeats a row.
  pub count-order_by : (q : A → Bool) (rows : List A) → count q (order_by rows) ≡ count q rows
  unfolding order_by
  count-order_by q [] = refl
  count-order_by q (a ∷ rows) =
      ground (arith, count-insert_by q a (order_by rows), count-order_by q rows)
