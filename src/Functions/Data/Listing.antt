-- ===== src/Functions/Data/Listing.antt =====
-- What List returns: the rows, their order and their number.
use rcp_server.Base.{
  ℕ, zero, suc, ◌≤◌, ◌≡◌, refl, true, List, [], ◌∷◌, map, none, some, arith, Text, pos, ap, subst,
  length, take, drop, keep, All, length-take, text_eq_iff,
}
use rcp_server.Functions.Errors.{ok}
use rcp_server.Table.{select, IsUnique}
use rcp_server.Functions.Order.{text_leb, order_by, IsOrdered, order_by-All, order_by-IsOrdered}
use rcp_server.Functions.Exec.{Uuid, ItemKey, ItemValue, World, item_keys}
use rcp_server.Functions.Data.{
  DataItem, item_key, in_collection, page, to_item, list, max_data_list_items,
}

module _ {A : Type 0} where
  drop-All : (P : A → Type 0) (n : ℕ) (xs : List A) → All P xs → All P (drop n xs)
  drop-All P zero xs h = h
  drop-All P (suc n) [] h = tt
  drop-All P (suc n) (x ∷ xs) h = drop-All P n xs h.1

  take-All : (P : A → Type 0) (n : ℕ) (xs : List A) → All P xs → All P (take n xs)
  take-All P zero xs h = tt
  take-All P (suc n) [] h = tt
  take-All P (suc n) (x ∷ xs) h = (h.0, take-All P n xs h.1)

  drop-IsOrdered :
      (column : A → Text) (n : ℕ) (xs : List A) → IsOrdered column xs → IsOrdered column (drop n xs)
  drop-IsOrdered column zero xs h = h
  drop-IsOrdered column (suc n) [] h = tt
  drop-IsOrdered column (suc n) (x ∷ xs) h = drop-IsOrdered column n xs h.1

  take-IsOrdered :
      (column : A → Text) (n : ℕ) (xs : List A) → IsOrdered column xs → IsOrdered column (take n xs)
  take-IsOrdered column zero xs h = tt
  take-IsOrdered column (suc n) [] h = tt
  take-IsOrdered column (suc n) (x ∷ xs) h = (take-All _ n xs h.0, take-IsOrdered column n xs h.1)

-- the row that an item was read from
abbrev pub IsRow : Uuid → Uuid → Text → World → DataItem → Type 0
IsRow owner function collection w i =
    (i.collection ≡ collection)
    × (select (item_key owner function collection i.key) w.tables.function_data
        ≡ some (record { value = i.value; updated_at = i.updated_at }))

-- A listed row: it is in the collection, and its key selects it.
abbrev IsListed : Uuid → Uuid → Text → List (ItemKey × ItemValue) → ItemKey × ItemValue → Type 0
IsListed owner function collection rows (k, v) =
    (k ≡ item_key owner function collection k.item_key) × (select k rows ≡ some v)

module _ (owner function : Uuid) (collection : Text) where
  keep-IsListed_cons :
      (k : ItemKey) (v : ItemValue) (rows kept : List (ItemKey × ItemValue))
      → select k rows ≡ none
      → All (IsListed owner function collection rows) kept
      → All (IsListed owner function collection ((k, v) ∷ rows)) kept
  unfolding select
  keep-IsListed_cons k v rows [] fresh h = tt
  keep-IsListed_cons k v rows ((j, w) ∷ kept) fresh h =
      ground (arith, keep-IsListed_cons k v rows kept fresh h.1, item_keys.same_iff k j)

  keep-IsListed :
      (rows : List (ItemKey × ItemValue))
      → IsUnique rows
      → All
          (IsListed owner function collection rows)
          (keep (λ r. in_collection owner function collection r.0) rows)
  unfolding select
  keep-IsListed [] u = tt
  keep-IsListed ((k, v) ∷ rows) u = ground (
    arith,
    keep-IsListed_cons k v rows (keep (λ r. in_collection owner function collection r.0) rows) u.0
        (keep-IsListed rows u.1),
    item_keys.same_iff k k,
    text_eq_iff k.collection collection,
  )

  IsRow-map :
      (w : World) (rows : List (ItemKey × ItemValue))
      → All (IsListed owner function collection w.tables.function_data) rows
      → All (IsRow owner function collection w) (map to_item rows)
  IsRow-map w [] h = tt
  IsRow-map w ((k, v) ∷ rows) h = ground (arith, IsRow-map w rows h.1)

IsOrdered-map :
    (rows : List (ItemKey × ItemValue))
    → IsOrdered (λ r. r.0.item_key) rows
    → IsOrdered (λ (i : DataItem). i.key) (map to_item rows)
IsOrdered-map [] h = tt
IsOrdered-map ((k, v) ∷ rows) h = (below rows h.0, IsOrdered-map rows h.1)
  where
    below :
        (others : List (ItemKey × ItemValue))
        → All (λ r. text_leb k.item_key r.0.item_key ≡ true) others
        → All (λ (i : DataItem). text_leb k.item_key i.key ≡ true) (map to_item others)
    below [] g = tt
    below ((j, u) ∷ others) g = (g.0, below others g.1)

length-map : (rows : List (ItemKey × ItemValue)) → length (map to_item rows) ≡ length rows
length-map [] = refl
length-map (row ∷ rows) = ap suc (length-map rows)

module _ (owner function : Uuid) (collection : Text) (offset : ℕ) (w : World) where
  abbrev ordered : List (ItemKey × ItemValue)
  ordered =
      order_by (λ r. r.0.item_key)
        (keep (λ r. in_collection owner function collection r.0) w.tables.function_data)

  list-eq-page :
      (items : List DataItem)
      → (list owner function collection (pos offset) w).0 ≡ ok items
      → map to_item (page offset ordered) ≡ items
  unfolding list
  list-eq-page items h = ground arith

  page-IsListed :
      IsUnique w.tables.function_data
      → All (IsListed owner function collection w.tables.function_data) (page offset ordered)
  page-IsListed u = take-All _ max_data_list_items (drop offset ordered) (
      drop-All _ offset ordered
        (order_by-All _ _ _ (keep-IsListed owner function collection w.tables.function_data u)))

  page-IsOrdered : IsOrdered (λ r. r.0.item_key) (page offset ordered)
  page-IsOrdered =
      take-IsOrdered _ max_data_list_items (drop offset ordered)
        (drop-IsOrdered _ offset ordered (order_by-IsOrdered _ _))

  -- Where the primary key is kept, every item of a page is the row of its collection and key, the
  -- items are in the order of their keys, and there are at most 100.
  list-IsPage :
      (items : List DataItem)
      → IsUnique w.tables.function_data
      → (list owner function collection (pos offset) w).0 ≡ ok items
      → All (IsRow owner function collection w) items
        × IsOrdered (λ i. i.key) items
        × (length items ≤ max_data_list_items)
  list-IsPage items u h =
      subst
        (λ (l : List DataItem).
          All (IsRow owner function collection w) l
          × IsOrdered (λ i. i.key) l
          × (length l ≤ max_data_list_items))
        (list-eq-page items h)
        (
          IsRow-map owner function collection w (page offset ordered) (page-IsListed u),
          IsOrdered-map (page offset ordered) page-IsOrdered,
          omega (
            arith,
            length-map (page offset ordered),
            length-take {0} max_data_list_items (drop offset ordered),
          ),
        )
