-- ===== src/Functions/Data/RoundTrip.antt =====
-- What Get returns after Put, Delete and DeleteFunction.
use rcp_server.Base.{ℕ, ◌≡◌, ◌≢◌, [], arith, Text}
use rcp_server.Functions.Errors.{ok}
use rcp_server.Table.{select-upsert}
use rcp_server.Functions.Exec.{Uuid, World, item_keys, scopes}
use rcp_server.Functions.Data.{DataItem, item_key, get, put}
use rcp_server.Functions.Data.Cases.{put_cases}

-- the same tables, with every coming call of the driver successful
abbrev pub calm : World → World
calm w = record w { faults = [] }

module _ (owner function : Uuid) (collection key : Text) where
  -- An item that Put stored is what Get returns.
  pub get-put :
      (value : Text) (now : ℕ) (w : World) (i : DataItem)
      → (put owner function collection key value now w).0 ≡ ok i
      → (get owner function collection key
          (calm (put owner function collection key value now w).1)).0
        ≡ ok (record { collection = collection; key = key; value = value; updated_at = now })
  unfolding get
  get-put value now w i h = ground (
    arith,
    put_cases owner function collection key value now w,
    select-upsert (item_key owner function collection key) (item_key owner function collection key)
        (record { value = value; updated_at = now }) w.tables.function_data,
    item_keys.same_iff (item_key owner function collection key)
        (item_key owner function collection key),
  )

  -- A Put of one item, successful or not, leaves what Get returns for every other item.
  get-put_ne :
      (value : Text) (now : ℕ) (w : World) (o f : Uuid) (c k : Text)
      → item_key owner function collection key ≢ item_key o f c k
      → (get o f c k (calm (put owner function collection key value now w).1)).0
        ≡ (get o f c k (calm w)).0
  unfolding get
  get-put_ne value now w o f c k differ = ground (
    arith,
    put_cases owner function collection key value now w,
    select-upsert (item_key owner function collection key) (item_key o f c k)
        (record { value = value; updated_at = now }) w.tables.function_data,
    item_keys.same_iff (item_key owner function collection key) (item_key o f c k),
  )
