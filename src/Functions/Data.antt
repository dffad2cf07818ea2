-- ===== src/Functions/Data.antt =====
-- data.go: the JSON items of functions. Opening and closing the store's file are left out; a stored
-- stamp is a number, so the error of parsing one back does not arise.
pub mod Cases
pub mod RoundTrip
pub mod Invariant
pub mod History
pub mod Listing
mod Tests
use rcp_server.Base.{
  ℕ, zero, suc, ◌≤◌, ◌≡◌, Bool, true, false, not, ◌&&◌, ◌||◌, List, [], ◌∷◌, map, Option, none,
  some, ℤ, pos, negsuc, ltb_ℤ, leb, ltb, ◌==◌, if◌then◌else◌, Text, text_eq, length, take, drop,
  keep, count, any,
}
use rcp_server.Stdlib.Strings.{matches_name, is_upper_letter, is_lower_letter, is_digit}
use rcp_server.Stdlib.Json.{valid}
use rcp_server.Functions.Errors.{Error, Result, ok, err, invalid_data, data_limit, data_not_found}
use rcp_server.Table.{select, upsert}
use rcp_server.Functions.Order.{order_by}
use rcp_server.Functions.Exec.{
  Uuid, ItemKey, ItemValue, Scope, Tables, World, item_keys, scopes, Exec, pure, raise, query, exec,
  exec_count, transaction, ◌>>=◌, ◌>>◌,
}

abbrev pub max_data_value_bytes : ℕ
max_data_value_bytes = 16384

abbrev pub max_data_items_per_function : ℕ
max_data_items_per_function = 256

abbrev pub max_data_list_items : ℕ
max_data_list_items = 100

pub record DataItem : Type 0 where
  pub collection : Text
  pub key : Text
  pub value : Text
  pub updated_at : ℕ

collection_char : ℕ → Bool
collection_char c = is_lower_letter c || is_digit c || c == b'_' || c == b'-'

key_first : ℕ → Bool
key_first c = is_upper_letter c || is_lower_letter c || is_digit c

key_char : ℕ → Bool
unfolding key_first
key_char c = key_first c || c == b'_' || c == b'.' || c == b':' || c == b'-'

unfoldable pub valid_collection : Text → Bool
unfolding collection_char
valid_collection = matches_name (λ c. is_lower_letter c) collection_char 63

unfoldable pub valid_data_key : Text → Bool
unfolding key_first key_char
valid_data_key = matches_name key_first key_char 127

-- the test that begins Put, negated
unfoldable pub valid_value : Text → Bool
valid_value value =
    not (length value == 0) && leb (length value) max_data_value_bytes && valid value

abbrev pub item : Text → Text → ItemValue → DataItem
item collection key v = record {
  collection = collection;
  key = key;
  value = v.value;
  updated_at = v.updated_at;
}

abbrev pub item_key : Uuid → Uuid → Text → Text → ItemKey
item_key owner function collection key = record {
  owner = owner;
  function = function;
  collection = collection;
  item_key = key;
}

abbrev pub or_not_found : {A : Type 0} → Option A → Exec A
or_not_found none = raise data_not_found
or_not_found (some a) = pure a

unfoldable pub get : Uuid → Uuid → Text → Text → Exec DataItem
get owner function collection key =
    if not (valid_collection collection) || not (valid_data_key key) then raise invalid_data else do
      found ← query (λ t. select (item_key owner function collection key) t.function_data)
      v ← or_not_found found
      pure (item collection key v)

-- WHERE owner_id=? AND function_id=?
abbrev pub in_scope : Uuid → Uuid → ItemKey → Bool
in_scope owner function k = k.owner == owner && k.function == function

abbrev pub in_collection : Uuid → Uuid → Text → ItemKey → Bool
in_collection owner function collection k =
    in_scope owner function k && text_eq k.collection collection

-- LIMIT ? OFFSET ?
abbrev pub page : ℕ → List (ItemKey × ItemValue) → List (ItemKey × ItemValue)
page offset rows = take max_data_list_items (drop offset rows)

abbrev pub to_item : ItemKey × ItemValue → DataItem
to_item (k, v) = item k.collection k.item_key v

unfoldable pub list : Uuid → Uuid → Text → ℤ → Exec (List DataItem)
unfolding order_by
list owner function collection offset =
    if not (valid_collection collection) || ltb_ℤ offset (pos 0)
    then raise invalid_data
    else query λ t. map to_item (
        page (from offset) (
          order_by (λ r. r.0.item_key)
            (keep (λ r. in_collection owner function collection r.0) t.function_data)))
  where
    from : ℤ → ℕ
    from (pos n) = n
    from (negsuc n) = 0

abbrev pub scope : Uuid → Uuid → Scope
scope owner function = record { owner = owner; function = function }

-- SELECT EXISTS(…)
abbrev pub exists : {A : Type 0} → Option A → Bool
exists none = false
exists (some _) = true

unfoldable pub put : Uuid → Uuid → Text → Text → Text → ℕ → Exec DataItem
put owner function collection key value now =
    if not (valid_collection collection) || not (valid_data_key key) || not (valid_value value)
    then raise invalid_data
    else transaction (do
      deleted ← query (λ t. exists (select (scope owner function) t.deleted_functions))
      if deleted then raise data_not_found else do
        n ← query (λ t. count (λ r. in_scope owner function r.0) t.function_data)
        present ←
            query λ t. exists (select (item_key owner function collection key) t.function_data)
        if not present && leb max_data_items_per_function n then raise data_limit else do
          let v : ItemValue = record { value = value; updated_at = now }
          exec λ t. record t {
            function_data = upsert (item_key owner function collection key) v t.function_data;
          }
          pure (item collection key v))

unfoldable pub delete : Uuid → Uuid → Text → Text → Exec (Unit {0})
delete owner function collection key =
    if not (valid_collection collection) || not (valid_data_key key) then raise invalid_data else do
      let is_row =
          λ (r : ItemKey × ItemValue). item_keys.same r.0 (item_key owner function collection key)
      changed ← exec_count λ t. (
        count is_row t.function_data,
        record t { function_data = keep (λ r. not (is_row r)) t.function_data },
      )
      if changed == 0 then raise data_not_found else pure tt

unfoldable pub delete_function : Uuid → Uuid → Exec (Unit {0})
delete_function owner function = transaction (do
  exec λ t. record t {
    function_data = keep (λ r. not (in_scope owner function r.0)) t.function_data;
  }
  exec λ t. record t {
    app_database_bindings =
        keep (λ r. not (r.0.owner == owner && r.0.function == function)) t.app_database_bindings;
  }
  exec λ t. record t { deleted_functions = upsert (scope owner function) tt t.deleted_functions })
