-- ===== src/Storage.antt =====
-- service.go and repository.go of internal/domain/storage: the containers of an owner, between the
-- rows of the database and Swift, which is a script of replies with a log of the calls.
pub mod Containers
pub mod Untrimmed
pub mod Archive
mod Tests
use rcp_server.Base.{
  ℕ, Bool, true, false, not, ◌&&◌, ◌||◌, List, [], ◌∷◌, ◌++◌, Option, none, some, if◌then◌else◌,
  ◌==◌, Text, text_eq, is_empty, keep, map, any, all, find, length, codes, reverse,
}
use rcp_server.Stdlib.Strings.{trim_space}
use rcp_server.Effects.{Result, ok, err, pure, fail, continue, ◌>>=◌, Site, query, on_stored, ask}
use rcp_server.Table.{numbers, select, upsert}
use rcp_server.Functions.Order.{order_by}

pub data Error : Type 0 where
  container_not_found container_not_empty container_already_exists : Error
  object_not_found object_prefix_not_found storage_operation_failed : Error

-- a row of containers beside its name in Swift, a UUID, which is a number here
pub record Container : Type 0 where
  pub owner : ℕ
  pub name : Text

abbrev pub Rows : Type 0
Rows = List (ℕ × Container)

pub data SwiftCall : Type 0 where
  creates deletes lists : (container : ℕ) → SwiftCall
  uploads downloads deletes_object : (container : ℕ) (object : Text) → SwiftCall
  bulk_deletes : (container : ℕ) (objects : List Text) → SwiftCall

-- an error has whether it is a 404; `listed` are the names of objects
pub data SwiftReply : Type 0 where
  done : SwiftReply
  listed : List Text → SwiftReply
  refused : (not_found : Bool) → SwiftReply

abbrev pub World : Type 0
World = Site Rows SwiftCall SwiftReply

abbrev pub Service : Type 0 → Type 0
Service A = World → Result Error A × World

abbrev pub swift_ask : SwiftCall → World → SwiftReply × World
swift_ask c w =
    let (r, remote) = ask (refused false) c w.remote in (r, record w { remote = remote })

abbrev pub is_refused : SwiftReply → Bool
is_refused (refused _) = true
is_refused _ = false

abbrev pub is_lost : SwiftReply → Bool
is_lost (refused not_found) = not_found
is_lost _ = false

-- a call whose error becomes one of the service's
abbrev pub or_failed : Option Error → Service (Unit {0})
or_failed none w = (ok tt, w)
or_failed (some e) w = (err e, w)

abbrev pub swift : (SwiftReply → Option Error) → SwiftCall → Service (Unit {0})
swift error c w = let (r, w') = swift_ask c w in or_failed (error r) w'

abbrev pub failed : SwiftReply → Option Error
failed r = if is_refused r then some storage_operation_failed else none

-- `err != nil && !isSwiftNotFound(err)`
abbrev pub failed_or_lost : SwiftReply → Option Error
failed_or_lost r = if is_refused r && not (is_lost r) then some storage_operation_failed else none

-- isSwiftNotFound becomes ErrObjectNotFound
abbrev pub failed_object : SwiftReply → Option Error
failed_object r =
    if is_refused r
    then (if is_lost r then some object_not_found else some storage_operation_failed)
    else none

abbrev pub is_named : ℕ → Text → ℕ × Container → Bool
is_named owner name r = r.1.owner == owner && text_eq r.1.name name

-- FindByName: the row, or the first of several
unfoldable pub find_by_name : ℕ → Text → Service (Option (ℕ × Container))
find_by_name owner name =
    on_stored (query storage_operation_failed (λ rows. ok (find (is_named owner name) rows, rows)))

-- Save: the index on name and owner is unique, and so is the name in Swift
abbrev pub clashes : ℕ → ℕ → Text → ℕ × Container → Bool
clashes id owner name r = r.0 == id || is_named owner name r

abbrev pub saved : ℕ → ℕ → Text → Rows → Result Error (Unit {0} × Rows)
saved id owner name rows =
    if any (clashes id owner name) rows
    then err container_already_exists
    else ok (tt, (id, record { owner = owner; name = name }) ∷ rows)

unfoldable pub save : ℕ → ℕ → Text → Service (Unit {0})
save id owner name = on_stored (query storage_operation_failed (saved id owner name))

-- Delete of the repository, which succeeds also where no row matches
unfoldable pub delete_row : ℕ → Text → Service (Unit {0})
delete_row owner name =
    on_stored (
      query storage_operation_failed
        (λ rows. ok (tt, keep (λ r. not (is_named owner name r)) rows)))

-- a row that could not be saved: the container is deleted again, whatever comes of it
abbrev pub or_recall : ℕ → Result Error (Unit {0}) × World → Result Error (Unit {0}) × World
or_recall id (ok _, w) = (ok tt, w)
or_recall id (err e, w) = (err e, (swift_ask (deletes id) w).1)

unfoldable pub save_or_recall : ℕ → ℕ → Text → Service (Unit {0})
save_or_recall id owner name w = or_recall id (save id owner name w)

abbrev pub if_new : ℕ → ℕ → Text → Option (ℕ × Container) → Service (Unit {0})
if_new id owner name none = swift failed (creates id) >>= (λ _. save_or_recall id owner name)
if_new id owner name (some _) = fail container_already_exists

-- CreateContainer, with the UUID that it draws
unfoldable pub create_container : ℕ → ℕ → Text → Service (Unit {0})
create_container id owner raw =
    find_by_name owner (trim_space raw) >>= if_new id owner (trim_space raw)

-- ListContainers, with ListByOwner
unfoldable pub list_containers : ℕ → Service (List Text)
list_containers owner = on_stored (
    query storage_operation_failed
      (λ rows. ok (map (λ r. r.1.name) (keep (λ r. r.1.owner == owner) rows), rows)))

abbrev pub or_not_found : Option (ℕ × Container) → Service ℕ
or_not_found none = fail container_not_found
or_not_found (some (id, _)) = pure id

unfoldable pub resolve_container : ℕ → Text → Service ℕ
resolve_container owner raw = find_by_name owner (trim_space raw) >>= or_not_found

-- ListObjects of the client
abbrev pub objects_of : SwiftReply → Result Error (List Text)
objects_of (listed names) = ok names
objects_of done = err storage_operation_failed
objects_of (refused _) = err storage_operation_failed

-- in DeleteContainer a container that is lost has no objects
abbrev pub objects_or_lost : SwiftReply → Result Error (List Text)
objects_or_lost (listed names) = ok names
objects_or_lost done = err storage_operation_failed
objects_or_lost (refused not_found) = if not_found then ok [] else err storage_operation_failed

abbrev pub list_remote : (SwiftReply → Result Error (List Text)) → ℕ → Service (List Text)
list_remote objects id w = let (r, w') = swift_ask (lists id) w in (objects r, w')

abbrev pub empty_out : Bool → ℕ → List Text → Service (Unit {0})
empty_out force id [] = pure tt
empty_out force id (o ∷ os) =
    if force then swift failed (bulk_deletes id (o ∷ os)) else fail container_not_empty

abbrev pub delete_remote : ℕ → Text → ℕ → Service (Unit {0})
delete_remote owner raw id = swift failed_or_lost (deletes id) >>= (λ _. delete_row owner raw)

-- DeleteContainer: the name is trimmed to find the row, and not to delete it
unfoldable pub delete_container : ℕ → Text → Bool → Service (Unit {0})
delete_container owner raw force = resolve_container owner raw >>= (λ id.
    list_remote objects_or_lost id >>= empty_out force id >>= (λ _. delete_remote owner raw id))

unfoldable pub list_objects : ℕ → Text → Service (List Text)
list_objects owner raw = resolve_container owner raw >>= list_remote objects_of

unfoldable pub upload_object : ℕ → Text → Text → Service (Unit {0})
upload_object owner raw object =
    resolve_container owner raw >>= (λ id. swift failed (uploads id object))

unfoldable pub download_object : ℕ → Text → Text → Service (Unit {0})
download_object owner raw object =
    resolve_container owner raw >>= (λ id. swift failed_object (downloads id object))

unfoldable pub delete_object : ℕ → Text → Text → Service (Unit {0})
delete_object owner raw object =
    resolve_container owner raw >>= (λ id. swift failed_object (deletes_object id object))
