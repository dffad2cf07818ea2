-- ===== src/Access/KeyPairs.antt =====
-- service.go and repository.go of internal/domain/access, on key pairs: the rows of an owner, and the
-- key pairs of OpenStack, which is a script of replies. The parser of SSH keys is a parameter.
pub mod Owned
pub mod Deletion
mod Tests
use rcp_server.Base.{
  ℕ, Bool, true, false, not, ◌&&◌, List, [], ◌∷◌, Option, none, some, if◌then◌else◌, ◌==◌, Text,
  text_eq, is_empty, keep, map,
}
use rcp_server.Stdlib.Strings.{trim_space}
use rcp_server.Effects.{
  Result, ok, err, pure, fail, ◌>>=◌, Stored, Remote, Site, query, on_stored, ask,
}
use rcp_server.Table.{texts, select, upsert}

pub data Error : Type 0 where
  name_required public_key_required invalid_ssh_key_format : Error
  key_pair_already_exists key_pair_not_found invalid_key_pair_request : Error
  key_pair_access_denied key_pair_operation_failed key_pair_delete_failed : Error
  console_instance_id_required console_instance_not_found console_instance_no_ip : Error
  console_operation_failed : Error

-- KeyPair, and KeyPairResponse, which has the same fields
pub record KeyPair : Type 0 where
  pub name : Text
  pub fingerprint : Text
  pub public_key : Text

-- a row of key pairs beside its name, which is unique
pub record KeyPairRow : Type 0 where
  pub owner : ℕ
  pub fingerprint : Text
  pub public_key : Text

pub record ConsoleInstance : Type 0 where
  pub id : Text
  pub name : Text
  pub fixed_ip : Text
  pub floating_ip : Text

-- what the service reads of a row of instances
pub record InstanceRow : Type 0 where
  pub owner : ℕ
  pub name : Text

pub record Tables : Type 0 where
  pub key_pairs : List (Text × KeyPairRow)
  pub instances : List (Text × InstanceRow)

pub data CloudCall : Type 0 where
  creates : (name public_key : Text) → CloudCall
  deletes : (name : Text) → CloudCall
  fetches : (id : Text) → CloudCall

-- an error has the status code of its StatusError, or 0
pub data CloudReply : Type 0 where
  made : KeyPair → CloudReply
  deleted : CloudReply
  served : ConsoleInstance → CloudReply
  refused : (status : ℕ) → CloudReply

abbrev pub World : Type 0
World = Site Tables CloudCall CloudReply

abbrev pub Service : Type 0 → Type 0
Service A = World → Result Error A × World

abbrev pub cloud_ask : CloudCall → World → CloudReply × World
cloud_ask c w = let (r, remote) = ask (refused 0) c w.remote in (r, record w { remote = remote })

-- the row of a name, if it is the owner's
abbrev pub mine : ℕ → Option KeyPairRow → Option KeyPairRow
mine owner none = none
mine owner (some row) = if row.owner == owner then some row else none

abbrev pub key_pair_of : Text → Option KeyPairRow → Option KeyPair
key_pair_of name none = none
key_pair_of name (some row) =
    some (record { name = name; fingerprint = row.fingerprint; public_key = row.public_key })

-- FindByName
unfoldable pub find_by_name : Error → ℕ → Text → Service (Option KeyPair)
find_by_name e owner name =
    on_stored (query e (λ t. ok (key_pair_of name (mine owner (select name t.key_pairs)), t)))

abbrev pub row_of : ℕ → KeyPair → KeyPairRow
row_of owner kp = record { owner = owner; fingerprint = kp.fingerprint; public_key = kp.public_key }

-- SaveKeyPair; openstack_name is unique
unfoldable pub save_key_pair : ℕ → KeyPair → Service (Unit {0})
save_key_pair owner kp = on_stored (
    query key_pair_operation_failed (λ t. elim (select kp.name t.key_pairs) [
      | none ↦ ok (tt, record t { key_pairs = upsert kp.name (row_of owner kp) t.key_pairs })
      | some _ ↦ err key_pair_operation_failed
    ]))

abbrev pub is_row : ℕ → Text → Text × KeyPairRow → Bool
is_row owner name r = text_eq r.0 name && r.1.owner == owner

-- DeleteByName
unfoldable pub delete_by_name : ℕ → Text → Service (Unit {0})
delete_by_name owner name = on_stored (
    query key_pair_delete_failed
      (λ t. ok (tt, record t { key_pairs = keep (λ r. not (is_row owner name r)) t.key_pairs })))

-- normalizeKeyPairError, and the conflict before it
unfoldable pub key_pair_error : ℕ → Error
key_pair_error status =
    if status == 409
    then key_pair_already_exists
    else (if status == 400
        then invalid_key_pair_request
        else (if status == 403 then key_pair_access_denied else key_pair_operation_failed))

-- CreateKeyPair of the client
abbrev pub key_pair_from : CloudReply → Result Error KeyPair
key_pair_from (made kp) = ok kp
key_pair_from deleted = err key_pair_operation_failed
key_pair_from (served _) = err key_pair_operation_failed
key_pair_from (refused status) = err (key_pair_error status)

abbrev pub create_remote : Text → Text → Service KeyPair
create_remote name public_key w =
    let (r, w') = cloud_ask (creates name public_key) w in (key_pair_from r, w')

-- a row that could not be saved: the key pair is deleted again, and its error only logged
abbrev pub or_recall : KeyPair → Result Error (Unit {0}) × World → Result Error KeyPair × World
or_recall kp (ok _, w) = (ok kp, w)
or_recall kp (err e, w) = (err key_pair_operation_failed, (cloud_ask (deletes kp.name) w).1)

unfoldable pub save_or_recall : ℕ → KeyPair → Service KeyPair
save_or_recall owner kp w = or_recall kp (save_key_pair owner kp w)

abbrev pub if_new : ℕ → Text → Text → Option KeyPair → Service KeyPair
if_new owner name public_key none = create_remote name public_key >>= save_or_recall owner
if_new owner name public_key (some _) = fail key_pair_already_exists

unfoldable pub create_key_pair : (Text → Bool) → ℕ → Text → Text → Service KeyPair
create_key_pair parses owner raw_name raw_key =
    if is_empty (trim_space raw_name)
    then fail name_required
    else (if is_empty (trim_space raw_key)
        then fail public_key_required
        else (if not (parses (trim_space raw_key))
            then fail invalid_ssh_key_format
            else find_by_name key_pair_operation_failed owner (trim_space raw_name)
              >>= if_new owner (trim_space raw_name) (trim_space raw_key)))

-- GetKeyPair
abbrev pub or_not_found : Option KeyPair → Service KeyPair
or_not_found none = fail key_pair_not_found
or_not_found (some kp) = pure kp

unfoldable pub get_key_pair : ℕ → Text → Service KeyPair
get_key_pair owner name = find_by_name key_pair_operation_failed owner name >>= or_not_found

-- ListKeyPairs, with ListByOwner
abbrev pub listed : List (Text × KeyPairRow) → List KeyPair
listed =
    map (λ r. record { name = r.0; fingerprint = r.1.fingerprint; public_key = r.1.public_key })

unfoldable pub list_key_pairs : ℕ → Service (List KeyPair)
list_key_pairs owner = on_stored (
    query key_pair_operation_failed
      (λ t. ok (listed (keep (λ r. r.1.owner == owner) t.key_pairs), t)))

-- a key pair that OpenStack does not have counts as deleted
abbrev pub is_gone : CloudReply → Bool
is_gone (refused status) = status == 404
is_gone (made _) = true
is_gone deleted = true
is_gone (served _) = true

abbrev pub delete_remote : Text → Service (Unit {0})
delete_remote name w =
    let (r, w') = cloud_ask (deletes name) w in
    if is_gone r then (ok tt, w') else (err key_pair_delete_failed, w')

abbrev pub if_found : ℕ → Text → Option KeyPair → Service (Unit {0})
if_found owner name none = fail key_pair_not_found
if_found owner name (some _) = delete_remote name >>= (λ _. delete_by_name owner name)

unfoldable pub delete_key_pair : ℕ → Text → Service (Unit {0})
delete_key_pair owner name =
    find_by_name key_pair_operation_failed owner name >>= if_found owner name
