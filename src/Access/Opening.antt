-- ===== src/Access/Opening.antt =====
-- service.go of internal/domain/access, on consoles: who is given a console session, and the keys that a
-- caller may add for a while. The parser of SSH keys is a parameter; the key that is generated and the
-- token that is drawn are arguments, absent where that fails.
pub mod Console
mod Tests
use rcp_server.Base.{
  ℕ, Bool, true, false, not, ◌&&◌, List, [], ◌∷◌, ◌++◌, Option, none, some, if◌then◌else◌, ◌==◌,
  Text, codes, is_empty, reverse,
}
use rcp_server.Stdlib.Strings.{trim_space}
use rcp_server.Effects.{Result, ok, err, query, on_stored, continue}
use rcp_server.Table.{texts, select}
use rcp_server.Access.Consoles.{
  ConsoleSession, ConsoleSessionStore, create, take_session, list_keys, delete_key, add_key,
}
use rcp_server.Access.KeyPairs.{
  Error, console_instance_id_required, console_instance_not_found, console_instance_no_ip,
  console_operation_failed, public_key_required, invalid_ssh_key_format, ConsoleInstance,
  InstanceRow, Tables, fetches, made, deleted, served, refused, CloudReply, World, cloud_ask,
}

pub record Service : Type 0 where
  pub world : World
  pub store : ConsoleSessionStore

-- what is drawn for a session: a signer with its authorized key, and a token
pub record Drawn : Type 0 where
  pub key : Option (ℕ × Text)
  pub token : Option Text

pub record ConsoleResponse : Type 0 where
  pub url : Text
  pub expires_at : ℕ

abbrev pub own : ℕ → Option InstanceRow → Option InstanceRow
own owner none = none
own owner (some row) = if row.owner == owner then some row else none

-- FindConsoleTarget
unfoldable pub find_console_target : ℕ → Text → World → Result Error (Option InstanceRow) × World
find_console_target owner id =
    on_stored (query console_operation_failed (λ t. ok (own owner (select id t.instances), t)))

-- GetInstance of the client
abbrev pub instance_from : CloudReply → Result Error ConsoleInstance
instance_from (served inst) = ok inst
instance_from (made _) = err console_operation_failed
instance_from deleted = err console_operation_failed
instance_from (refused status) =
    if status == 404 then err console_instance_not_found else err console_operation_failed

-- firstNonEmpty of two values
abbrev pub first_non_empty : Text → Text → Text
first_non_empty a b = if is_empty (trim_space a) then trim_space b else trim_space a

abbrev pub or_ubuntu : Text → Text
or_ubuntu username = if is_empty (trim_space username) then codes "ubuntu" else trim_space username

abbrev pub drop_slashes : Text → Text
drop_slashes [] = []
drop_slashes (c ∷ s) = let rest = drop_slashes s in if c == b'/' then rest else c ∷ s

-- strings.TrimRight(basePath, "/") and what follows it
abbrev pub url_of : Text → Text → Text
url_of base token =
    reverse (drop_slashes (reverse base)) ++ (codes "/access/console/ws?token=" ++ token)

abbrev pub draft : ℕ → Text → Text → Text → ℕ × Text → ConsoleSession
draft owner id host username (signer, key) = record {
  token = [];
  owner_id = owner;
  instance_id = id;
  host = host;
  username = username;
  signer = signer;
  authorized_key = key;
  expires_at = 0;
}

module _ (owner : ℕ) (id username base : Text) (drawn : Drawn) (now later : ℕ) where
  abbrev pub responds :
      ConsoleSession × ConsoleSessionStore → World → Result Error ConsoleResponse × Service
  responds (session, store) w = (
    ok (record { url = url_of base session.token; expires_at = session.expires_at }),
    record { world = w; store = store },
  )

  -- with the host: the key and the session
  abbrev pub opens :
      Text → Option (ℕ × Text) → Option Text → Service → Result Error ConsoleResponse × Service
  opens host none token s = (err console_operation_failed, s)
  opens host (some key) none s = (err console_operation_failed, s)
  opens host (some key) (some token) s =
      responds (create token now later (draft owner id host username key) s.store) s.world

  abbrev pub reaches :
      Result Error ConsoleInstance × World
      → ConsoleSessionStore
      → Result Error ConsoleResponse × Service
  reaches (err e, w) store = (err e, record { world = w; store = store })
  reaches (ok inst, w) store =
      let host = first_non_empty inst.fixed_ip inst.floating_ip in
      if is_empty host
      then (err console_instance_no_ip, record { world = w; store = store })
      else opens host drawn.key drawn.token (record { world = w; store = store })

  abbrev pub fetch : World → Result Error ConsoleInstance × World
  fetch w = let (r, w') = cloud_ask (fetches id) w in (instance_from r, w')

  abbrev pub targets :
      Result Error (Option InstanceRow) × World
      → ConsoleSessionStore
      → Result Error ConsoleResponse × Service
  targets (err e, w) store = (err e, record { world = w; store = store })
  targets (ok none, w) store = (err console_instance_not_found, record { world = w; store = store })
  targets (ok (some row), w) store = reaches (fetch w) store

-- CreateConsoleSession, with the two times that the store reads
unfoldable pub create_console_session :
    ℕ → Text → Text → Text → Drawn → ℕ → ℕ → Service → Result Error ConsoleResponse × Service
create_console_session owner raw_id raw_username base drawn now later s =
    if is_empty (trim_space raw_id)
    then (err console_instance_id_required, s)
    else targets owner (trim_space raw_id) (or_ubuntu raw_username) base drawn now later
        (find_console_target owner (trim_space raw_id) s.world) s.store

-- AddEphemeralAuthorizedKey
unfoldable pub add_ephemeral_authorized_key :
    (Text → Bool)
    → Text
    → Text
    → Text
    → ℕ
    → ℕ
    → ConsoleSessionStore
    → Result Error (Unit {0}) × ConsoleSessionStore
add_ephemeral_authorized_key parses raw_id raw_username raw_key now later store =
    if is_empty (trim_space raw_id)
    then (err console_instance_id_required, store)
    else (if is_empty (trim_space raw_key)
        then (err public_key_required, store)
        else (if not (parses (trim_space raw_key)) then (err invalid_ssh_key_format, store) else (
          ok tt,
          add_key (trim_space raw_id) (or_ubuntu raw_username) (trim_space raw_key) now later store,
        )))

-- DeleteEphemeralAuthorizedKey
unfoldable pub delete_ephemeral_authorized_key :
    Text → Text → Text → ConsoleSessionStore → ConsoleSessionStore
delete_ephemeral_authorized_key raw_id raw_username raw_key =
    delete_key (trim_space raw_id) (or_ubuntu raw_username) (trim_space raw_key)

-- AuthorizedKeys, which takes the user name as it is
unfoldable pub authorized_keys : Text → Text → ℕ → ConsoleSessionStore → Text × ConsoleSessionStore
authorized_keys raw_id raw_username = list_keys (trim_space raw_id) (trim_space raw_username)
