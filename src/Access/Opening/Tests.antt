-- ===== src/Access/Opening/Tests.antt =====
-- Runs of console sessions, and their theorem at a concrete instance.
use rcp_server.Base.{arith, ◌≡◌, refl, true, some, List, [], ◌∷◌, codes, text_eq}
use rcp_server.Stdlib.Strings.{trim_space, is_space}
use rcp_server.Effects.{ok, err}
use rcp_server.Table.{texts, select, upsert}
use rcp_server.Access.Consoles.{
  new_console_session_store, key_scope_same, purge, delete_expired, put_key, create, add_key,
  list_keys,
}
use rcp_server.Access.Consoles.Invariant.{new_console_session_store-IsMapped}
use rcp_server.Access.KeyPairs.{
  console_instance_not_found, ConsoleInstance, Tables, CloudReply, served,
}
use rcp_server.Access.Opening.{
  Service, Drawn, find_console_target, create_console_session, add_ephemeral_authorized_key,
  authorized_keys,
}
use rcp_server.Access.Opening.Console.{IsOpened, create_console_session-IsOpened}

opened : Unit {0}
unfolding trim_space is_space select upsert text_eq new_console_session_store key_scope_same purge
    delete_expired put_key create add_key list_keys find_console_target create_console_session
    add_ephemeral_authorized_key authorized_keys
opened = tt

abbrev tables : Tables
tables = record {
  key_pairs = [];
  instances = (codes "vm", record { owner = 1; name = codes "web" }) ∷ [];
}

abbrev instance_up : ConsoleInstance
instance_up = record {
  id = codes "vm";
  name = codes "web";
  fixed_ip = [];
  floating_ip = codes "10.0.0.9";
}

abbrev service : List CloudReply → Service
service replies = record {
  world = record {
    stored = record { rows = tables; faults = [] };
    remote = record { replies = replies; calls = [] };
  };
  store = new_console_session_store 120;
}

abbrev drawn : Drawn
drawn = record { key = some (5, codes "ssh-ed25519 A"); token = some (codes "t") }

responds :
    (create_console_session 1
      (codes " vm")
      []
      (codes "/api/v1/")
      drawn
      10
      11
      (service (served instance_up ∷ []))).0
    ≡ ok (record { url = codes "/api/v1/access/console/ws?token=t"; expires_at = 130 })
unfolding opened
responds = refl

foreign :
    (create_console_session 2 (codes "vm") [] (codes "/") drawn 10 11 (service [])).0
    ≡ err console_instance_not_found
unfolding opened
foreign = refl

authorized :
    (authorized_keys
      (codes "vm")
      (codes "ubuntu")
      20
      (add_ephemeral_authorized_key
        (λ key. true)
        (codes "vm ")
        []
        (codes "k")
        10
        11
        (new_console_session_store 120)).1).0
    ≡ b'k' ∷ 10 ∷ []
unfolding opened
authorized = refl

create_console_session-IsOpened_example :
    IsOpened 1
      (trim_space (codes " vm"))
      (codes "/api/v1/")
      drawn
      10
      100
      (service (served instance_up ∷ []))
      (create_console_session 1
        (codes " vm")
        []
        (codes "/api/v1/")
        drawn
        10
        11
        (service (served instance_up ∷ [])))
unfolding new_console_session_store
create_console_session-IsOpened_example =
    create_console_session-IsOpened 1 (codes " vm") [] (codes "/api/v1/") drawn 10 11 100
      (service (served instance_up ∷ [])) (new_console_session_store-IsMapped 120) (omega arith)
