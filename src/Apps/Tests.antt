-- ===== src/Apps/Tests.antt =====
-- Runs of the apps, and their theorem at concrete calls.
use rcp_server.Base.{◌≡◌, refl, [], ◌∷◌, Text, codes, text_eq, arith}
use rcp_server.Stdlib.Strings.{trim_space, to_lower, is_space}
use rcp_server.Effects.{err, Stored}
use rcp_server.Apps.{
  invalid_subdomain, instance_not_found, app_not_found, app_already_exists, Tables,
  normalize_subdomain, normalize_host, valid_subdomain, validate_register_app_request,
  save_for_instance, register_app, delete_by_instance, delete_app,
}
use rcp_server.Apps.Hosts.{IsExclusive, registers, deletes, run, run-IsExclusive}

opened : Unit {0}
unfolding trim_space to_lower is_space text_eq normalize_subdomain normalize_host valid_subdomain
    validate_register_app_request save_for_instance register_app delete_by_instance delete_app
opened = tt

abbrev base : Text
base = codes "apps.example:443"

abbrev empty : Stored Tables
empty = record {
  rows = record {
    instances =
        record { openstack_id = codes "i"; owner = 1 }
        ∷ record { openstack_id = codes "j"; owner = 2 }
        ∷ [];
    apps = [];
  };
  faults = [];
}

abbrev one : Stored Tables
one = record empty {
  rows = record empty.rows {
    apps = record { host = codes "web.apps.example"; instance_id = codes "i" } ∷ [];
  };
}

registered : (register_app base 1 (codes "i") (codes " Web") empty).1 ≡ one
unfolding opened
registered = refl

foreign : (register_app base 2 (codes "i") (codes "web") empty).0 ≡ err instance_not_found
unfolding opened
foreign = refl

taken : (register_app base 2 (codes "j") (codes "web") one).0 ≡ err app_already_exists
unfolding opened
taken = refl

hyphen : (register_app base 1 (codes "i") (codes "web-") empty).0 ≡ err invalid_subdomain
unfolding opened
hyphen = refl

not_theirs : (delete_app 2 (codes "i") one).0 ≡ err app_not_found
unfolding opened
not_theirs = refl

empty-IsExclusive : IsExclusive base []
empty-IsExclusive = record {
  hosts = tt;
  by_host = λ h. omega arith;
  by_instance = λ i. omega arith;
}

run-IsExclusive_example :
    IsExclusive base
      (run base empty (
        registers 1 (codes "i") (codes "web")
        ∷ registers 2 (codes "j") (codes "web")
        ∷ deletes 1 (codes "i")
        ∷ [])).rows.apps
run-IsExclusive_example =
    run-IsExclusive base empty
      (registers 1 (codes "i") (codes "web")
        ∷ registers 2 (codes "j") (codes "web")
        ∷ deletes 1 (codes "i")
        ∷ [])
      empty-IsExclusive
