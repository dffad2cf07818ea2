-- ===== src/Compute/Creation.antt =====
-- CreateInstance of service.go, with what it makes of the request, and what undoes a server whose row
-- could not be saved.
use rcp_server.Base.{
  ℕ, not, List, [], ◌∷◌, Option, none, some, if◌then◌else◌, Text, codes, keep, map,
}
use rcp_server.Stdlib.Strings.{trim_space}
use rcp_server.Compute.Instances.{
  Instance, Server, CreateServerOpts, Error, name_required, image_required, flavor_required,
  operation_failed, create_failed, Result, ok, err, creates, deletes, served, listed, accepted,
  refused, CloudReply, World, Service, ask, fail, ◌>>=◌, save_instance, is_empty, first_non_empty,
}

-- normalizeStringSlice, and the loop over the networks
abbrev pub trimmed : List Text → List Text
trimmed values = keep (λ v. not (is_empty v)) (map trim_space values)

unfoldable pub normalize_create_server_opts : CreateServerOpts → CreateServerOpts
normalize_create_server_opts opts = record {
  name = trim_space opts.name;
  image_ref = trim_space opts.image_ref;
  flavor_ref = trim_space opts.flavor_ref;
  key_name = trim_space opts.key_name;
  note = trim_space opts.note;
  security_groups = trimmed opts.security_groups;
  networks = trimmed opts.networks;
}

-- the network of the configuration, where the request names none
unfoldable pub with_network : Text → CreateServerOpts → CreateServerOpts
with_network default_network opts = elim opts.networks [
  | [] ↦
      (if is_empty default_network then opts else record opts { networks = default_network ∷ [] })
  | _ ∷ _ ↦ opts
]

unfoldable pub validate_create_server_opts : CreateServerOpts → Option Error
validate_create_server_opts opts =
    if is_empty opts.name
    then some name_required
    else (if is_empty opts.image_ref
        then some image_required
        else (if is_empty opts.flavor_ref then some flavor_required else none))

unfoldable pub normalize_server_status : Text → Text
normalize_server_status status = first_non_empty status (codes "BUILD")

-- the row of a server that OpenStack has made
unfoldable pub instance_of : ℕ → CreateServerOpts → Server → Instance
instance_of owner opts server = record {
  owner = owner;
  name = first_non_empty server.name opts.name;
  status = normalize_server_status server.status;
  image_id = first_non_empty server.image_id opts.image_ref;
  flavor_id = first_non_empty server.flavor_id opts.flavor_ref;
  key_name = opts.key_name;
  note = opts.note;
  created = server.created;
}

-- CreateServer returns a server or an error
abbrev pub server_from : CloudReply → Result Server
server_from (served server) = ok server
server_from (listed _) = err create_failed
server_from accepted = err create_failed
server_from (refused _) = err create_failed

abbrev pub create_server : CreateServerOpts → Service Server
create_server opts w = let (r, w') = ask (creates opts) w in (server_from r, w')

-- a row that could not be saved: the server is deleted again, and its error only logged
abbrev pub or_recall : Text → Result (Unit {0}) × World → Result (Unit {0}) × World
or_recall id (ok _, w) = (ok tt, w)
or_recall id (err e, w) = (err operation_failed, (ask (deletes id) w).1)

unfoldable pub save_or_recall : Text → Instance → Service (Unit {0})
save_or_recall id inst w = or_recall id (save_instance id inst w)

-- the row of a server just made
unfoldable pub record_server : ℕ → CreateServerOpts → Server → Service Server
record_server owner opts server =
    save_or_recall server.id (instance_of owner opts server) >>= (λ _ w. (ok server, w))

-- CreateInstance after its validation
unfoldable pub create_validated : ℕ → CreateServerOpts → Option Error → Service Server
create_validated owner opts (some e) = fail e
create_validated owner opts none = create_server opts >>= record_server owner opts

unfoldable pub create_instance : Text → ℕ → CreateServerOpts → Service Server
create_instance default_network owner raw =
    let opts = with_network default_network (normalize_create_server_opts raw) in
    create_validated owner opts (validate_create_server_opts opts)
