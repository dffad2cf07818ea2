-- ===== src/Compute/Listing.antt =====
-- GetInstances and pruneStaleInstances of service.go. The reads that run in parallel change nothing,
-- so they stand one after the other here; the checks of stale rows, which may end in any order, are
-- made in the order that `stale` has.
use rcp_server.Base.{
  ℕ, Bool, false, List, [], ◌∷◌, Option, none, some, if◌then◌else◌, ◌==◌, Text, codes, text_eq,
  keep, any,
}
use rcp_server.Stdlib.Strings.{trim_space}
use rcp_server.Compute.Flavors.{Flavor}
use rcp_server.Compute.Instances.{
  Instance, ServerAddress, Server, ok, err, operation_failed, fetches, fetches_all, served, listed,
  accepted, refused, CloudReply, Service, ask, ◌>>=◌, repo_call, delete_by_openstack_id, is_empty,
  or_else, first_non_empty,
}

-- ListByOwner
unfoldable pub list_by_owner : ℕ → Service (List (Text × Instance))
list_by_owner owner = repo_call (λ rows. ok (keep (λ r. r.1.owner == owner) rows, rows))

-- FetchInstances
unfoldable pub fetch_instances : Service (List Server)
fetch_instances w =
    let (r, w') = ask fetches_all w in
    elim r [
      | listed servers ↦ (ok servers, w')
      | served _ ↦ (err operation_failed, w')
      | accepted ↦ (err operation_failed, w')
      | refused _ ↦ (err operation_failed, w')
    ]

-- extractServerIPs: the first address of each kind, and the access address for want of a floating one
unfoldable pub extract_server_ips : List ServerAddress → Text × Text
extract_server_ips [] = ([], [])
extract_server_ips (a ∷ rest) =
    let (fixed, floating) = extract_server_ips rest in
    let ip = trim_space a.address in
    if is_empty ip
    then (fixed, floating)
    else (if text_eq (trim_space a.kind) (codes "floating")
        then (fixed, ip)
        else (if text_eq (trim_space a.kind) (codes "fixed")
            then (ip, floating)
            else (fixed, floating)))

unfoldable pub server_ips : Server → Text × Text
server_ips server =
    let (fixed, floating) = extract_server_ips server.addresses in
    (fixed, or_else floating (trim_space server.access_ipv4))

-- an entry of fetchFlavorMap, which is the zero value for an unknown id
unfoldable pub flavor_of : Text → List Flavor → Flavor
flavor_of id [] = record { id = []; name = []; vcpus = 0; ram = 0; disk = 0 }
flavor_of id (f ∷ flavors) =
    let later = flavor_of id flavors in
    if any (λ g. text_eq g.id id) flavors then later else (if text_eq f.id id then f else later)

pub record InstanceDetail : Type 0 where
  pub id : Text
  pub name : Text
  pub status : Text
  pub image : Text
  pub flavor : Flavor
  pub key_name : Text
  pub note : Text
  pub fixed_ip : Text
  pub floating_ip : Text
  pub created : ℕ

-- an entry of serverMap: a later server of the same id takes the place of an earlier one
unfoldable pub server_of : Text → List Server → Option Server
server_of id [] = none
server_of id (s ∷ servers) = elim (server_of id servers) [
  | some later ↦ some later
  | none ↦ (if text_eq s.id id then some s else none)
]

unfoldable pub detail_of : List Flavor → Text × Instance → Server → InstanceDetail
detail_of flavors r server =
    let (fixed, floating) = server_ips server in
    record {
      id = r.0;
      name = r.1.name;
      status = server.status;
      image = r.1.image_id;
      flavor = flavor_of r.1.flavor_id flavors;
      key_name = first_non_empty r.1.key_name server.key_name;
      note = r.1.note;
      fixed_ip = fixed;
      floating_ip = floating;
      created = server.created;
    }

-- the loop over the rows: the live ones, and the ids of the stale ones
unfoldable pub split_rows :
    List Flavor → List Server → List (Text × Instance) → List InstanceDetail × List Text
split_rows flavors servers [] = ([], [])
split_rows flavors servers (r ∷ rows) =
    let (live, stale) = split_rows flavors servers rows in
    elim (server_of r.0 servers) [
      | none ↦ (live, r.0 ∷ stale)
      | some server ↦ (detail_of flavors r server ∷ live, stale)
    ]

-- isServerNotFound
abbrev pub is_not_found : CloudReply → Bool
is_not_found (refused not_found) = not_found
is_not_found _ = false

-- a stale row: deleted only where OpenStack answers that it has no such server
unfoldable pub prune_one : ℕ → Text → Service (Unit {0})
prune_one owner id w =
    let (r, w') = ask (fetches id) w in
    if is_not_found r then delete_by_openstack_id owner id w' else (ok tt, w')

-- all of them are tried, and the first error is reported
unfoldable pub prune_stale_instances : ℕ → List Text → Service (Unit {0})
prune_stale_instances owner [] w = (ok tt, w)
prune_stale_instances owner (id ∷ stale) w =
    let (r, w') = prune_one owner id w in
    let (rest, w'') = prune_stale_instances owner stale w' in
    elim r [ err e ↦ (err e, w'') | ok _ ↦ (rest, w'') ]

-- what a failed fetch of the flavors makes of the answer
abbrev pub given : {A : Type 0} → Option A → Service A
given none w = (err operation_failed, w)
given (some a) w = (ok a, w)

-- GetInstances, with what the fetch of the flavors gave; a failed prune is only logged
unfoldable pub join_and_prune :
    ℕ → List (Text × Instance) → List Server → List Flavor → Service (List InstanceDetail)
join_and_prune owner rows servers flavors w =
    let (live, stale) = split_rows flavors servers rows in
    (ok live, (prune_stale_instances owner stale w).1)

unfoldable pub with_servers :
    Option (List Flavor) → ℕ → List (Text × Instance) → List Server → Service (List InstanceDetail)
with_servers fetched owner rows servers = given fetched >>= join_and_prune owner rows servers

unfoldable pub with_rows :
    Option (List Flavor) → ℕ → List (Text × Instance) → Service (List InstanceDetail)
with_rows fetched owner rows = fetch_instances >>= with_servers fetched owner rows

unfoldable pub get_instances : Option (List Flavor) → ℕ → Service (List InstanceDetail)
get_instances fetched owner = list_by_owner owner >>= with_rows fetched owner
