-- ===== src/Apps.antt =====
-- service.go and repository.go of internal/domain/apps: the host names of the apps that run on instances.
pub mod Hosts
mod Tests
use rcp_server.Base.{
  ℕ, Bool, true, false, not, ◌&&◌, ◌||◌, List, [], ◌∷◌, ◌++◌, Option, none, some, if◌then◌else◌,
  ◌==◌, Text, text_eq, is_empty, keep, any, all, find, length, leb, reverse,
}
use rcp_server.Stdlib.Strings.{trim_space, to_lower, is_lower_letter, is_digit, cut}
use rcp_server.Effects.{Result, ok, err, pure, fail, continue, ◌>>=◌, Stored, query}

pub data Error : Type 0 where
  base_domain_required subdomain_required invalid_subdomain instance_not_found : Error
  app_not_found app_already_exists app_operation_failed : Error

pub record App : Type 0 where
  pub instance_id : Text
  pub subdomain : Text
  pub host : Text

-- a row of instances: its id in OpenStack and its owner
pub record InstanceRow : Type 0 where
  pub openstack_id : Text
  pub owner : ℕ

-- a row of apps beside the instance of its edge
pub record AppRow : Type 0 where
  pub host : Text
  pub instance_id : Text

pub record Tables : Type 0 where
  pub instances : List InstanceRow
  pub apps : List AppRow

abbrev pub Service : Type 0 → Type 0
Service A = Stored Tables → Result Error A × Stored Tables

unfoldable pub normalize_subdomain : Text → Text
normalize_subdomain raw = trim_space (to_lower raw)

abbrev pub before_colon : Text → Option (Text × Text) → Text
before_colon host none = host
before_colon host (some (h, _)) = to_lower (trim_space h)

unfoldable pub normalize_host : Text → Text
normalize_host raw =
    let host = to_lower (trim_space raw) in
    if is_empty host then [] else before_colon host (cut b':' host)

abbrev pub is_alphanumeric : ℕ → Bool
is_alphanumeric c = is_lower_letter c || is_digit c

abbrev pub ends_alphanumeric : Text → Bool
ends_alphanumeric [] = false
ends_alphanumeric (c ∷ []) = is_alphanumeric c
ends_alphanumeric (c ∷ d ∷ s) = (is_alphanumeric c || c == b'-') && ends_alphanumeric (d ∷ s)

-- ^[a-z0-9](?:[a-z0-9-]{0,61}[a-z0-9])?$
unfoldable pub valid_subdomain : Text → Bool
valid_subdomain [] = false
valid_subdomain (c ∷ s) = is_alphanumeric c && ends_alphanumeric (c ∷ s) && leb (length (c ∷ s)) 63

-- validateRegisterAppRequest, which normalises the base domain again
abbrev pub app_of : Text → Text → Text → App
app_of base subdomain instance_id = record {
  instance_id = trim_space instance_id;
  subdomain = subdomain;
  host = subdomain ++ b'.' ∷ base;
}

unfoldable pub validate_register_app_request : Text → Text → Text → Result Error App
validate_register_app_request base_domain instance_id raw =
    let base = normalize_host base_domain in
    let subdomain = normalize_subdomain raw in
    if is_empty base
    then err base_domain_required
    else (if is_empty subdomain
        then err subdomain_required
        else (if valid_subdomain subdomain
            then ok (app_of base subdomain instance_id)
            else err invalid_subdomain))

abbrev pub is_instance : ℕ → Text → InstanceRow → Bool
is_instance owner id row = row.owner == owner && text_eq row.openstack_id id

abbrev pub found : Option InstanceRow → Tables → Result Error (Unit {0} × Tables)
found none t = err instance_not_found
found (some _) t = ok (tt, t)

-- the host is unique, and so is the edge to the instance
abbrev pub clashes : App → AppRow → Bool
clashes app row = text_eq row.host app.host || text_eq row.instance_id app.instance_id

abbrev pub inserted : App → Tables → Result Error (Unit {0} × Tables)
inserted app t =
    if any (clashes app) t.apps
    then err app_already_exists
    else ok
        (tt, record t { apps = record { host = app.host; instance_id = app.instance_id } ∷ t.apps })

-- SaveForInstance, with the error of the service
unfoldable pub save_for_instance : ℕ → App → Service (Unit {0})
save_for_instance owner app =
    query app_operation_failed (λ t. found (find (is_instance owner app.instance_id) t.instances) t)
    >>= (λ _. query app_operation_failed (inserted app))

abbrev pub register_valid : ℕ → Result Error App → Service App
register_valid owner (err e) = fail e
register_valid owner (ok app) = save_for_instance owner app >>= (λ _. pure app)

-- RegisterApp
unfoldable pub register_app : Text → ℕ → Text → Text → Service App
register_app base_domain owner instance_id raw =
    register_valid owner (validate_register_app_request base_domain instance_id raw)

-- the app is that of the owner's instance
abbrev pub is_app : ℕ → Text → List InstanceRow → AppRow → Bool
is_app owner id instances row = text_eq row.instance_id id && any (is_instance owner id) instances

abbrev pub removed : ℕ → Text → Tables → Result Error (Unit {0} × Tables)
removed owner id t =
    if any (is_app owner id t.instances) t.apps
    then ok (tt, record t { apps = keep (λ row. not (is_app owner id t.instances row)) t.apps })
    else err app_not_found

-- DeleteByInstance
unfoldable pub delete_by_instance : ℕ → Text → Service (Unit {0})
delete_by_instance owner id = query app_operation_failed (removed owner id)

-- DeleteApp
unfoldable pub delete_app : ℕ → Text → Service (Unit {0})
delete_app owner raw = delete_by_instance owner (trim_space raw)
