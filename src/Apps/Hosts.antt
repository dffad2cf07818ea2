-- ===== src/Apps/Hosts.antt =====
-- The host names that are given away.
use rcp_server.Base.{
  ℕ, ◌≡◌, ◌≤◌, refl, Bool, true, false, not, List, [], ◌∷◌, ◌++◌, Text, text_eq, text_eq_iff,
  is_empty, keep, any, count, find, All, All-keep, arith, inl, inr, Bool-cases, Option-cases, subst,
}
use rcp_server.Table.{count-keep-le}
use rcp_server.Stdlib.Strings.{trim_space}
use rcp_server.Effects.{Result, ok, err, Stored, next_fault, continue}
use rcp_server.Apps.{
  Error, App, AppRow, InstanceRow, Tables, normalize_host, normalize_subdomain, valid_subdomain,
  validate_register_app_request, clashes, save_for_instance, register_valid, register_app,
  delete_by_instance, delete_app, is_instance, is_app,
}

module _ (base_domain : Text) where
  -- one label below the base domain
  abbrev pub IsHost : Text → Type 0
  IsHost host =
      (label : Text) × (valid_subdomain label ≡ true)
      × (host ≡ label ++ b'.' ∷ normalize_host base_domain)

  pub record IsExclusive (apps : List AppRow) : Type 0 where
    pub hosts : All (λ row. IsHost row.host) apps
    pub by_host : (host : Text) → count (λ row. text_eq row.host host) apps ≤ 1
    pub by_instance : (id : Text) → count (λ row. text_eq row.instance_id id) apps ≤ 1

  unclashed :
      (app : App) (apps : List AppRow)
      → any (clashes app) apps ≡ false
      → (count (λ row. text_eq row.host app.host) apps ≡ 0)
        × (count (λ row. text_eq row.instance_id app.instance_id) apps ≡ 0)
  unclashed app [] h = (refl, refl)
  unclashed app (row ∷ apps) h = ground (arith, unclashed app apps)

  insert-IsExclusive :
      (app : App) (apps : List AppRow)
      → IsHost app.host
      → any (clashes app) apps ≡ false
      → IsExclusive apps
      → IsExclusive (record { host = app.host; instance_id = app.instance_id } ∷ apps)
  insert-IsExclusive app apps host free s =
      let (no_host, no_instance) = unclashed app apps free in
      record {
        hosts = (host, s.hosts);
        by_host = λ h. elim (Bool-cases (text_eq app.host h)) [
          | inl same ↦
              (let is : app.host ≡ h = ground (arith, text_eq_iff app.host h, same) in
                let none_of_h =
                  subst (λ x. count (λ row. text_eq row.host x) apps ≡ 0) is no_host in
                ground (arith, same, none_of_h))
          | inr other ↦ rw other (s.by_host h)
        ];
        by_instance = λ i. elim (Bool-cases (text_eq app.instance_id i)) [
          | inl same ↦
              (let is : app.instance_id ≡ i = ground (arith, text_eq_iff app.instance_id i, same) in
                let none_of_i =
                  subst (λ x. count (λ row. text_eq row.instance_id x) apps ≡ 0) is no_instance in
                ground (arith, same, none_of_i))
          | inr other ↦ rw other (s.by_instance i)
        ];
      }

  keep-IsExclusive :
      (q : AppRow → Bool) (apps : List AppRow) → IsExclusive apps → IsExclusive (keep q apps)
  keep-IsExclusive q apps s = record {
    hosts = All-keep (λ row. IsHost row.host) q apps s.hosts;
    by_host = λ h. ground (arith, s.by_host h, count-keep-le q (λ row. text_eq row.host h) apps);
    by_instance = λ i.
        ground (arith, s.by_instance i, count-keep-le q (λ row. text_eq row.instance_id i) apps);
  }

  abbrev pub Keeps : Stored Tables → Type 0
  Keeps s = IsExclusive s.rows.apps

  valid-IsHost :
      (id raw : Text) (app : App)
      → validate_register_app_request base_domain id raw ≡ ok app
      → IsHost app.host
  unfolding validate_register_app_request
  valid-IsHost id raw app h = elim (Bool-cases (is_empty (normalize_host base_domain))) [
    | inl baseless ↦ absurd (ground (arith, baseless, h))
    | inr based ↦ elim (Bool-cases (is_empty (normalize_subdomain raw))) [
      | inl nameless ↦ absurd (ground (arith, based, nameless, h))
      | inr named ↦ elim (Bool-cases (valid_subdomain (normalize_subdomain raw))) [
        | inr bad ↦ absurd (ground (arith, based, named, bad, h))
        | inl good ↦ (normalize_subdomain raw, good, ground (arith, based, named, good, h))
      ]
    ]
  ]

  save-Keeps :
      (owner : ℕ) (app : App) (s : Stored Tables)
      → IsHost app.host
      → Keeps s
      → Keeps (save_for_instance owner app s).1
  unfolding save_for_instance
  save-Keeps owner app s host k = elim (Bool-cases (next_fault s.faults).0) [
    | inl fails ↦ rw fails k
    | inr answers ↦
        elim (Option-cases (find (is_instance owner app.instance_id) s.rows.instances)) [
          | inl absent ↦ rw (answers, absent) k
          | inr (row, there) ↦ elim (Bool-cases (next_fault (next_fault s.faults).1).0) [
            | inl fails ↦ rw (answers, there, fails) k
            | inr saves ↦ elim (Bool-cases (any (clashes app) s.rows.apps)) [
              | inl taken ↦ rw (answers, there, saves, taken) k
              | inr free ↦
                  rw (answers, there, saves, free) (insert-IsExclusive app s.rows.apps host free k)
            ]
          ]
        ]
  ]

  delete-Keeps :
      (owner : ℕ) (raw : Text) (s : Stored Tables) → Keeps s → Keeps (delete_app owner raw s).1
  unfolding delete_app delete_by_instance
  delete-Keeps owner raw s k =
      let theirs = is_app owner (trim_space raw) s.rows.instances in
      elim (Bool-cases (next_fault s.faults).0) [
        | inl fails ↦ rw fails k
        | inr answers ↦ elim (Bool-cases (any theirs s.rows.apps)) [
          | inr absent ↦ rw (answers, absent) k
          | inl there ↦
              rw (answers, there) (keep-IsExclusive (λ row. not (theirs row)) s.rows.apps k)
        ]
      ]

  register-Keeps :
      (owner : ℕ) (checked : Result Error App) (s : Stored Tables)
      → ((app : App) → checked ≡ ok app → IsHost app.host)
      → Keeps s
      → Keeps (register_valid owner checked s).1
  register-Keeps owner (err e) s h k = k
  register-Keeps owner (ok app) s h k =
      saved-Keeps app (save_for_instance owner app s).0 (save_for_instance owner app s).1
        (save-Keeps owner app s (h app refl) k)
    where
      saved-Keeps :
          (app : App) (r : Result Error (Unit {0})) (v : Stored Tables)
          → Keeps v
          → Keeps (continue (λ _ u. (ok app, u)) (r, v)).1
      saved-Keeps app (ok _) v k = k
      saved-Keeps app (err e) v k = k

-- the calls of owners, and whatever becomes of the rows of instances meanwhile
pub data Call : Type 0 where
  registers : (owner : ℕ) (instance_id subdomain : Text) → Call
  deletes : (owner : ℕ) (instance_id : Text) → Call
  instances_become : List InstanceRow → Call

unfoldable pub step : Text → Stored Tables → Call → Stored Tables
step base s (registers owner id raw) = (register_app base owner id raw s).1
step base s (deletes owner raw) = (delete_app owner raw s).1
step base s (instances_become rows) = record s { rows = record s.rows { instances = rows } }

unfoldable pub run : Text → Stored Tables → List Call → Stored Tables
run base s [] = s
run base s (c ∷ cs) = run base (step base s c) cs

step-Keeps :
    (base : Text) (s : Stored Tables) (c : Call) → Keeps base s → Keeps base (step base s c)
unfolding step register_app
step-Keeps base s (registers owner id raw) k =
    register-Keeps base owner (validate_register_app_request base id raw) s
      (valid-IsHost base id raw) k
step-Keeps base s (deletes owner raw) k = delete-Keeps base owner raw s k
step-Keeps base s (instances_become rows) k = k

-- Whatever calls are made in whatever order, whichever queries fail, and whatever becomes of the
-- instances: no two apps have a host, no instance has two apps, and every host is one valid label
-- below the base domain.
pub run-IsExclusive :
    (base : Text) (s : Stored Tables) (cs : List Call)
    → IsExclusive base s.rows.apps
    → IsExclusive base (run base s cs).rows.apps
unfolding run
run-IsExclusive base s [] k = k
run-IsExclusive base s (c ∷ cs) k = run-IsExclusive base (step base s c) cs (step-Keeps base s c k)
