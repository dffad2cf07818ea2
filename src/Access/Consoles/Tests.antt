-- ===== src/Access/Consoles/Tests.antt =====
-- Runs of the console sessions, and their theorems at concrete calls.
use rcp_server.Base.{arith, ◌≡◌, ◌≤◌, refl, true, none, some, List, [], ◌∷◌, codes, text_eq, ◌++◌}
use rcp_server.Table.{texts, select, upsert}
use rcp_server.Access.Consoles.{
  ConsoleSession, ConsoleSessionStore, new_console_session_store, key_scope_same, scope_of, purge,
  delete_expired, put_key, create, take_session, list_keys, delete_key, add_key, Call, creates,
  takes, lists, deletes, step, run,
}
use rcp_server.Access.Consoles.Invariant.{IsMapped, new_console_session_store-IsMapped}
use rcp_server.Access.Consoles.Tokens.{Created, take-Created}
use rcp_server.Access.Consoles.Keys.{run-create-is_authorized, is_authorized}

abbrev draft : ConsoleSession
draft = record {
  token = [];
  owner_id = 1;
  instance_id = codes "vm";
  host = codes "10.0.0.5";
  username = codes "ubuntu";
  signer = 0;
  authorized_key = codes "ssh-ed25519 A";
  expires_at = 0;
}

abbrev made : ConsoleSession
made = record draft { token = codes "t"; expires_at = 130 }

opened : Unit {0}
unfolding new_console_session_store key_scope_same purge delete_expired put_key create take_session
    list_keys delete_key add_key step run select upsert text_eq
opened = tt

abbrev empty : ConsoleSessionStore
empty = new_console_session_store 120

abbrev calls : List Call
calls = creates (codes "t") 10 11 draft ∷ lists (codes "vm") (codes "ubuntu") 20 ∷ []

taken : (take_session (codes "t") 130 (run empty calls)).0 ≡ some made
unfolding opened
taken = refl

expired : (take_session (codes "t") 131 (run empty calls)).0 ≡ none
unfolding opened
expired = refl

listed :
    (list_keys (codes "vm") (codes "ubuntu") 130 (run empty calls)).0
    ≡ draft.authorized_key ++ (10 ∷ [])
unfolding opened
listed = refl

withdrawn :
    (list_keys (codes "vm") (codes "ubuntu") 12 (
      run empty (
        creates (codes "t") 10 11 draft
        ∷ deletes (codes "vm") (codes "ubuntu") draft.authorized_key
        ∷ []))).0
    ≡ []
unfolding opened
withdrawn = refl

empty-IsMapped : IsMapped empty
empty-IsMapped = new_console_session_store-IsMapped 120

take-Created_example : Created 120 (codes "t") made calls × (130 ≤ made.expires_at)
take-Created_example = take-Created (codes "t") 120 130 calls made taken

run-create-is_authorized_example :
    is_authorized 130 draft.authorized_key
      (scope_of draft.instance_id draft.username)
      (run (create (codes "t") 10 11 draft empty).1 (takes (codes "t") 40 ∷ []))
    ≡ true
unfolding opened
run-create-is_authorized_example =
    run-create-is_authorized (codes "t") 10 11 draft empty (takes (codes "t") 40 ∷ [])
      empty-IsMapped (omega arith, tt)
