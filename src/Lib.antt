-- ===== src/Lib.antt =====
-- rcp-server is the Go backend of a student cloud: an API server in front of OpenStack, which
-- also runs WebAssembly functions with storage of their own, and gateways beside it. This library
-- models the parts that carry its own logic, and proves that they keep what they promise. Paths
-- are from the repository's root.
--
-- - Functions: internal/domain/functions. Data is data.go (get, list, put, delete,
--   delete_function are the methods of DataStore); Sql is validateSQL of sql_database.go;
--   Databases and Queries are the rest of sql_database.go (create_database, delete_database,
--   bind_database and the others, and query_database and query_binding); Keys is key.go
--   (issue_key, check_key, delete_key_row for RevokeKey, and check_public for InvokePublic up to
--   the execution); Protocol is data_protocol.go with limitedWriter of service.go (write, line
--   and finish are the methods of dataOutput, and take_replies is Read of dataInput, which the
--   guest calls between two Writes). Exec has the tables of the SQLite schema and a small monad:
--   a World is the tables, the files and the outcomes that the coming calls of the driver will
--   have, so every call may fail, and a transaction gives back the tables where its body fails. A
--   function's guest writes lines, Protocol reads requests in them, and these call Data and
--   Queries. Validation, Service and Invocation are service.go with repository.go: which modules
--   are accepted and when a run is an answer; create, create_source, update, update_source,
--   delete and the data of a function; and invoke, in both modes.
-- - SshGateway.Sessions: cmd/ssh-gateway/sessions.go. The store of pending sessions (open_session
--   is New) and the steps of its goroutines before and after they unlock the mutex; a schedule of
--   the steps is an interleaving.
-- - Auth: internal/domain/auth. Tokens is token_service.go, Refresh is RefreshAccessToken and
--   Logout of user_service.go, with the queries of repository.go; Filter is filter.go
--   (auth_required, admin_required and dev_auth for tryDevAuthBypass); Login is oauth_service.go
--   and the state of a callback in handler.go. Sessions runs the writes of requests one after the
--   other, in any interleaving of their reads.
-- - Access: internal/domain/access. KeyPairs and Opening are service.go and repository.go
--   (create_key_pair, delete_key_pair and create_console_session, which opens a session in
--   Consoles); Consoles is console_session.go (create, take_session, list_keys, delete_key,
--   add_key); Liveness is console_liveness.go (check, and watch for watchConsole).
-- - Compute: internal/domain/compute. Instances, Creation and Listing are the methods of
--   service.go on instances, with the queries of repository.go; Flavors is the flavor cache;
--   Quota is GetAvailableFlavorsWithLimit. OpenStack is a script of the replies that it will
--   give, with a log of the calls and their replies, and the database fails where a list of
--   faults says so. History runs the methods one after the other.
-- - Storage: internal/domain/storage. service.go and repository.go on containers and objects;
--   Archive is ArchiveObjects. Swift is a script of replies, as OpenStack is for Compute.
-- - BlockStorage: internal/domain/blockstorage. The queries, the responses and resolve_volume are
--   in BlockStorage, the methods of service.go in Volumes.
-- - Apps: internal/domain/apps. service.go and repository.go; Hosts has the histories of calls.
-- - NsProxy: cmd/ns-proxy. Server is the accept loop of server.go with its slots and counters,
--   and the deferred steps of its goroutines, in any order.
-- - AppGateway: cmd/app-gateway. Addresses is fixedIPv4FromAddresses of resolver.go, and Resolver
--   is the cache of resolver_cache.go.
-- - Base, Effects, Table, Stdlib: what the parts share. Effects has methods that may fail, over a
--   database with faults and a remote interface with a script of replies; Table is an association
--   list with keys, for a table with a primary key and for a Go map; Stdlib has the functions of
--   Go's standard library that the source uses: strings, and json.Valid.
--
-- The loop of validateSQL runs on fuel, one more than the statement has bytes; each round reads a
-- byte at least, so that is enough. Every other loop is structural. Times are natural numbers.
-- Signed integers of Go appear where they matter, as ℤ; no sum of the source comes near 2^63 for
-- inputs that pass its limits, so no wrap-around is written out.
--
-- Not modelled: HTTP and SSH wire formats, the HTTP handlers, OpenStack's, SQLite's and Google's
-- own behaviour, the WebAssembly runtime, and ent's generated queries. What SQLite answers to a
-- statement, how the JSON of a request decodes, and SHA-256 are parameters; of SHA-256 its length
-- is a hypothesis. So are the JWT library, the table of Unicode for the e-mails of AdminRequired
-- beyond ASCII, what Google answers, the parser of SSH keys, the compiler of modules, what a run
-- of one writes, and the ZIP writer. Concurrency is modelled where the code's own mutexes and
-- goroutines matter: in the sessions of the SSH gateway, in the flavor cache and in the accept
-- loop of ns-proxy.
pub mod Base
pub mod Table
pub mod Stdlib
pub mod Functions
pub mod SshGateway
pub mod Access
pub mod Compute
pub mod NsProxy
pub mod AppGateway
pub mod Effects
pub mod Auth
pub mod Storage
pub mod BlockStorage
pub mod Apps
