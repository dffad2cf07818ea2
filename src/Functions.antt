-- ===== src/Functions.antt =====
-- internal/domain/functions: the data store, the databases, the SQL filter and the guest protocol.
pub mod Errors
pub mod Order
pub mod Exec
pub mod Data
pub mod Sql
pub mod Databases
pub mod Queries
pub mod Keys
pub mod Protocol
pub mod Validation
pub mod Service
pub mod Invocation
