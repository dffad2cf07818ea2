-- ===== src/Access.antt =====
-- internal/domain/access: key pairs, console sessions, and when a console is torn down.
pub mod Consoles
pub mod KeyPairs
pub mod Opening
pub mod Liveness
