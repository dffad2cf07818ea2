-- ===== src/AppGateway.antt =====
-- cmd/app-gateway: which address a host's requests go to.
pub mod Addresses
pub mod Resolver
