-- ===== src/SshGateway.antt =====
-- cmd/ssh-gateway: the sessions that wait for a browser login.
pub mod Sessions
