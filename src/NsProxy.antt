-- ===== src/NsProxy.antt =====
-- cmd/ns-proxy: the SOCKS5 proxy into the private network.
pub mod Server
