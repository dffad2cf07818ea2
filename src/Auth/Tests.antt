-- ===== src/Auth/Tests.antt =====
-- Tests of the authentication, and its theorems at concrete requests.
mod Plain
mod Data
mod Sessions
mod Filter
