-- ===== src/ProxyServer.antt =====
-- src/proxy_server.rs: the handlers of the server's API. Validation checks a machine against the
-- others, Setup keeps the shutdown keys, Machines holds the handlers of the list of machines, and
-- Hosts those that talk to a machine; Startup builds the state that they start from.
pub mod Validation
pub mod Setup
pub mod Machines
pub mod Hosts
pub mod Valid
pub mod Accepted
pub mod Preserves
pub mod Invariant
pub mod Effects
pub mod Keys
pub mod Deletion
pub mod Waking
pub mod Startup
pub mod Assets
