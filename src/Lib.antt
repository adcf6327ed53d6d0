-- ===== src/Lib.antt =====
-- Verification of Wakezilla, a server that wakes machines up when a client connects to one of their
-- services, forwards the connection, and turns idle machines off.
--
-- The server (`src/proxy_server.rs`, `src/web.rs`) keeps a list of machines, in memory and in a JSON
-- file. For each service of a machine it runs a forwarder (`src/forward.rs`): a connection is recorded
-- in the access log (`src/access_log.rs`), resets the machine's inactivity timer, wakes the machine up
-- where it does not answer (`src/wol.rs`), and is then copied to it. A monitor looks at the timers
-- every second and sends a signed request to the client on an idle machine
-- (`src/client_server.rs`), which checks it against its replay guard (`src/shutdown_auth.rs`).
--
-- Prelude holds what the parts share: Boolean tests on native numbers, lists, association lists for
-- hash maps, results, texts and decimals. Common, Machine and Net are the data: the types of
-- `common/src/lib.rs`, the machines of `src/web.rs` with their checks and conversions, and the address
-- parsers of the standard library that these call. AccessLog, ShutdownAuth, ClientServer and Wol model
-- the files of the same names; Limiter and Forward model `src/forward.rs`, Forward.Connection the
-- function `proxy_internal`; AppState models the state and the start of forwarders in `src/web.rs`;
-- ProxyServer models `src/proxy_server.rs`, with Validation, Setup, Machines, Hosts and Startup for its
-- handlers. A function of the source has the definition of the same name, except that `record` is
-- `record_access`. The children of these modules prove what is listed below, and Witnesses applies
-- each theorem at a concrete run.
--
-- A handler is a function from the state to the state and the response; it holds the lock of the list
-- for as long as it runs, so handlers follow one another. `verify_shutdown_setup` releases the lock
-- while it asks the client, and is two functions, each with the state that it finds. A task that is
-- spawned waits in `spawned` until it runs, in any order. What the network, the clock, the file
-- system, the random numbers and the crates serde_json, base64 and hmac answer is an argument.
-- Numbers are natural numbers: an instant is a number of milliseconds, a port or byte is what its
-- type can hold, and the saturating product of the inactivity period is written out. Waiting loops
-- take fuel; `Wol.Waiting` and `Forward.Termination` show how much is enough. A copy of bytes that has
-- not returned is an outcome of its own.
--
-- Tui models the keys of the terminal UI (`src/tui.rs`), which is a client of the server.
--
-- Config models the settings of `src/config.rs` and the write of a secret file, Setup the wizard and
-- Setup.Apply the effects of a setup (`src/setup.rs`). Service models the modes and descriptors of
-- `src/service.rs`; Service.Disk the directory entries and system calls of an update of the protected
-- binary, each of which may be refused, Service.Binary the update, and Service.Install the
-- installation and Service.Uninstall the removal on Linux. Service.Rules has the rules by which these
-- calls are composed in proofs.
--
-- Update models `src/update.rs`: the choice of a release and its asset, the checksum, and with
-- Update.Files and Update.Run the search for the binary, in directories with links and with entries that
-- cannot be read, and its installation. The search takes the
-- number of directories as fuel, which its theorem shows to be enough.
--
-- Cli models the command line (`src/cli.rs`), ProxyServer.Assets the static files, and Dashboard the
-- buckets of the access history (`frontend/src/components/dashboard/history.rs`).
--
-- Not modelled: the parsing of the command line, the drawing of the UI, the scanner, the tray and the
-- rest of the dashboard, which are for the most part calls of the operating system and of libraries; of
-- `src/service.rs`, the services of Windows and macOS and the calls of the service manager; of
-- `src/proxy_server.rs`, the listener and the periodic save of the access log.
pub mod Prelude
pub mod Common
pub mod AccessLog
pub mod ShutdownAuth
pub mod ClientServer
pub mod Wol
pub mod Net
pub mod Machine
pub mod Limiter
pub mod Forward
pub mod AppState
pub mod ProxyServer
pub mod Tui
pub mod Service
pub mod Config
pub mod Setup
pub mod Update
pub mod Cli
pub mod Dashboard
mod Witnesses
