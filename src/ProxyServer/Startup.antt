-- ===== src/ProxyServer/Startup.antt =====
-- `start_with_shutdown` of src/proxy_server.rs, up to the server's first request: the state is built
-- from the machines database, the monitor starts, and each machine's forwarders are spawned.
use wakezilla.Prelude.{
  Result, ok, err, ℕ, String, ◌≡◌, refl, ◌∙◌, Option, none, some, List, [], ◌∷◌, ◌++◌, map,
  append-nil, append_assoc,
}
use wakezilla.Machine.{Machine}
use wakezilla.AppState.{
  Forwarder, AppState, MachinesJson, LoadError, load_machines_from_path, forwarder,
  start_proxy_if_configured, start_global_monitor,
}

-- The machines that are loaded, or none where the loading fails.
unfoldable pub machines_or_none : Result (List Machine) LoadError → List Machine
machines_or_none (ok machines) = machines
machines_or_none (err e) = []

unfoldable pub empty_state : (database : Option String) → (machines : List Machine) → AppState
empty_state database machines = record {
  machines = machines;
  database = database;
  proxies = [];
  spawned = [];
  turn_off_limiter = [];
  monitor_handle = none;
  next_monitor = 0;
}

-- for machine in &initial_machines
unfoldable pub start_proxies : List Machine → (now : ℕ) → AppState → AppState
unfolding start_proxy_if_configured
start_proxies [] now state = state
start_proxies (machine ∷ machines) now state =
    start_proxies machines now (start_proxy_if_configured machine now state)

unfoldable pub start_state : MachinesJson → (now : ℕ) → (database : Option String) → AppState
unfolding machines_or_none empty_state start_proxies
start_state json now database =
    let initial_machines =
      machines_or_none (load_machines_from_path json (empty_state database [])) in
    start_proxies initial_machines now
      (start_global_monitor (empty_state database initial_machines))

-- One forwarder for each service of each machine.
pub forwarders_of : List Machine → List (String × Forwarder)
forwarders_of [] = []
forwarders_of (machine ∷ machines) =
    map (forwarder machine) machine.port_forwards ++ forwarders_of machines

start_proxies-forwarders_of :
    (machines : List Machine) (now : ℕ) (state : AppState)
    → ((start_proxies machines now state).spawned ≡ state.spawned ++ forwarders_of machines)
      × ((start_proxies machines now state).machines ≡ state.machines)
      × ((start_proxies machines now state).monitor_handle ≡ state.monitor_handle)
unfolding start_proxies forwarders_of start_proxy_if_configured
start_proxies-forwarders_of [] now state = (rw append-nil refl, refl, refl)
start_proxies-forwarders_of (machine ∷ machines) now state =
    let (spawned, kept, monitor) =
      start_proxies-forwarders_of machines now (start_proxy_if_configured machine now state) in
    (
      spawned
          ∙ append_assoc state.spawned (map (forwarder machine) machine.port_forwards)
              (forwarders_of machines),
      kept,
      monitor,
    )

-- A server whose database loads starts with these machines, with the monitor running, and with one
-- task for each service of each machine.
pub start_state-forwarders_of :
    (json : MachinesJson) (now : ℕ) (database : Option String) (machines : List Machine)
    → load_machines_from_path json (empty_state database []) ≡ ok machines
    → ((start_state json now database).machines ≡ machines)
      × ((start_state json now database).spawned ≡ forwarders_of machines)
      × ((start_state json now database).monitor_handle ≡ some 0)
unfolding start_state start_global_monitor
start_state-forwarders_of json now database machines loaded =
    let (spawned, kept, monitor) =
      start_proxies-forwarders_of machines now
        (start_global_monitor (empty_state database machines)) in
    rw (loaded, start_state) (kept, spawned, monitor)
