-- ===== src/AppState.antt =====
-- `AppState` of src/web.rs: what the handlers of the server share, how machines are stored, and how
-- the forwarders of a machine are started. Each lock is a field; a spawned task that has not run yet
-- is an element of `spawned`. The JSON library and the outcome of writing the file are arguments.
pub mod Timers
use wakezilla.Prelude.{
  ◌==◌, if◌then◌else◌, length, get_elem?, take, drop, ◌^^◌, HashMap, insert, Result, ◌>>=◌, ◌>>◌,
  ok_or, ok, err, show, ℕ, suc, String, Bool, not, ◌&&◌, Option, none, some, List, ◌++◌, map,
}
use wakezilla.Net.{Ipv4}
use wakezilla.Machine.{PortForward, Machine}
use wakezilla.Limiter.{TurnOffLimiter, remove_machine, initialize_machine}

-- A running `proxy_internal`; it stops when its sender leaves the map.
pub record Forwarder : Type 0 where
  pub local_port : ℕ
  pub target_ip : Ipv4
  pub target_port : ℕ
  pub machine : Machine

-- `database` is the text of the machines database, `none` where there is no file; `monitor_handle` is
-- the number of the running monitor, and `next_monitor` that of the next one.
pub record AppState : Type 0 where
  pub machines : List Machine
  pub database : Option String
  pub proxies : HashMap Forwarder
  pub spawned : List (String × Forwarder)
  pub turn_off_limiter : TurnOffLimiter
  pub monitor_handle : Option ℕ
  pub next_monitor : ℕ

-- serde_json
pub record MachinesJson : Type 0 where
  pub to_string : List Machine → String
  pub from_str : String → Option (List Machine)

-- A write that fails may leave the file with any text.
pub data Write : Type 0 where
  written : Write
  failed : (left : Option String) → Write

unfoldable pub save_machines :
    MachinesJson → Write → List Machine → AppState → AppState × Result (Unit {0}) (Unit {0})
save_machines json written machines state =
    (record state { database = some (json.to_string machines) }, ok tt)
save_machines json (failed left) machines state = (record state { database = left }, err tt)

pub data LoadError : Type 0 where
  unreadable unparsable : LoadError

unfoldable pub load_machines_from_path : MachinesJson → AppState → Result (List Machine) LoadError
load_machines_from_path json state = do
  data_text ← ok_or state.database unreadable
  machines ← ok_or (json.from_str data_text) unparsable
  ok machines

unfoldable pub proxy_key : (mac : String) → PortForward → String
proxy_key mac pf = mac ^^ ("-" ^^ (show pf.local_port ^^ ("-" ^^ show pf.target_port)))

unfoldable pub forwarder : Machine → PortForward → String × Forwarder
unfolding proxy_key
forwarder machine pf = (
  proxy_key machine.mac pf,
  record {
    local_port = pf.local_port;
    target_ip = machine.ip;
    target_port = pf.target_port;
    machine = machine;
  },
)

abbrev pub has_services : Machine → Bool
has_services machine = not (length machine.port_forwards == 0)

-- machine.turn_off_port.filter(|_| machine.can_be_turned_off && !machine.port_forwards.is_empty())
unfoldable pub monitored_port : Machine → Option ℕ
monitored_port machine =
    if machine.can_be_turned_off && has_services machine then machine.turn_off_port else none

unfoldable pub start_timer : Machine → (now : ℕ) → TurnOffLimiter → TurnOffLimiter
unfolding monitored_port initialize_machine remove_machine
start_timer machine now limiter = elim (monitored_port machine) [
  | none ↦ remove_machine limiter machine.mac
  | some port ↦ initialize_machine limiter machine port now
]

unfoldable pub start_proxy_if_configured : Machine → (now : ℕ) → AppState → AppState
unfolding start_timer forwarder
start_proxy_if_configured machine now state = record state {
  turn_off_limiter = start_timer machine now state.turn_off_limiter;
  spawned = state.spawned ++ map (forwarder machine) machine.port_forwards;
}

-- The i-th spawned task takes the lock and inserts its sender.
unfoldable pub run_spawned : (i : ℕ) → AppState → AppState
run_spawned i state = elim (get_elem? state.spawned i) [
  | none ↦ state
  | some (key, f) ↦ record state {
    proxies = insert key f state.proxies;
    spawned = take i state.spawned ++ drop (suc i) state.spawned;
  }
]

unfoldable pub start_global_monitor : AppState → AppState
start_global_monitor state = elim state.monitor_handle [
  | some _ ↦ state
  | none ↦ record state {
    monitor_handle = some state.next_monitor;
    next_monitor = suc state.next_monitor;
  }
]

unfoldable pub restart_global_monitor : AppState → AppState
restart_global_monitor state = record state {
  monitor_handle = some state.next_monitor;
  next_monitor = suc state.next_monitor;
}
