-- ===== src/Witnesses/Fixtures.antt =====
-- Machines, a state of the server and requests for the runs of its handlers.
use wakezilla.Prelude.{true, none, some, [], ◌∷◌}
use wakezilla.Common.{computer, MachinePayload}
use wakezilla.Machine.{PortForward, Machine}
use wakezilla.AppState.{AppState, written, failed}
use wakezilla.ProxyServer.Machines.{Env}

abbrev pub ssh : PortForward
ssh = record { name = "ssh"; local_port = 2222; target_port = 22 }

abbrev pub machine_one : Machine
machine_one = record {
  mac = "00:11:22:AA:BB:CC";
  ip = record { a = 10; b = 0; c = 0; d = 1 };
  name = "one";
  machine_type = computer;
  description = none;
  turn_off_port = some 3001;
  can_be_turned_off = true;
  shutdown_auth_key = some "key";
  shutdown_auth_verified = true;
  inactivity_period = 10;
  port_forwards = ssh ∷ [];
}

abbrev pub payload_two : MachinePayload
payload_two = record {
  machine_type = none;
  mac = "00:11:22:AA:BB:CD";
  ip = "10.0.0.2";
  name = "two";
  description = none;
  turn_off_port = some 3001;
  can_be_turned_off = true;
  inactivity_period = none;
  port_forwards = some (record { name = some "web"; local_port = 8080; target_port = 80 } ∷ []);
}

abbrev pub state_one : AppState
state_one = record {
  machines = machine_one ∷ [];
  database = some "one";
  proxies = [];
  spawned = [];
  turn_off_limiter = [];
  monitor_handle = none;
  next_monitor = 0;
}

abbrev pub env_written : Env
env_written = record {
  json = record { to_string = λ _. "one"; from_str = λ _. some (machine_one ∷ []) };
  generated_key = "new";
  now = 5;
  write = written;
}

abbrev pub env_failed : Env
env_failed = record env_written { write = failed none }
