-- ===== src/Common.antt =====
-- common/src/lib.rs: the types that the server, the terminal UI and the dashboard exchange.
use wakezilla.Prelude.{ℕ, String, Bool, false, Option, none, List, []}

pub data MachineType : Type 0 where
  server nas computer mini_pc raspberry_pi notebook : MachineType

pub data ShutdownSetupStatus : Type 0 where
  disabled legacy pending verified unreachable key_mismatch : ShutdownSetupStatus

pub record ShutdownSetup : Type 0 where
  pub status : ShutdownSetupStatus
  pub unix_command : Option String
  pub windows_command : Option String

pub record PortForward : Type 0 where
  pub name : Option String
  pub local_port : ℕ
  pub target_port : ℕ

pub record Machine : Type 0 where
  pub name : String
  pub machine_type : MachineType
  pub mac : String
  pub ip : String
  pub description : Option String
  pub turn_off_port : Option ℕ
  pub can_be_turned_off : Bool
  pub inactivity_period : ℕ
  pub port_forwards : List PortForward

-- Machine::default
abbrev pub default_machine : Machine
default_machine = record {
  name = "";
  machine_type = server;
  mac = "";
  ip = "";
  description = none;
  turn_off_port = none;
  can_be_turned_off = false;
  inactivity_period = 60;
  port_forwards = [];
}

-- AddMachinePayload and UpdateMachinePayload have the same fields.
pub record MachinePayload : Type 0 where
  pub machine_type : Option MachineType
  pub mac : String
  pub ip : String
  pub name : String
  pub description : Option String
  pub turn_off_port : Option ℕ
  pub can_be_turned_off : Bool
  pub inactivity_period : Option ℕ
  pub port_forwards : Option (List PortForward)

pub record DeleteMachinePayload : Type 0 where
  pub mac : String

pub record NetworkInterface : Type 0 where
  pub name : String
  pub ip : String
  pub mac : String
  pub is_up : Bool

pub record DiscoveredDevice : Type 0 where
  pub ip : String
  pub mac : String
  pub hostname : Option String
