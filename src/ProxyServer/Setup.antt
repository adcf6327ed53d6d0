-- ===== src/ProxyServer/Setup.antt =====
-- src/proxy_server.rs: the key of a machine's client, its verification and its rotation.
use wakezilla.Prelude.{
  ◌==◌, if◌then◌else◌, get_elem?, set, find, position, str_eq, ◌^^◌, Result, ◌>>=◌, ok_or, ok, err,
  ℕ, String, Bool, true, false, not, ◌&&◌, Option, none, some, show,
}
use wakezilla.Net.{ipv4_eq}
use wakezilla.Machine.{Machine}
use wakezilla.Common.{
  ShutdownSetupStatus, ShutdownSetup, disabled, legacy, pending, verified, unreachable,
  key_mismatch,
}
use wakezilla.AppState.{AppState, MachinesJson, Write, save_machines}
use wakezilla.Forward
use wakezilla.Forward.{ClientVerification}

abbrev pub setup_without_commands : ShutdownSetupStatus → ShutdownSetup
setup_without_commands status = record {
  status = status;
  unix_command = none;
  windows_command = none;
}

abbrev pub setup_args : (port : ℕ) → (key : String) → String
setup_args port key =
    "wakezilla setup --mode client --port " ^^ (show port ^^ (" --key " ^^ (key ^^ " --yes")))

-- can_be_turned_off, with a port
unfoldable pub shutdown_port : Machine → Option ℕ
shutdown_port machine = if machine.can_be_turned_off then machine.turn_off_port else none

unfoldable pub shutdown_setup_for_machine : Machine → ShutdownSetup
unfolding shutdown_port
shutdown_setup_for_machine machine = elim (shutdown_port machine) [
  | none ↦ setup_without_commands disabled
  | some port ↦ elim machine.shutdown_auth_key [
    | none ↦ setup_without_commands legacy
    | some key ↦
        if machine.shutdown_auth_verified then setup_without_commands verified else record {
          status = pending;
          unix_command = some ("sudo " ^^ setup_args port key);
          windows_command = some (setup_args port key);
        }
  ]
]

unfoldable pub set_key : Option String → Bool → Machine → Machine
set_key key is_verified machine = record machine {
  shutdown_auth_key = key;
  shutdown_auth_verified = is_verified;
}

unfoldable pub option_eq : Option ℕ → Option ℕ → Bool
option_eq none none = true
option_eq (some a) (some b) = a == b
option_eq _ _ = false

unfoldable pub connection_unchanged : (old new : Machine) → Bool
unfolding option_eq
connection_unchanged old new =
    str_eq old.mac new.mac
    && (ipv4_eq old.ip new.ip && option_eq old.turn_off_port new.turn_off_port)

-- `generated_key` is what `generate_key` returns.
unfoldable pub apply_shutdown_security :
    (generated_key : String) → (old : Option Machine) → (new : Machine) → Machine
unfolding shutdown_port set_key connection_unchanged
apply_shutdown_security generated_key old new = elim (shutdown_port new) [
  | none ↦ set_key none false new
  | some _ ↦ elim old [
    | none ↦ set_key (some generated_key) false new
    | some old ↦ elim (shutdown_port old) [
      | none ↦ set_key (some generated_key) false new
      | some _ ↦ elim old.shutdown_auth_key [
        | none ↦ set_key none false new
        | some key ↦
            set_key (some key) (old.shutdown_auth_verified && connection_unchanged old new) new
      ]
    ]
  ]
]

abbrev pub has_mac : String → Machine → Bool
has_mac mac machine = str_eq machine.mac mac

unfoldable pub is_pending : ShutdownSetupStatus → Bool
is_pending pending = true
is_pending _ = false

pub data SetupError : Type 0 where
  machine_not_found shutdown_is_disabled failed_to_persist : SetupError

unfoldable pub get_shutdown_setup : AppState → (mac : String) → Result ShutdownSetup SetupError
get_shutdown_setup state mac = do
  machine ← ok_or (find (has_mac mac) state.machines) machine_not_found
  ok (shutdown_setup_for_machine machine)

-- What `verify_shutdown_setup` does before it asks the client. `panics` stands for the two `expect`.
pub data Begun : Type 0 where
  answered : Result ShutdownSetup SetupError → Begun
  asks : (machine : Machine) → (port : ℕ) → (key : String) → Begun
  panics : Begun

unfoldable pub begin_verification : AppState → (mac : String) → Begun
unfolding is_pending
begin_verification state mac = elim (find (has_mac mac) state.machines) [
  | none ↦ answered (err machine_not_found)
  | some machine ↦
      let setup = shutdown_setup_for_machine machine in
      if not (is_pending setup.status)
      then answered (ok setup)
      else elim machine.shutdown_auth_key [
        | none ↦ panics
        | some key ↦ elim machine.turn_off_port [
          | none ↦ panics
          | some port ↦ asks machine port key
        ]
      ]
]

unfoldable pub is_key : (key : String) → Option String → Bool
is_key key none = false
is_key key (some other) = str_eq other key

abbrev pub with_status : ShutdownSetupStatus → ShutdownSetup → ShutdownSetup
with_status status setup = record setup { status = status }

-- A change of one machine's key that is undone where the list cannot be saved.
unfoldable pub persist :
    MachinesJson
    → Write
    → (index : ℕ) → Machine
    → AppState
    → AppState × Result ShutdownSetup SetupError
unfolding save_machines
persist json write index machine state =
    let machines = set state.machines index machine in
    let (state', result) = save_machines json write machines state in
    elim result [
      | ok _ ↦ (record state' { machines = machines }, ok (shutdown_setup_for_machine machine))
      | err _ ↦ (state', err failed_to_persist)
    ]

-- What it does after, in the state that it then finds. `machines[index]` is in range, since
-- `position` found it.
unfoldable pub finish_verification :
    MachinesJson
    → Write
    → (mac : String) → Machine
    → (key : String) → ClientVerification
    → AppState
    → AppState × Result ShutdownSetup SetupError
unfolding is_key set_key persist
finish_verification json write mac machine key Forward.key_mismatch state =
    (state, ok (with_status key_mismatch (shutdown_setup_for_machine machine)))
finish_verification json write mac machine key Forward.unreachable state =
    (state, ok (with_status unreachable (shutdown_setup_for_machine machine)))
finish_verification json write mac machine key Forward.verified state =
    elim (position (has_mac mac) state.machines) [
      | none ↦ (state, err machine_not_found)
      | some index ↦ elim (get_elem? state.machines index) [
        | none ↦ (state, err machine_not_found)
        | some current ↦
            if is_key key current.shutdown_auth_key
            then persist json write index (set_key current.shutdown_auth_key true current) state
            else (state, ok (shutdown_setup_for_machine current))
      ]
    ]

unfoldable pub rotate_shutdown_key :
    MachinesJson
    → Write
    → (generated_key : String) → (mac : String) → AppState
    → AppState × Result ShutdownSetup SetupError
unfolding shutdown_port set_key persist
rotate_shutdown_key json write generated_key mac state =
    elim (position (has_mac mac) state.machines) [
      | none ↦ (state, err machine_not_found)
      | some index ↦ elim (get_elem? state.machines index) [
        | none ↦ (state, err machine_not_found)
        | some machine ↦ elim (shutdown_port machine) [
          | none ↦ (state, err shutdown_is_disabled)
          | some _ ↦ persist json write index (set_key (some generated_key) false machine) state
        ]
      ]
    ]
