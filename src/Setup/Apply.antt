-- ===== src/Setup/Apply.antt =====
-- src/setup.rs: the configuration that a setup writes, and the order of its effects.
use wakezilla.Prelude.{
  if◌then◌else◌, is_some, unwrap_or, str_eq, trim, is_lowercase_of, Result, ok, err, ℕ, String,
  Bool, true, false, not, ◌&&◌, ◌||◌, Option, none, some, List, [], ◌∷◌,
}
use wakezilla.ShutdownAuth.{Crypto, validate_key, KeyError}
use wakezilla.Config.{
  default_machines_db_path, default_access_history_path, Config, default_config, data_path,
  config_path, Entry, Writing, WriteError, save_to,
}
use wakezilla.Service.{Mode, from_str_opt, mode_eq, proxy, client}
use wakezilla.Setup.{
  SetupArgs, Event, Outcome, new_wizard, wizard_loop, continues, chosen, cancelled,
}

pub data SetupError : Type 0 where
  not_elevated unknown_mode cancelled_setup key_without_client : SetupError
  no_executable invalid_key not_saved install_failed : SetupError
  aborted no_confirmation : SetupError

-- What a setup meets: the system, the configuration on disk, and the libraries.
pub record Host : Type 0 where
  pub current_exe : Option String
  pub path_exists : Bool
  pub installed_modes : List Mode
  pub load_from : Option Config
  pub crypto : Crypto
  pub to_string_pretty : Config → Option (List ℕ)
  pub writing : Writing
  pub install : Mode → String → ℕ → Bool

abbrev is_empty : List Mode → Bool
is_empty [] = true
is_empty (m ∷ modes) = false

unfoldable pub with_port : Mode → ℕ → Config → Config
with_port proxy port cfg = record cfg { server = record (cfg.server) { proxy_port = port } }
with_port client port cfg = record cfg { server = record (cfg.server) { client_port = port } }

unfoldable pub with_storage : Config → (machines_db_path access_history_path : String) → Config
with_storage cfg machines history = record cfg {
  storage = record (cfg.storage) { machines_db_path = machines; access_history_path = history };
}

-- build_config
unfoldable pub build_config : Mode → (port : ℕ) → Config
unfolding with_port with_storage data_path
build_config mode port =
    with_storage (with_port mode port default_config) (data_path default_machines_db_path)
      (data_path default_access_history_path)

-- A default path is made absolute.
unfoldable pub absolute : (path default : String) → String
unfolding data_path
absolute path default = if str_eq path default then data_path default else path

unfoldable pub absolute_storage : Config → Config
unfolding with_storage absolute
absolute_storage cfg =
    with_storage cfg (absolute cfg.storage.machines_db_path default_machines_db_path)
      (absolute cfg.storage.access_history_path default_access_history_path)

unfoldable pub existing_config : Host → Mode → ℕ → Config
unfolding build_config
existing_config host mode port =
    if host.path_exists
    then unwrap_or host.load_from (build_config mode port)
    else build_config mode port

unfoldable pub accept_key :
    (key : String) → Config → Result (Unit {0}) KeyError → Result Config SetupError
accept_key key cfg (ok valid) =
    ok (record cfg { security = record { client_shutdown_key = some key } })
accept_key key cfg (err e) = err invalid_key

-- The key of a client. It is checked before anything is written.
unfoldable pub with_key : Crypto → Mode → Option String → Config → Result Config SetupError
unfolding accept_key
with_key crypto client (some key) cfg = accept_key key cfg (validate_key crypto key)
with_key crypto client none cfg = ok cfg
with_key crypto proxy key cfg = ok cfg

unfoldable pub with_absolute_storage : Result Config SetupError → Result Config SetupError
unfolding absolute_storage
with_absolute_storage (ok cfg) = ok (absolute_storage cfg)
with_absolute_storage (err e) = err e

-- The configuration that apply_with_key saves.
unfoldable pub planned_config : Host → Mode → ℕ → Option String → Result Config SetupError
unfolding existing_config with_port with_key with_absolute_storage
planned_config host mode port key =
    with_absolute_storage
      (with_key host.crypto mode key (with_port mode port (existing_config host mode port)))

-- The file of the configuration, the services that were installed, and the result.
abbrev pub Effects : Type 0
Effects = Entry × List (Mode × String × ℕ) × Result String SetupError

unfoldable pub install_saved :
    Host → Mode → ℕ → (exe : String) → Entry × Result (Unit {0}) WriteError → Effects
install_saved host mode port exe (file, ok done) = (
  file,
  (mode, exe, port) ∷ [],
  if host.install mode exe port then ok config_path else err install_failed,
)
install_saved host mode port exe (file, err e) = (file, [], err not_saved)

unfoldable pub save_planned :
    Host → Mode → ℕ → (exe : String) → Entry → Result Config SetupError → Effects
unfolding save_to install_saved
save_planned host mode port exe file (ok cfg) =
    install_saved host mode port exe (save_to host.to_string_pretty host.writing file cfg)
save_planned host mode port exe file (err e) = (file, [], err e)

unfoldable pub apply_from : Host → Mode → ℕ → Option String → Entry → Option String → Effects
unfolding planned_config save_planned
apply_from host mode port key file none = (file, [], err no_executable)
apply_from host mode port key file (some exe) =
    save_planned host mode port exe file (planned_config host mode port key)

-- apply_with_key
unfoldable pub apply_with_key : Host → Mode → ℕ → Option String → Entry → Effects
unfolding apply_from
apply_with_key host mode port key file = apply_from host mode port key file host.current_exe

-- The mode and the port of the command line, or of the wizard where one of them is missing.
unfoldable pub of_wizard : Outcome → Result (Mode × ℕ) SetupError
of_wizard (continues w) = err cancelled_setup
of_wizard (chosen mode port) = ok (mode, port)
of_wizard cancelled = err cancelled_setup

unfoldable pub target : SetupArgs → List Event → Result (Mode × ℕ) SetupError
unfolding of_wizard wizard_loop new_wizard from_str_opt
target args events = elim args.mode [
  | some text ↦ elim args.port [
    | some port ↦ elim (from_str_opt text) [ some mode ↦ ok (mode, port) | none ↦ err unknown_mode ]
    | none ↦ of_wizard (wizard_loop (new_wizard args) events)
  ]
  | none ↦ of_wizard (wizard_loop (new_wizard args) events)
]

-- Whether there is something for existing_summary to tell.
unfoldable pub exists_already : Host → Bool
exists_already host = not (is_empty host.installed_modes) || host.path_exists

unfoldable pub is_agreement : (input : List ℕ) → Bool
unfolding trim is_lowercase_of
is_agreement input = is_lowercase_of (trim input) "y" || is_lowercase_of (trim input) "yes"

unfoldable pub answered : Option (List ℕ) → Result Bool SetupError
unfolding is_agreement
answered none = err no_confirmation
answered (some input) = ok (is_agreement input)

-- confirm_overwrite. `answer` is the line that the operator enters, `none` where it cannot be read.
unfoldable pub confirm_overwrite : Host → (answer : Option (List ℕ)) → Result Bool SetupError
unfolding exists_already answered
confirm_overwrite host answer = if exists_already host then answered answer else ok true

unfoldable pub confirmation : SetupArgs → Host → (answer : Option (List ℕ)) → Result Bool SetupError
unfolding confirm_overwrite
confirmation args host answer = if args.yes_flag then ok true else confirm_overwrite host answer

unfoldable pub run_confirmed :
    SetupArgs → Host → Entry → Mode → ℕ → Result Bool SetupError → Effects
unfolding apply_with_key mode_eq
run_confirmed args host file mode port (ok true) =
    if is_some args.key && not (mode_eq mode client)
    then (file, [], err key_without_client)
    else apply_with_key host mode port args.key file
run_confirmed args host file mode port (ok false) = (file, [], err aborted)
run_confirmed args host file mode port (err e) = (file, [], err e)

unfoldable pub run_target :
    SetupArgs → (answer : Option (List ℕ)) → Host → Entry → Result (Mode × ℕ) SetupError → Effects
unfolding confirmation run_confirmed
run_target args answer host file (ok (mode, port)) =
    run_confirmed args host file mode port (confirmation args host answer)
run_target args answer host file (err e) = (file, [], err e)

-- setup::run
unfoldable pub run :
    SetupArgs
    → (is_elevated : Bool) (answer : Option (List ℕ)) → List Event
    → Host
    → Entry
    → Effects
unfolding target run_target
run args is_elevated answer events host file =
    if is_elevated
    then run_target args answer host file (target args events)
    else (file, [], err not_elevated)
