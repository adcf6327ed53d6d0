-- ===== src/Tui.antt =====
-- src/tui.rs: the state of the terminal UI and its keys. What the server answers to a request is an
-- argument, and the requests that change something on the server are returned. Drawing is left out.
pub mod Selection
use wakezilla.Prelude.{
  leb, ◌==◌, if◌then◌else◌, is_some, length, get_elem?, ◌^^◌, HashMap, Result, ok, err, ℕ, ◌+◌, ◌-◌,
  ◌%◌, String, Bool, true, false, ◌||◌, Option, none, some, List, [], ◌∷◌,
}
use wakezilla.Common.{Machine}
use wakezilla.ProxyServer.Hosts.{ServiceAccessHistory}

pub data MessageLevel : Type 0 where
  info success failure : MessageLevel

pub record StatusMessage : Type 0 where
  pub text : String
  pub level : MessageLevel
  pub created_at : ℕ

pub record App : Type 0 where
  pub machines : List Machine
  pub statuses : HashMap (Option Bool)
  pub access_history : Option (List ServiceAccessHistory)
  pub selected : ℕ
  pub loading : Bool
  pub should_quit : Bool
  pub confirm_delete : Bool
  pub message : Option StatusMessage
  pub last_refresh : ℕ

-- The answers of the server while one key is handled.
pub record ApiClient : Type 0 where
  pub list_machines : Result (List Machine) String
  pub statuses_for : List Machine → HashMap (Option Bool)
  pub access_history : String → Option (List ServiceAccessHistory)
  pub wake_machine : String → Result String String
  pub turn_off_machine : String → Result String String
  pub delete_machine : String → Result String String

pub data Call : Type 0 where
  wake turn_off delete : (mac : String) → Call

unfoldable pub selected_machine : App → Option Machine
selected_machine app = get_elem? app.machines app.selected

unfoldable pub next : App → App
next app =
    if length app.machines == 0
    then app
    else record app { selected = (app.selected + 1) % length app.machines }

unfoldable pub previous : App → App
previous app = if length app.machines == 0 then app else record app {
  selected = if app.selected == 0 then length app.machines - 1 else app.selected - 1;
}

unfoldable pub set_message : String → MessageLevel → (now : ℕ) → App → App
set_message text level now app = record app {
  message = some (record { text = text; level = level; created_at = now });
}

unfoldable pub load_selected_history : ApiClient → App → App
unfolding selected_machine
load_selected_history client app = elim (selected_machine app) [
  | none ↦ record app { access_history = none }
  | some machine ↦ record app { access_history = client.access_history machine.mac }
]

unfoldable pub with_machines : ApiClient → List Machine → App → App
with_machines client machines app = record app {
  machines = machines;
  selected = if leb (length machines) app.selected then length machines - 1 else app.selected;
  statuses = client.statuses_for machines;
}

unfoldable pub refreshed : ApiClient → (now : ℕ) → List Machine → App → App
unfolding load_selected_history set_message with_machines
refreshed client now machines app =
    set_message "Loaded machines" success now
      (record (load_selected_history client (with_machines client machines app)) {
        loading = false;
        last_refresh = now;
      })

unfoldable pub refresh : ApiClient → (now : ℕ) → App → App
unfolding refreshed set_message
refresh client now app = elim client.list_machines [
  | ok machines ↦ refreshed client now machines app
  | err error ↦ set_message ("API error: " ^^ error) failure now (record app { loading = false })
]

unfoldable pub report : Result String String → (prefix : String) → (now : ℕ) → App → App
unfolding set_message
report (ok message) prefix now app = set_message message success now app
report (err error) prefix now app = set_message (prefix ^^ error) failure now app

unfoldable pub wake_selected : ApiClient → (now : ℕ) → App → App × List Call
unfolding selected_machine set_message report
wake_selected client now app = elim (selected_machine app) [
  | none ↦ (set_message "No machine selected" info now app, [])
  | some machine ↦
      (report (client.wake_machine machine.mac) "Wake failed: " now app, wake machine.mac ∷ [])
]

unfoldable pub turn_off_selected : ApiClient → (now : ℕ) → App → App × List Call
unfolding selected_machine set_message report
turn_off_selected client now app = elim (selected_machine app) [
  | none ↦ (set_message "No machine selected" info now app, [])
  | some machine ↦ (
    report (client.turn_off_machine machine.mac) "Turn off failed: " now app,
    turn_off machine.mac ∷ [],
  )
]

unfoldable pub after_deletion : ApiClient → Result String String → (now : ℕ) → App → App
unfolding set_message refresh
after_deletion client (ok message) now app =
    refresh client now (set_message message success now app)
after_deletion client (err error) now app = set_message ("Delete failed: " ^^ error) failure now app

unfoldable pub delete_selected : ApiClient → (now : ℕ) → App → App × List Call
unfolding selected_machine set_message after_deletion
delete_selected client now app = elim (selected_machine app) [
  | none ↦ (set_message "No machine selected" info now app, [])
  | some machine ↦
      (after_deletion client (client.delete_machine machine.mac) now app, delete machine.mac ∷ [])
]

-- A key: Control and c, a letter as its code, or another key.
pub data Key : Type 0 where
  control_c esc down up other_key : Key
  char : ℕ → Key

-- What a key asks for where no deletion waits for its confirmation.
pub data Command : Type 0 where
  quit move_down move_up reload wake_up shut_down ask_delete ignore : Command

unfoldable pub command_of : Key → Command
command_of esc = quit
command_of down = move_down
command_of up = move_up
command_of control_c = quit
command_of other_key = ignore
command_of (char c) =
    if c == b'q'
    then quit
    else if c == b'j'
    then move_down
    else if c == b'k'
    then move_up
    else if c == b'r'
    then reload
    else if c == b'w'
    then wake_up
    else if c == b't'
    then shut_down
    else if c == b'd'
    then ask_delete
    else ignore

unfoldable pub run_command : Command → ApiClient → (now : ℕ) → App → App × List Call
unfolding next previous load_selected_history refresh wake_selected turn_off_selected
    selected_machine
run_command quit client now app = (record app { should_quit = true }, [])
run_command move_down client now app = (load_selected_history client (next app), [])
run_command move_up client now app = (load_selected_history client (previous app), [])
run_command reload client now app = (refresh client now app, [])
run_command wake_up client now app = wake_selected client now app
run_command shut_down client now app = turn_off_selected client now app
run_command ask_delete client now app =
    (if is_some (selected_machine app) then record app { confirm_delete = true } else app, [])
run_command ignore client now app = (app, [])

unfoldable pub is_yes : Key → Bool
is_yes (char c) = c == b'y' || c == b'Y'
is_yes _ = false

unfoldable pub is_interrupt : Key → Bool
is_interrupt control_c = true
is_interrupt _ = false

unfoldable pub handle_key : ApiClient → (now : ℕ) → Key → App → App × List Call
unfolding is_interrupt is_yes delete_selected set_message command_of run_command
handle_key client now key app =
    if is_interrupt key
    then (record app { should_quit = true }, [])
    else if app.confirm_delete
    then (if is_yes key
        then delete_selected client now (record app { confirm_delete = false })
        else (set_message "Delete cancelled" info now (record app { confirm_delete = false }), []))
    else run_command (command_of key) client now app
