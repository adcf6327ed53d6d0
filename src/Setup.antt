-- ===== src/Setup.antt =====
-- src/setup.rs: the wizard, its keys, the plan of a setup and the choice of a service. Drawing and the
-- terminal are left out: a run of the wizard is the sequence of its events.
pub mod Apply
pub mod Ports
pub mod Progress
pub mod Order
pub mod Kept
pub mod Admission
use wakezilla.Prelude.{
  ltb, ◌==◌, if◌then◌else◌, unwrap_or, length, position, ◌^^◌, codes, is_ascii_digit,
  to_ascii_lowercase, show, parse_uint, ℕ, ◌-◌, String, Bool, true, false, ◌&&◌, ◌||◌, Option, none,
  some, List, [], ◌∷◌, get_elem?, Result, ok_or, ok, err, ◌+◌, ◌%◌,
}
use wakezilla.Service.{Mode, from_str_opt, default_port, mode_eq, proxy, client, installed_modes}

pub record SetupArgs : Type 0 where
  pub mode : Option String
  pub port : Option ℕ
  pub key : Option String
  pub yes_flag : Bool

pub data Step : Type 0 where
  mode_select port_input confirm : Step

pub record Wizard : Type 0 where
  pub step : Step
  pub mode : Mode
  pub port_text : String
  pub error : Option String

pub data KeyCode : Type 0 where
  esc enter backspace left right other_key : KeyCode
  char : (c : ℕ) → KeyCode

pub data KeyEventKind : Type 0 where
  press repeat release : KeyEventKind

pub record KeyEvent : Type 0 where
  pub code : KeyCode
  pub control : Bool
  pub kind : KeyEventKind

-- What the terminal delivers to the loop.
pub data Event : Type 0 where
  key_event : KeyEvent → Event
  other_event timeout : Event

-- Whether the wizard goes on, returns a mode and a port, or is cancelled.
pub data Outcome : Type 0 where
  continues : Wizard → Outcome
  chosen : Mode → (port : ℕ) → Outcome
  cancelled : Outcome

abbrev pub u16_max : ℕ
u16_max = 65535

abbrev pub parse_u16 : String → Option ℕ
parse_u16 s = parse_uint u16_max s

-- String::push of a character of ASCII.
unfoldable pub push_digit : String → ℕ → String
push_digit s c = s ^^ show (c - b'0')

-- String::pop
unfoldable pub pop : String → String
pop String.[] = ""
pop (String.◌∷◌ c String.[]) = ""
pop (String.◌∷◌ c (String.◌∷◌ d s)) = String.◌∷◌ c (pop (String.◌∷◌ d s))

-- Wizard::new
unfoldable pub new_wizard : SetupArgs → Wizard
unfolding from_str_opt default_port
new_wizard args =
    let mode : Mode = elim args.mode [ some s ↦ unwrap_or (from_str_opt s) proxy | none ↦ proxy ] in
    record {
      step = mode_select;
      mode = mode;
      port_text = elim args.port [ some p ↦ show p | none ↦ show (default_port mode) ];
      error = none;
    }

unfoldable pub set_wizard_mode : Wizard → Mode → Wizard
unfolding mode_eq default_port
set_wizard_mode w mode =
    if mode_eq w.mode mode
    then w
    else record w { mode = mode; port_text = show (default_port mode) }

unfoldable pub other_mode : Mode → Mode
other_mode proxy = client
other_mode client = proxy

unfoldable pub is_action_key_event : KeyEvent → Bool
is_action_key_event key = elim key.kind [ release ↦ false | _ ↦ true ]

unfoldable pub is_cancel : KeyCode → (control : Bool) → Bool
is_cancel esc control = true
is_cancel (char c) control = c == b'c' && control
is_cancel enter control = false
is_cancel backspace control = false
is_cancel left control = false
is_cancel right control = false
is_cancel other_key control = false

unfoldable pub on_mode_char : Wizard → ℕ → Wizard
unfolding set_wizard_mode other_mode
on_mode_char w c =
    if c == b'h' || c == b'l'
    then set_wizard_mode w (other_mode w.mode)
    else if c == b'1' || c == b'p' || c == b'P'
    then set_wizard_mode w proxy
    else if c == b'2' || c == b'c' || c == b'C'
    then set_wizard_mode w client
    else w

unfoldable pub on_mode_select : Wizard → KeyCode → Wizard
unfolding on_mode_char
on_mode_select w left = set_wizard_mode w (other_mode w.mode)
on_mode_select w right = set_wizard_mode w (other_mode w.mode)
on_mode_select w (char c) = on_mode_char w c
on_mode_select w enter = record w { step = port_input }
on_mode_select w esc = w
on_mode_select w backspace = w
on_mode_select w other_key = w

abbrev pub port_message : String
port_message = "Enter a valid port (1-65535)"

unfoldable pub check_port : Wizard → Option ℕ → Wizard
check_port w none = record w { error = some port_message }
check_port w (some p) =
    if ltb 0 p
    then record w { error = none; step = confirm }
    else record w { error = some port_message }

unfoldable pub on_port_input : Wizard → KeyCode → Wizard
unfolding push_digit pop check_port
on_port_input w (char c) =
    if is_ascii_digit c && ltb (length (codes w.port_text)) 5
    then record w { port_text = push_digit w.port_text c }
    else w
on_port_input w backspace = record w { port_text = pop w.port_text }
on_port_input w enter = check_port w (parse_u16 w.port_text)
on_port_input w esc = w
on_port_input w left = w
on_port_input w right = w
on_port_input w other_key = w

unfoldable pub on_confirm : Wizard → KeyCode → Outcome
unfolding default_port
on_confirm w enter = chosen w.mode (unwrap_or (parse_u16 w.port_text) (default_port w.mode))
on_confirm w (char c) = continues (if c == b'b' then record w { step = port_input } else w)
on_confirm w esc = continues w
on_confirm w backspace = continues w
on_confirm w left = continues w
on_confirm w right = continues w
on_confirm w other_key = continues w

unfoldable pub on_step : Step → Wizard → KeyCode → Outcome
unfolding on_mode_select on_port_input on_confirm
on_step mode_select w code = continues (on_mode_select w code)
on_step port_input w code = continues (on_port_input w code)
on_step confirm w code = on_confirm w code

unfoldable pub on_event : Wizard → Event → Outcome
unfolding is_action_key_event is_cancel on_step
on_event w timeout = continues w
on_event w other_event = continues w
on_event w (key_event key) =
    if is_action_key_event key
    then if is_cancel key.code key.control then cancelled else on_step w.step w key.code
    else continues w

unfoldable pub proceed : (Wizard → Outcome) → Outcome → Outcome
proceed next (continues w) = next w
proceed next (chosen mode port) = chosen mode port
proceed next cancelled = cancelled

-- wizard_loop over the events that arrive.
unfoldable pub wizard_loop : Wizard → List Event → Outcome
unfolding on_event proceed
wizard_loop w [] = continues w
wizard_loop w (event ∷ events) = proceed (λ w'. wizard_loop w' events) (on_event w event)

-- The key of a picker that selects a mode, mode_index_for_shortcut.
unfoldable pub mode_of_shortcut : ℕ → Option Mode
unfolding to_ascii_lowercase
mode_of_shortcut key =
    let c = to_ascii_lowercase key in
    if c == b'1' || c == b'p'
    then some proxy
    else if c == b'2' || c == b'c'
    then some client
    else none

unfoldable pub mode_index_for_shortcut : List Mode → (key : ℕ) → Option ℕ
unfolding mode_of_shortcut mode_eq
mode_index_for_shortcut modes key = elim (mode_of_shortcut key) [
  | none ↦ none
  | some mode ↦ position (mode_eq mode) modes
]

-- pick_mode_loop: the mode that a key leaves selected, or the end of the loop.
pub data Pick : Type 0 where
  at : (selected : ℕ) → Pick
  picked : Option Mode → Pick
  not_picked : Pick

unfoldable pub on_pick : List Mode → (selected : ℕ) → KeyCode → Pick
unfolding mode_index_for_shortcut
on_pick modes selected left = at ((selected + 1) % length modes)
on_pick modes selected right = at ((selected + 1) % length modes)
on_pick modes selected (char c) =
    if c == b'h' || c == b'l'
    then at ((selected + 1) % length modes)
    else at (unwrap_or (mode_index_for_shortcut modes c) selected)
on_pick modes selected enter = picked (get_elem? modes selected)
on_pick modes selected esc = not_picked
on_pick modes selected backspace = at selected
on_pick modes selected other_key = at selected

unfoldable pub pick_event : List Mode → (selected : ℕ) → Event → Pick
unfolding on_pick is_action_key_event is_cancel
pick_event modes selected timeout = at selected
pick_event modes selected other_event = at selected
pick_event modes selected (key_event key) =
    if is_action_key_event key
    then if is_cancel key.code key.control then not_picked else on_pick modes selected key.code
    else at selected

unfoldable pub pick_mode_loop : List Mode → (selected : ℕ) → List Event → Pick
unfolding pick_event
pick_mode_loop modes selected [] = at selected
pick_mode_loop modes selected (event ∷ events) = elim (pick_event modes selected event) [
  | at next ↦ pick_mode_loop modes next events
  | picked mode ↦ picked mode
  | not_picked ↦ not_picked
]

-- Why run_service acts on no service.
pub data ServiceError : Type 0 where
  invalid_mode not_installed none_installed pick_cancelled : ServiceError

-- The service that run_service acts on: the one that `--mode` names, the only one installed, or the
-- one that is picked.
unfoldable pub service_mode :
    (mode : Option String) (is_installed : Mode → Bool) (pick : List Mode → Option Mode)
    → Result Mode ServiceError
unfolding from_str_opt installed_modes
service_mode (some text) is_installed pick = elim (from_str_opt text) [
  | none ↦ err invalid_mode
  | some mode ↦ if is_installed mode then ok mode else err not_installed
]
service_mode none is_installed pick = elim (installed_modes is_installed) [
  | [] ↦ err none_installed
  | only ∷ [] ↦ ok only
  | first ∷ second ∷ rest ↦ ok_or (pick (first ∷ second ∷ rest)) pick_cancelled
]
