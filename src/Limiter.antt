-- ===== src/Limiter.antt =====
-- `TurnOffLimiter` of src/forward.rs: the inactivity timers of the machines, and the monitor that
-- turns idle machines off. The map behind the mutex is the state; the instants are milliseconds.
pub mod Once
use wakezilla.Prelude.{
  ltb, ◌==◌, if◌then◌else◌, HashMap, lookup, insert, remove, ℕ, ◌-◌, ◌*◌, ◌^◌, min, String, Bool,
  true, false, not, ◌&&◌, Option, none, some, List, [], ◌∷◌, ◌||◌,
}
use wakezilla.Net.{Ipv4}
use wakezilla.Machine.{Machine}

pub record MachineConfig : Type 0 where
  pub ip : Ipv4
  pub window : ℕ
  pub turn_off_port : ℕ
  pub shutdown_auth_key : Option String
  pub triggered : Bool
  pub last_request : ℕ

abbrev pub TurnOffLimiter : Type 0
TurnOffLimiter = HashMap MachineConfig

abbrev pub u32_max : ℕ
u32_max = 2 ^ 32 - 1

-- `inactivity_period.saturating_mul(60)` seconds, in milliseconds.
unfoldable pub window_of : Machine → ℕ
window_of machine = 1000 * min (machine.inactivity_period * 60) u32_max

unfoldable pub is_unmonitored : Machine → Bool
is_unmonitored machine = not machine.can_be_turned_off || machine.inactivity_period == 0

unfoldable pub remove_machine : TurnOffLimiter → (mac : String) → TurnOffLimiter
remove_machine limiter mac = remove mac limiter

unfoldable pub new_config : Machine → (turn_off_port now : ℕ) → MachineConfig
unfolding window_of
new_config machine turn_off_port now = record {
  ip = machine.ip;
  window = window_of machine;
  turn_off_port = turn_off_port;
  shutdown_auth_key = machine.shutdown_auth_key;
  triggered = false;
  last_request = now;
}

unfoldable pub initialize_machine :
    TurnOffLimiter → Machine → (turn_off_port now : ℕ) → TurnOffLimiter
unfolding is_unmonitored remove_machine
initialize_machine limiter machine turn_off_port now =
    if is_unmonitored machine
    then remove_machine limiter machine.mac
    else insert machine.mac (new_config machine turn_off_port now) limiter

unfoldable pub update_machine : TurnOffLimiter → Machine → (turn_off_port now : ℕ) → TurnOffLimiter
unfolding initialize_machine new_config
update_machine limiter machine turn_off_port now =
    if is_unmonitored machine
    then remove_machine limiter machine.mac
    else elim (lookup machine.mac limiter) [
      | none ↦ initialize_machine limiter machine turn_off_port now
      | some config ↦
          let fresh = new_config machine turn_off_port now in
          insert machine.mac (record fresh { last_request = config.last_request }) limiter
    ]

unfoldable pub update_last_request : TurnOffLimiter → (mac : String) → (now : ℕ) → TurnOffLimiter
update_last_request limiter mac now = elim (lookup mac limiter) [
  | none ↦ limiter
  | some config ↦ insert mac (record config { last_request = now; triggered = false }) limiter
]

-- What the monitor sends a turn-off signal with.
pub record Signal : Type 0 where
  pub ip : Ipv4
  pub turn_off_port : ℕ
  pub mac : String
  pub shutdown_auth_key : Option String

-- `Instant::duration_since` is zero for a later instant.
unfoldable pub is_overdue : MachineConfig → (now : ℕ) → Bool
is_overdue config now = ltb config.window (now - config.last_request)

-- The closure of `filter_map`: the entry with its flag swapped, and the signal.
check_entry : String → MachineConfig → (now : ℕ) → MachineConfig × Option Signal
check_entry mac config now =
    if is_overdue config now
    then (
      record config { triggered = true },
      if config.triggered
          then none
          else some (record {
            ip = config.ip;
            turn_off_port = config.turn_off_port;
            mac = mac;
            shutdown_auth_key = config.shutdown_auth_key;
          }),
    )
    else (config, none)

abbrev pub cons_if : Option Signal → List Signal → List Signal
cons_if none signals = signals
cons_if (some s) signals = s ∷ signals

-- One tick of `start_inactivity_monitor`.
unfoldable pub tick : TurnOffLimiter → (now : ℕ) → TurnOffLimiter × List Signal
unfolding check_entry is_overdue
tick [] now = ([], [])
tick ((mac, config) ∷ limiter) now =
    let (config', signal) = check_entry mac config now in
    let (limiter', signals) = tick limiter now in
    ((mac, config') ∷ limiter', cons_if signal signals)
