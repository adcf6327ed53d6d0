-- ===== src/AppState/Timers.antt =====
-- Which machines `start_proxy_if_configured` of src/web.rs gives a timer.
use wakezilla.Prelude.{
  ◌==◌, if◌then◌else◌, Option-cases, str_eq, lookup, lookup-insert, lookup-remove, ℕ, String, ◌≡◌,
  inl, inr, not, ◌&&◌, Option, none, some, arith,
}
use wakezilla.Machine.{Machine}
use wakezilla.Limiter.{
  MachineConfig, TurnOffLimiter, is_unmonitored, remove_machine, new_config, initialize_machine,
}
use wakezilla.AppState.{has_services, monitored_port, start_timer}

-- The timer that a machine should have, as a fresh one.
pub expected_timer : Machine → (now : ℕ) → Option MachineConfig
expected_timer machine now = elim machine.turn_off_port [
  | none ↦ none
  | some port ↦
      if machine.can_be_turned_off && (has_services machine && not (machine.inactivity_period == 0))
      then some (new_config machine port now)
      else none
]

-- After a machine has been configured it has a fresh timer just where it can be turned off, has a
-- client port, at least one service and an inactivity period; no other timer changes.
pub start_timer-lookup :
    (machine : Machine) (now : ℕ) (limiter : TurnOffLimiter) (mac : String)
    → lookup mac (start_timer machine now limiter)
      ≡ (if str_eq machine.mac mac then expected_timer machine now else lookup mac limiter)
unfolding start_timer monitored_port initialize_machine remove_machine is_unmonitored expected_timer
start_timer-lookup machine now limiter mac = elim (Option-cases machine.turn_off_port) [
  | inl absent ↦ ground (arith, absent, lookup-remove machine.mac mac limiter)
  | inr (port, present) ↦ ground (
    arith,
    present,
    lookup-remove machine.mac mac limiter,
    lookup-insert machine.mac mac (new_config machine port now) limiter,
  )
]
