-- ===== src/Limiter/Once.antt =====
-- When the monitor signals a machine, and how often.
use wakezilla.Prelude.{
  if◌then◌else◌, str_eq, eq_iff, lookup, HasUniqueKeys, ℕ, suc, String, ◌≡◌, refl, not, ◌&&◌, ◌||◌,
  Option, none, some, List, [], ◌∷◌, arith, Bool-cases, insert, remove, lookup-insert,
  lookup-remove, ◌+◌, ◌≤◌, inl, inr, ◌++◌, Option-cases, insert-HasUniqueKeys, remove-HasUniqueKeys,
  false,
}
use wakezilla.Machine.{Machine}
use wakezilla.Limiter.{
  MachineConfig, TurnOffLimiter, Signal, is_overdue, tick, remove_machine, initialize_machine,
  update_machine, update_last_request, is_unmonitored, new_config,
}

-- The number of signals for one machine.
abbrev pub count : (mac : String) → List Signal → ℕ
count mac [] = 0
count mac (s ∷ signals) = if str_eq s.mac mac then suc (count mac signals) else count mac signals

-- A timer that may still signal.
abbrev armed_config : Option MachineConfig → ℕ
armed_config none = 0
armed_config (some config) = if config.triggered then 0 else 1

unfoldable pub armed : (mac : String) → TurnOffLimiter → ℕ
armed mac limiter = armed_config (lookup mac limiter)

abbrev pub due : Option MachineConfig → ℕ → ℕ
due none now = 0
due (some config) now = if is_overdue config now && not config.triggered then 1 else 0

abbrev pub after_tick : Option MachineConfig → ℕ → Option MachineConfig
after_tick none now = none
after_tick (some config) now =
    some (record config { triggered = config.triggered || is_overdue config now })

-- At a tick the monitor signals a machine exactly when its timer is overdue and has not been
-- triggered since it was last reset, once. The timer is then triggered, and nothing else of it
-- changes. No machine has two timers.
pub tick_exact :
    (limiter : TurnOffLimiter) (mac : String) (now : ℕ)
    → HasUniqueKeys limiter
    → (count mac (tick limiter now).1 ≡ due (lookup mac limiter) now)
      × (lookup mac (tick limiter now).0 ≡ after_tick (lookup mac limiter) now)
unfolding tick lookup
tick_exact [] mac now h = (refl, refl)
tick_exact ((k, config) ∷ limiter) mac now h =
    let ih = tick_exact limiter mac now h.1 in
    (ground (arith, ih, h.0, eq_iff k mac), ground (arith, ih, h.0, eq_iff k mac))

pub data Event : Type 0 where
  request : (mac : String) → Event
  initialize update : Machine → (turn_off_port : ℕ) → Event
  stop : (mac : String) → Event
  second : Event

-- One operation on the limiter, at the time `now`, and the signals that it causes.
unfoldable pub step : TurnOffLimiter → Event → (now : ℕ) → TurnOffLimiter × List Signal
step limiter (request mac) now = (update_last_request limiter mac now, [])
step limiter (initialize machine port) now = (initialize_machine limiter machine port now, [])
step limiter (update machine port) now = (update_machine limiter machine port now, [])
step limiter (stop mac) now = (remove_machine limiter mac, [])
step limiter second now = tick limiter now

-- Operations one after another, each with its time.
unfoldable pub run : TurnOffLimiter → List (Event × ℕ) → TurnOffLimiter × List Signal
run limiter [] = (limiter, [])
run limiter ((e, now) ∷ events) =
    let (limiter', signals) = step limiter e now in
    let (last, later) = run limiter' events in (last, signals ++ later)

-- The operations that reset the timer of one machine.
abbrev pub resets_of : (mac : String) → Event → ℕ
resets_of mac (request m) = if str_eq m mac then 1 else 0
resets_of mac (initialize machine port) = if str_eq machine.mac mac then 1 else 0
resets_of mac (update machine port) = if str_eq machine.mac mac then 1 else 0
resets_of mac (stop m) = 0
resets_of mac second = 0

abbrev pub resets : (mac : String) → List (Event × ℕ) → ℕ
resets mac [] = 0
resets mac ((e, now) ∷ events) = resets_of mac e + resets mac events

count-append :
    (mac : String) (xs ys : List Signal) → count mac (xs ++ ys) ≡ count mac xs + count mac ys
count-append mac [] ys = omega arith
count-append mac (s ∷ xs) ys = ground (arith, count-append mac xs ys)

armed_config-le : (o : Option MachineConfig) → armed_config o ≤ 1
armed_config-le none = omega arith
armed_config-le (some config) = ground arith

armed-insert :
    (k mac : String) (config : MachineConfig) (limiter : TurnOffLimiter)
    → armed mac (insert k config limiter) ≤ armed mac limiter + (if str_eq k mac then 1 else 0)
unfolding armed
armed-insert k mac config limiter = elim (Bool-cases (str_eq k mac)) [
  | inl same ↦ rw (lookup-insert, same) (omega (arith, armed_config-le (some config)))
  | inr other ↦ rw (lookup-insert, other) (omega arith)
]

armed-remove :
    (k mac : String) (limiter : TurnOffLimiter) → armed mac (remove k limiter) ≤ armed mac limiter
unfolding armed
armed-remove k mac limiter = elim (Bool-cases (str_eq k mac)) [
  | inl same ↦ rw (lookup-remove, same) (omega arith)
  | inr other ↦ rw (lookup-remove, other) (omega arith)
]

-- How an operation other than a tick changes the map.
data Change (k : String) (before after : TurnOffLimiter) : Type 0 where
  unchanged : after ≡ before → Change k before after
  inserted : (config : MachineConfig) → after ≡ insert k config before → Change k before after
  removed : after ≡ remove k before → Change k before after

Change-armed :
    (k mac : String) (before after : TurnOffLimiter)
    → Change k before after
    → armed mac after ≤ armed mac before + (if str_eq k mac then 1 else 0)
Change-armed k mac before after (unchanged e) = rw e (omega arith)
Change-armed k mac before after (inserted config e) = rw e (armed-insert k mac config before)
Change-armed k mac before after (removed e) = rw e (omega (arith, armed-remove k mac before))

Change-HasUniqueKeys :
    (k : String) (before after : TurnOffLimiter)
    → Change k before after
    → HasUniqueKeys before
    → HasUniqueKeys after
Change-HasUniqueKeys k before after (unchanged e) h = rw e h
Change-HasUniqueKeys k before after (inserted config e) h =
    rw e (insert-HasUniqueKeys k config before h)
Change-HasUniqueKeys k before after (removed e) h = rw e (remove-HasUniqueKeys k before h)

request_change :
    (limiter : TurnOffLimiter) (mac : String) (now : ℕ)
    → Change mac limiter (update_last_request limiter mac now)
unfolding update_last_request
request_change limiter mac now = elim (Option-cases (lookup mac limiter)) [
  | inl absent ↦ unchanged (rw (absent, update_last_request))
  | inr (config, found) ↦
      inserted (record config { last_request = now; triggered = false })
        (rw (found, update_last_request))
]

initialize_change :
    (limiter : TurnOffLimiter) (machine : Machine) (port now : ℕ)
    → Change machine.mac limiter (initialize_machine limiter machine port now)
unfolding initialize_machine
initialize_change limiter machine port now = elim (Bool-cases (is_unmonitored machine)) [
  | inl off ↦ removed (rw off)
  | inr on ↦ inserted (new_config machine port now) (rw on)
]

update_change :
    (limiter : TurnOffLimiter) (machine : Machine) (port now : ℕ)
    → Change machine.mac limiter (update_machine limiter machine port now)
unfolding update_machine
update_change limiter machine port now = elim (Bool-cases (is_unmonitored machine)) [
  | inl off ↦ removed (rw off)
  | inr on ↦ elim (Option-cases (lookup machine.mac limiter)) [
    | inl absent ↦ inserted (new_config machine port now) (rw (on, update_machine, absent, on))
    | inr (config, found) ↦
        inserted (record (new_config machine port now) { last_request = config.last_request })
          (rw (on, update_machine, found))
  ]
]

step-armed :
    (limiter : TurnOffLimiter) (e : Event) (now : ℕ) (mac : String)
    → HasUniqueKeys limiter
    → count mac (step limiter e now).1 + armed mac (step limiter e now).0
      ≤ armed mac limiter + resets_of mac e
unfolding step
step-armed limiter (request m) now mac h =
    omega (arith, Change-armed m mac limiter _ (request_change limiter m now))
step-armed limiter (initialize machine port) now mac h =
    omega
      (arith, Change-armed machine.mac mac limiter _ (initialize_change limiter machine port now))
step-armed limiter (update machine port) now mac h =
    omega (arith, Change-armed machine.mac mac limiter _ (update_change limiter machine port now))
step-armed limiter (stop m) now mac h =
    unfold remove_machine in omega (arith, armed-remove m mac limiter)
step-armed limiter second now mac h = unfold armed in ground (arith, tick_exact limiter mac now h)

tick-absent :
    (limiter : TurnOffLimiter) (k : String) (now : ℕ)
    → lookup k limiter ≡ none
    → lookup k (tick limiter now).0 ≡ none
unfolding tick lookup
tick-absent [] k now e = refl
tick-absent ((j, config) ∷ limiter) k now e = ground (arith, tick-absent limiter k now)

tick-HasUniqueKeys :
    (limiter : TurnOffLimiter) (now : ℕ)
    → HasUniqueKeys limiter
    → HasUniqueKeys (tick limiter now).0
unfolding tick
tick-HasUniqueKeys [] now h = tt
tick-HasUniqueKeys ((k, config) ∷ limiter) now h =
    (tick-absent limiter k now h.0, tick-HasUniqueKeys limiter now h.1)

-- No operation gives a machine a second timer.
pub step-HasUniqueKeys :
    (limiter : TurnOffLimiter) (e : Event) (now : ℕ)
    → HasUniqueKeys limiter
    → HasUniqueKeys (step limiter e now).0
unfolding step
step-HasUniqueKeys limiter (request m) now h =
    Change-HasUniqueKeys m limiter _ (request_change limiter m now) h
step-HasUniqueKeys limiter (initialize machine port) now h =
    Change-HasUniqueKeys machine.mac limiter _ (initialize_change limiter machine port now) h
step-HasUniqueKeys limiter (update machine port) now h =
    Change-HasUniqueKeys machine.mac limiter _ (update_change limiter machine port now) h
step-HasUniqueKeys limiter (stop m) now h =
    unfold remove_machine in remove-HasUniqueKeys m limiter h
step-HasUniqueKeys limiter second now h = tick-HasUniqueKeys limiter now h

run-armed :
    (limiter : TurnOffLimiter) (events : List (Event × ℕ)) (mac : String)
    → HasUniqueKeys limiter
    → count mac (run limiter events).1 + armed mac (run limiter events).0
      ≤ armed mac limiter + resets mac events
unfolding run
run-armed limiter [] mac h = omega arith
run-armed limiter ((e, now) ∷ events) mac h =
    let (limiter', signals) = step limiter e now in
    omega (
      arith,
      count-append mac (step limiter e now).1 (run (step limiter e now).0 events).1,
      step-armed limiter e now mac h,
      run-armed (step limiter e now).0 events mac (step-HasUniqueKeys limiter e now h),
    )

run-HasUniqueKeys :
    (limiter : TurnOffLimiter) (events : List (Event × ℕ))
    → HasUniqueKeys limiter
    → HasUniqueKeys (run limiter events).0
unfolding run
run-HasUniqueKeys limiter [] h = h
run-HasUniqueKeys limiter ((e, now) ∷ events) h =
    run-HasUniqueKeys (step limiter e now).0 events (step-HasUniqueKeys limiter e now h)

armed-le : (mac : String) (limiter : TurnOffLimiter) → armed mac limiter ≤ 1
unfolding armed
armed-le mac limiter = armed_config-le (lookup mac limiter)

-- Whatever the server has done before, a machine is sent at most one turn-off signal in a period in
-- which no connection to it is made and it is not configured, however many ticks, events of other
-- machines and deletions the period has.
pub count-run-le_one :
    (before period : List (Event × ℕ)) (mac : String)
    → resets mac period ≡ 0
    → count mac (run (run [] before).0 period).1 ≤ 1
count-run-le_one before period mac idle =
    let start = run [] before in
    omega (
      arith,
      run-armed start.0 period mac (run-HasUniqueKeys [] before tt),
      armed-le mac start.0,
      idle,
    )
