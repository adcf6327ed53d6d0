-- ===== src/Tui/Selection.antt =====
-- The selection of the terminal UI stays on the list, and a machine is deleted after a confirmation
-- only.
use native.Mathlib.Nat.{mod-lt}
use wakezilla.Prelude.{
  length, ◌-◌, ◌≤◌, Bool, true, false, ◌==◌, Bool-cases, Option-cases, Result, Result-cases, ok,
  err, ℕ, ◌+◌, String, inl, inr, List, arith, is_some, any, ◌<◌, ◌≡◌, refl, ==_iff, ap, ◌⊎◌,
}
use wakezilla.Common.{Machine}
use wakezilla.Tui.{
  App, Call, wake, turn_off, delete, ApiClient, selected_machine, next, previous, set_message,
  load_selected_history, refreshed, refresh, report, with_machines, wake_selected,
  turn_off_selected, after_deletion, delete_selected, Key, Command, command_of, run_command, is_yes,
  is_interrupt, handle_key, success, quit, move_down, move_up, reload, wake_up, shut_down,
  ask_delete, ignore, char,
}

-- The selected index is on the list, or zero on an empty one.
abbrev pub IsSelected : App → Type 0
IsSelected app = app.selected ≤ length app.machines - 1

unfoldable pub is_delete : Call → Bool
is_delete (wake mac) = false
is_delete (turn_off mac) = false
is_delete (delete mac) = true

positive : (n : ℕ) → (n == 0) ≡ false → 0 < n
positive n h = ground arith

next-IsSelected : (app : App) → IsSelected app → IsSelected (next app)
unfolding next
next-IsSelected app h = elim (Bool-cases (length app.machines == 0)) [
  | inl empty ↦ rw empty h
  | inr some_machine ↦
      let bound = mod-lt (app.selected + 1) (positive (length app.machines) some_machine) in
      rw some_machine (omega (arith, bound))
]

previous-IsSelected : (app : App) → IsSelected app → IsSelected (previous app)
unfolding previous
previous-IsSelected app h = elim (Bool-cases (length app.machines == 0)) [
  | inl empty ↦ rw empty h
  | inr some_machine ↦ elim (Bool-cases (app.selected == 0)) [
    | inl first ↦ rw (some_machine, previous, first) (omega arith)
    | inr later ↦ rw (some_machine, previous, later) (omega (arith, h))
  ]
]

load_selected_history-IsSelected :
    (client : ApiClient) (app : App)
    → IsSelected app
    → IsSelected (load_selected_history client app)
unfolding load_selected_history
load_selected_history-IsSelected client app h = elim (Option-cases (selected_machine app)) [
  | inl absent ↦ rw (absent, load_selected_history) h
  | inr (machine, present) ↦ rw (present, load_selected_history) h
]

refreshed-IsSelected :
    (client : ApiClient) (now : ℕ) (machines : List Machine) (app : App)
    → IsSelected (refreshed client now machines app)
unfolding refreshed set_message
refreshed-IsSelected client now machines app =
    load_selected_history-IsSelected client (with_machines client machines app)
      (unfold with_machines in ground arith)

refresh-IsSelected :
    (client : ApiClient) (now : ℕ) (app : App)
    → IsSelected app
    → IsSelected (refresh client now app)
unfolding refresh set_message
refresh-IsSelected client now app h = elim (Result-cases client.list_machines) [
  | inl (machines, good) ↦ rw (good, refresh) (refreshed-IsSelected client now machines app)
  | inr (e, bad) ↦ rw (bad, refresh) h
]

report-IsSelected :
    (r : Result String String) (prefix : String) (now : ℕ) (app : App)
    → IsSelected app
    → IsSelected (report r prefix now app)
unfolding report set_message
report-IsSelected (ok message) prefix now app h = h
report-IsSelected (err e) prefix now app h = h

after_deletion-IsSelected :
    (client : ApiClient) (r : Result String String) (now : ℕ) (app : App)
    → IsSelected app
    → IsSelected (after_deletion client r now app)
unfolding after_deletion set_message
after_deletion-IsSelected client (ok message) now app h =
    refresh-IsSelected client now (set_message message success now app) h
after_deletion-IsSelected client (err e) now app h = h

delete_selected-IsSelected :
    (client : ApiClient) (now : ℕ) (app : App)
    → IsSelected app
    → IsSelected (delete_selected client now app).0
unfolding delete_selected set_message
delete_selected-IsSelected client now app h = elim (Option-cases (selected_machine app)) [
  | inl absent ↦ rw (absent, delete_selected) h
  | inr (machine, present) ↦
      rw (present, delete_selected)
        (after_deletion-IsSelected client (client.delete_machine machine.mac) now app h)
]

run_command-IsSelected :
    (command : Command) (client : ApiClient) (now : ℕ) (app : App)
    → IsSelected app
    → IsSelected (run_command command client now app).0
unfolding run_command wake_selected turn_off_selected set_message
run_command-IsSelected quit client now app h = h
run_command-IsSelected move_down client now app h =
    load_selected_history-IsSelected client (next app) (next-IsSelected app h)
run_command-IsSelected move_up client now app h =
    load_selected_history-IsSelected client (previous app) (previous-IsSelected app h)
run_command-IsSelected reload client now app h = refresh-IsSelected client now app h
run_command-IsSelected wake_up client now app h = elim (Option-cases (selected_machine app)) [
  | inl absent ↦ rw (absent, wake_selected) h
  | inr (machine, present) ↦
      rw (present, wake_selected)
        (report-IsSelected (client.wake_machine machine.mac) "Wake failed: " now app h)
]
run_command-IsSelected shut_down client now app h = elim (Option-cases (selected_machine app)) [
  | inl absent ↦ rw (absent, turn_off_selected) h
  | inr (machine, present) ↦
      rw (present, turn_off_selected)
        (report-IsSelected (client.turn_off_machine machine.mac) "Turn off failed: " now app h)
]
run_command-IsSelected ask_delete client now app h =
    elim (Bool-cases (is_some (selected_machine app))) [
      | inl present ↦ rw present h
      | inr absent ↦ rw absent h
    ]
run_command-IsSelected ignore client now app h = h

-- Whatever key is pressed, and whatever the server answers, the selection stays on the list of
-- machines, or is zero where the list is empty.
pub handle_key-IsSelected :
    (client : ApiClient) (now : ℕ) (key : Key) (app : App)
    → IsSelected app
    → IsSelected (handle_key client now key app).0
unfolding handle_key set_message
handle_key-IsSelected client now key app h = elim (Bool-cases (is_interrupt key)) [
  | inl stop ↦ rw stop h
  | inr go ↦ elim (Bool-cases app.confirm_delete) [
    | inr free ↦ simp (go, free) (run_command-IsSelected (command_of key) client now app h)
    | inl asked ↦ elim (Bool-cases (is_yes key)) [
      | inl agreed ↦
          simp (go, asked, agreed)
            (delete_selected-IsSelected client now (record app { confirm_delete = false }) h)
      | inr refused ↦ simp (go, asked, refused) h
    ]
  ]
]

run_command_deletes_nothing :
    (command : Command) (client : ApiClient) (now : ℕ) (app : App)
    → any is_delete (run_command command client now app).1 ≡ false
unfolding run_command wake_selected turn_off_selected is_delete
run_command_deletes_nothing quit client now app = refl
run_command_deletes_nothing move_down client now app = refl
run_command_deletes_nothing move_up client now app = refl
run_command_deletes_nothing reload client now app = refl
run_command_deletes_nothing wake_up client now app = elim (Option-cases (selected_machine app)) [
  | inl absent ↦ rw (absent, wake_selected) refl
  | inr (machine, present) ↦ rw (present, wake_selected) refl
]
run_command_deletes_nothing shut_down client now app = elim (Option-cases (selected_machine app)) [
  | inl absent ↦ rw (absent, turn_off_selected) refl
  | inr (machine, present) ↦ rw (present, turn_off_selected) refl
]
run_command_deletes_nothing ask_delete client now app = refl
run_command_deletes_nothing ignore client now app = refl

is_yes-key : (key : Key) → is_yes key ≡ true → (key ≡ char b'y') ⊎ (key ≡ char b'Y')
unfolding is_yes
is_yes-key (char c) h = elim (Bool-cases (c == b'y')) [
  | inl lower ↦ inl (ap char ((==_iff c b'y').0 lower))
  | inr other ↦ inr (ap char ((==_iff c b'Y').0 (rw other at h)))
]
is_yes-key _ h = cc

-- The terminal UI asks the server to delete a machine only where the question is shown and the key
-- is y or Y.
pub handle_key_deletes_confirmed :
    (client : ApiClient) (now : ℕ) (key : Key) (app : App)
    → any is_delete (handle_key client now key app).1 ≡ true
    → (app.confirm_delete ≡ true) × ((key ≡ char b'y') ⊎ (key ≡ char b'Y'))
unfolding handle_key
handle_key_deletes_confirmed client now key app h = elim (Bool-cases (is_interrupt key)) [
  | inl stop ↦ absurd (ground (arith, rw stop at h))
  | inr go ↦ elim (Bool-cases app.confirm_delete) [
    | inr free ↦ absurd (
        ground (
          arith,
          run_command_deletes_nothing (command_of key) client now app,
          simp (go, free) at h,
        ))
    | inl asked ↦ elim (Bool-cases (is_yes key)) [
      | inl agreed ↦ (asked, is_yes-key key agreed)
      | inr refused ↦ absurd (ground (arith, simp (go, asked, refused) at h))
    ]
  ]
]
