-- ===== src/Setup/Ports.antt =====
-- src/setup.rs: the wizard returns a valid port.
use wakezilla.Prelude.{
  ltb, ◌==◌, ltb→lt, Bool-cases, length, codes, is_ascii_digit, parse_uint-le, ℕ, ◌≤◌, ◌<◌, String,
  ◌≡◌, refl, sym, ◌∙◌, subst, ◌⊎◌, inl, inr, ◌&&◌, Option, none, some, List, [], ◌∷◌, arith,
}
use wakezilla.Service.{Mode, proxy, client}
use wakezilla.Setup.{
  SetupArgs, Step, Wizard, KeyCode, Event, Outcome, u16_max, parse_u16, push_digit, new_wizard,
  set_wizard_mode, other_mode, is_action_key_event, is_cancel, on_mode_char, on_mode_select,
  check_port, on_port_input, on_confirm, on_step, on_event, wizard_loop, mode_select, port_input,
  confirm, esc, enter, backspace, left, right, other_key, char, key_event, other_event, timeout,
  continues, chosen, cancelled, proceed,
}

abbrev pub IsPort : ℕ → Type 0
IsPort p = (0 < p) × (p ≤ u16_max)

-- The text of a port has been checked before it is to be confirmed.
abbrev pub IsChecked : Step → String → Type 0
IsChecked mode_select s = Unit {0}
IsChecked port_input s = Unit {0}
IsChecked confirm s = (p : ℕ) × (parse_u16 s ≡ some p) × (0 < p)

abbrev pub IsGood : Outcome → Type 0
IsGood (continues w) = IsChecked w.step w.port_text
IsGood (chosen mode port) = IsPort port
IsGood cancelled = Unit {0}

not_confirming : (step : Step) (s : String) → step ≡ mode_select → IsChecked step s
not_confirming mode_select s h = tt
not_confirming port_input s h = tt
not_confirming confirm s h = cc

set_wizard_mode-step : (w : Wizard) (mode : Mode) → (set_wizard_mode w mode).step ≡ w.step
unfolding set_wizard_mode
set_wizard_mode-step w mode = ground arith

on_mode_char-step : (w : Wizard) (c : ℕ) → (on_mode_char w c).step ≡ w.step
unfolding on_mode_char
on_mode_char-step w c = ground (
  arith,
  set_wizard_mode-step w (other_mode w.mode),
  set_wizard_mode-step w proxy,
  set_wizard_mode-step w client,
)

on_mode_select-IsGood :
    (w : Wizard) (code : KeyCode)
    → w.step ≡ mode_select
    → IsGood (continues (on_mode_select w code))
unfolding on_mode_select
on_mode_select-IsGood w left h = not_confirming _ _ (set_wizard_mode-step w (other_mode w.mode) ∙ h)
on_mode_select-IsGood w right h =
    not_confirming _ _ (set_wizard_mode-step w (other_mode w.mode) ∙ h)
on_mode_select-IsGood w (char c) h = not_confirming _ _ (on_mode_char-step w c ∙ h)
on_mode_select-IsGood w enter h = tt
on_mode_select-IsGood w esc h = not_confirming _ _ h
on_mode_select-IsGood w backspace h = not_confirming _ _ h
on_mode_select-IsGood w other_key h = not_confirming _ _ h

unchecked_input : (step : Step) (s : String) → step ≡ port_input → IsChecked step s
unchecked_input mode_select s h = tt
unchecked_input port_input s h = tt
unchecked_input confirm s h = cc

check_port-IsGood :
    (w : Wizard) (parsed : Option ℕ)
    → w.step ≡ port_input
    → parse_u16 w.port_text ≡ parsed
    → IsGood (continues (check_port w parsed))
unfolding check_port
check_port-IsGood w none h e = unchecked_input _ _ h
check_port-IsGood w (some p) h e = elim (Bool-cases (ltb 0 p)) [
  | inl positive ↦ rw positive (p, e, ltb→lt 0 p positive)
  | inr bad ↦ rw bad (unchecked_input _ _ h)
]

on_port_input-IsGood :
    (w : Wizard) (code : KeyCode) → w.step ≡ port_input → IsGood (continues (on_port_input w code))
unfolding on_port_input
on_port_input-IsGood w (char c) h =
    elim (Bool-cases (is_ascii_digit c && ltb (length (codes w.port_text)) 5)) [
      | inl digit ↦ rw digit (unchecked_input w.step (push_digit w.port_text c) h)
      | inr bad ↦ rw bad (unchecked_input w.step w.port_text h)
    ]
on_port_input-IsGood w backspace h = unchecked_input _ _ h
on_port_input-IsGood w enter h = check_port-IsGood w (parse_u16 w.port_text) h refl
on_port_input-IsGood w esc h = unchecked_input _ _ h
on_port_input-IsGood w left h = unchecked_input _ _ h
on_port_input-IsGood w right h = unchecked_input _ _ h
on_port_input-IsGood w other_key h = unchecked_input _ _ h

on_confirm-IsGood :
    (w : Wizard) (code : KeyCode) (p : ℕ)
    → parse_u16 w.port_text ≡ some p
    → 0 < p
    → IsChecked w.step w.port_text
    → IsGood (on_confirm w code)
unfolding on_confirm
on_confirm-IsGood w enter p e positive h = rw e (positive, parse_uint-le u16_max w.port_text p e)
on_confirm-IsGood w (char c) p e positive h = elim (Bool-cases (c == b'b')) [
  | inl back ↦ rw back tt
  | inr stay ↦ rw stay h
]
on_confirm-IsGood w esc p e positive h = h
on_confirm-IsGood w backspace p e positive h = h
on_confirm-IsGood w left p e positive h = h
on_confirm-IsGood w right p e positive h = h
on_confirm-IsGood w other_key p e positive h = h

on_step-IsGood :
    (step : Step) (w : Wizard) (code : KeyCode)
    → w.step ≡ step
    → IsChecked step w.port_text
    → IsGood (on_step step w code)
unfolding on_step
on_step-IsGood mode_select w code e h = on_mode_select-IsGood w code e
on_step-IsGood port_input w code e h = on_port_input-IsGood w code e
on_step-IsGood confirm w code e h =
    on_confirm-IsGood w code h.0 h.1 h.2 (subst (λ s. IsChecked s w.port_text) (sym e) h)

on_event-IsGood :
    (w : Wizard) (event : Event) → IsChecked w.step w.port_text → IsGood (on_event w event)
unfolding on_event
on_event-IsGood w timeout h = h
on_event-IsGood w other_event h = h
on_event-IsGood w (key_event key) h = elim (Bool-cases (is_action_key_event key)) [
  | inl action ↦ elim (Bool-cases (is_cancel key.code key.control)) [
    | inl cancel ↦ rw (action, cancel) tt
    | inr step ↦ rw (action, step) (on_step-IsGood w.step w key.code refl h)
  ]
  | inr released ↦ rw released h
]

Outcome-cases :
    (o : Outcome)
    → ((w : Wizard) × (o ≡ continues w))
      ⊎ (((mode : Mode) × ((port : ℕ) × (o ≡ chosen mode port))) ⊎ (o ≡ cancelled))
Outcome-cases (continues w) = inl (w, refl)
Outcome-cases (chosen mode port) = inr (inl (mode, (port, refl)))
Outcome-cases cancelled = inr (inr refl)

wizard_loop-IsGood :
    (w : Wizard) (events : List Event)
    → IsChecked w.step w.port_text
    → IsGood (wizard_loop w events)
unfolding wizard_loop proceed
wizard_loop-IsGood w [] h = h
wizard_loop-IsGood w (event ∷ events) h =
    let good = on_event-IsGood w event h in
    elim (Outcome-cases (on_event w event)) [
      | inl (w', e) ↦ rw e (wizard_loop-IsGood w' events (subst IsGood e good))
      | inr (inl (mode, (port, e))) ↦ rw e (subst IsGood e good)
      | inr (inr e) ↦ rw e tt
    ]

-- A mode and a port that the wizard returns come with a port from 1 to 65535, whatever was given on
-- the command line and whatever keys were pressed.
pub wizard_loop-IsPort :
    (args : SetupArgs) (events : List Event) (mode : Mode) (port : ℕ)
    → wizard_loop (new_wizard args) events ≡ chosen mode port
    → IsPort port
unfolding new_wizard
wizard_loop-IsPort args events mode port h =
    subst IsGood h (wizard_loop-IsGood (new_wizard args) events tt)
