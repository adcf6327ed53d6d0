-- ===== src/Setup/Progress.antt =====
-- src/setup.rs: from every state of the wizard there are keys that finish it.
use wakezilla.Prelude.{
  length, replicate, codes, show, parse_uint, ℕ, zero, suc, ◌-◌, String, ◌≡◌, refl, ◌∙◌, false,
  Option, List, [], ◌∷◌, ◌++◌, arith, ◌≤◌,
}
use wakezilla.Service.{Mode}
use wakezilla.Setup.{
  Step, Wizard, KeyCode, Event, pop, wizard_loop, mode_select, port_input, confirm, enter,
  backspace, char, press, key_event, chosen,
}

abbrev pressed : KeyCode → Event
pressed code = key_event (record { code = code; control = false; kind = press })

pop-length : (s : String) → length (codes (pop s)) ≡ length (codes s) - 1
unfolding pop
pop-length String.[] = refl
pop-length (String.◌∷◌ c String.[]) = refl
pop-length (String.◌∷◌ c (String.◌∷◌ d s)) = omega (arith, pop-length (String.◌∷◌ d s))

pop-empty : (s : String) → length (codes s) ≡ 0 → s ≡ ""
pop-empty String.[] h = refl
pop-empty (String.◌∷◌ c s) h = absurd (omega arith)

-- The keys that end the input of a port: as many backspaces as there are characters, a digit, and
-- two confirmations.
abbrev retyped : ℕ → List Event
retyped n =
    replicate n (pressed backspace) ++ pressed (char b'1') ∷ pressed enter ∷ pressed enter ∷ []

empty_input-chosen :
    (mode : Mode) (error : Option String)
    → wizard_loop
        (record { step = port_input; mode = mode; port_text = ""; error = error })
        (retyped 0)
      ≡ chosen mode 1
unfolding wizard_loop show parse_uint
empty_input-chosen mode error = refl

port_input-chosen :
    (n : ℕ) (mode : Mode) (error : Option String) (s : String)
    → length (codes s) ≡ n
    → wizard_loop
        (record { step = port_input; mode = mode; port_text = s; error = error })
        (retyped n)
      ≡ chosen mode 1
unfolding wizard_loop
port_input-chosen zero mode error s h = rw (pop-empty s h) (empty_input-chosen mode error)
port_input-chosen (suc n) mode error s h =
    port_input-chosen n mode error (pop s) (pop-length s ∙ omega (arith, h))

-- The keys that finish the wizard, by its step.
abbrev finishing : Step → String → List Event
finishing mode_select s = pressed enter ∷ retyped (length (codes s))
finishing port_input s = retyped (length (codes s))
finishing confirm s = pressed (char b'b') ∷ retyped (length (codes s))

finishing-chosen :
    (step : Step) (mode : Mode) (s : String) (error : Option String)
    → wizard_loop
        (record { step = step; mode = mode; port_text = s; error = error })
        (finishing step s)
      ≡ chosen mode 1
finishing-chosen mode_select mode s error =
    unfold wizard_loop in port_input-chosen (length (codes s)) mode error s refl
finishing-chosen port_input mode s error = port_input-chosen (length (codes s)) mode error s refl
finishing-chosen confirm mode s error =
    unfold wizard_loop in port_input-chosen (length (codes s)) mode error s refl

-- From every state of the wizard, whatever was typed before, some keys finish it with the mode that
-- is selected and a port between 1 and 65535.
pub wizard_loop-finishes :
    (w : Wizard)
    → (events : List Event) × ((port : ℕ) × (1 ≤ port)
        × (port ≤ 65535)
        × (wizard_loop w events ≡ chosen w.mode port))
wizard_loop-finishes w = (
  finishing w.step w.port_text,
  (1, omega arith, omega arith, finishing-chosen w.step w.mode w.port_text w.error),
)
