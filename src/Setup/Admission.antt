-- ===== src/Setup/Admission.antt =====
-- src/setup.rs: when a setup goes through.
use wakezilla.Prelude.{
  codes, to_ascii_lowercase, trim, ok, ℕ, ◌≡◌, ◌⊎◌, Bool, true, false, Option, none, some, List, [],
  map,
}
use wakezilla.Config.{Entry}
use wakezilla.Service.{Mode, client}
use wakezilla.Setup.{SetupArgs, Event}
use wakezilla.Setup.Apply.{Host, apply_with_key, target, run}

-- The operator answers y or yes, in any case and between spaces.
abbrev pub Agrees : Option (List ℕ) → Type 0
Agrees answer =
    (input : List ℕ) × (answer ≡ some input)
    × ((map to_ascii_lowercase (trim input) ≡ codes "y")
        ⊎ (map to_ascii_lowercase (trim input) ≡ codes "yes"))

-- Nothing is overwritten without the operator's agreement.
abbrev pub Confirmed : SetupArgs → Host → Option (List ℕ) → Type 0
Confirmed args host answer =
    (args.yes_flag ≡ true)
    ⊎ ((host.installed_modes ≡ []) × (host.path_exists ≡ false))
    ⊎ Agrees answer

-- A setup goes through: it is elevated and confirmed, it has its mode and port, a key comes with the
-- mode of a client only, and it does what apply_with_key does.
abbrev pub Admitted :
    SetupArgs → (is_elevated : Bool) (answer : Option (List ℕ)) → List Event → Host → Entry → Type 0
Admitted args is_elevated answer events host file =
    (mode : Mode) × (port : ℕ) × (is_elevated ≡ true)
    × Confirmed args host answer
    × (target args events ≡ ok (mode, port))
    × ((args.key ≡ none) ⊎ (mode ≡ client))
    × (run args is_elevated answer events host file ≡ apply_with_key host mode port args.key file)
