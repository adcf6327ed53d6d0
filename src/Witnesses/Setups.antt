-- ===== src/Witnesses/Setups.antt =====
-- Runs of the setup of src/setup.rs.
use wakezilla.Prelude.{
  trim, is_lowercase_of, show, parse_uint, ℕ, ◌≤◌, ◌≡◌, refl, ◌⊎◌, true, false, Option, none, some,
  List, [], ◌∷◌,
}
use wakezilla.Witnesses.Crypto.{unary_crypto}
use wakezilla.Config.{default_config, Writing, write_secret_file, absent, regular}
use wakezilla.Config.Secret.{Private, is_symlink, write_secret_file-Private}
use wakezilla.Service.{from_str_opt, proxy, client}
use wakezilla.Setup.{
  SetupArgs, Wizard, Event, new_wizard, port_message, wizard_loop, port_input, enter, press,
  key_event, chosen,
}
use wakezilla.Setup.Apply.{Host, with_port, absolute_storage, planned_config, apply_with_key}
use wakezilla.Setup.Ports.{IsPort, wizard_loop-IsPort}
use wakezilla.Setup.Progress.{wizard_loop-finishes}
use wakezilla.Setup.Order.{Applied, apply_with_key-Applied}
use wakezilla.Setup.Kept.{kept_config, planned_config-keeps}

abbrev writing : Writing
writing = record {
  create_dir_all = true;
  opens = true;
  created_mode = 0o600;
  set_permissions = true;
  write_all = some 1;
  sync_all = true;
}

write_secret_file-Private_example :
    Private
      (regular 0o644 (7 ∷ []))
      (1 ∷ 2 ∷ [])
      (write_secret_file writing (regular 0o644 (7 ∷ [])) (1 ∷ 2 ∷ []))
    × ((is_symlink (regular 0o644 (7 ∷ [])) ≡ false)
        ⊎ ((write_secret_file writing (regular 0o644 (7 ∷ [])) (1 ∷ 2 ∷ [])).0
            ≡ regular 0o644 (7 ∷ [])))
write_secret_file-Private_example =
    write_secret_file-Private writing (regular 0o644 (7 ∷ [])) (1 ∷ 2 ∷ [])

abbrev args : SetupArgs
args = record { mode = some "client"; port = some 4000; key = none; yes_flag = false }

abbrev enter_key : Event
enter_key = key_event (record { code = enter; control = false; kind = press })

wizard_loop-IsPort_example : IsPort 4000
unfolding wizard_loop new_wizard from_str_opt show parse_uint trim is_lowercase_of
wizard_loop-IsPort_example =
    wizard_loop-IsPort args (enter_key ∷ enter_key ∷ enter_key ∷ []) client 4000 refl

abbrev stuck : Wizard
stuck = record { step = port_input; mode = proxy; port_text = "0"; error = some port_message }

wizard_loop-finishes_example :
    (events : List Event) × ((port : ℕ) × (1 ≤ port)
      × (port ≤ 65535)
      × (wizard_loop stuck events ≡ chosen proxy port))
wizard_loop-finishes_example = wizard_loop-finishes stuck

abbrev host : Host
host = record {
  current_exe = some "/usr/bin/wakezilla";
  path_exists = true;
  installed_modes = proxy ∷ [];
  load_from = some default_config;
  crypto = unary_crypto;
  to_string_pretty = λ c. some (c.server.client_port ∷ []);
  writing = record writing { write_all = none };
  install = λ _ _ _. true;
}

apply_with_key-Applied_example :
    Applied host client 4000 none absent (apply_with_key host client 4000 none absent)
apply_with_key-Applied_example = apply_with_key-Applied host client 4000 none absent

planned_config-keeps_example :
    absolute_storage (with_port client 4000 default_config)
    ≡ kept_config client 4000 none default_config
unfolding planned_config
planned_config-keeps_example =
    planned_config-keeps host client 4000 none default_config _ refl refl refl

abbrev yes_line : Option (List ℕ)
yes_line = some (b'Y' ∷ b'e' ∷ b's' ∷ 10 ∷ [])
