-- ===== src/Witnesses/Terminal.antt =====
-- A run of the terminal UI of src/tui.rs.
use wakezilla.Prelude.{ok, ◌≡◌, refl, ◌⊎◌, true, false, none, [], ◌∷◌, arith}
use wakezilla.Common.{default_machine}
use wakezilla.Tui.{App, ApiClient, handle_key, char}
use wakezilla.Tui.Selection.{
  IsSelected, handle_key-IsSelected, handle_key_deletes_confirmed, is_delete,
}

abbrev app : App
app = record {
  machines = default_machine ∷ default_machine ∷ [];
  statuses = [];
  access_history = none;
  selected = 1;
  loading = false;
  should_quit = false;
  confirm_delete = true;
  message = none;
  last_refresh = 0;
}

abbrev client : ApiClient
client = record {
  list_machines = ok (default_machine ∷ []);
  statuses_for = λ _. [];
  access_history = λ _. none;
  wake_machine = λ _. ok "woken";
  turn_off_machine = λ _. ok "turned off";
  delete_machine = λ _. ok "deleted";
}

handle_key-IsSelected_example : IsSelected (handle_key client 5 (char b'y') app).0
handle_key-IsSelected_example = handle_key-IsSelected client 5 (char b'y') app (omega arith)

handle_key_deletes_confirmed_example :
    (app.confirm_delete ≡ true) × ((char b'y' ≡ char b'y') ⊎ (char b'y' ≡ char b'Y'))
unfolding handle_key is_delete
handle_key_deletes_confirmed_example = handle_key_deletes_confirmed client 5 (char b'y') app refl
