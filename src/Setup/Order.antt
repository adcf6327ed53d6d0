-- ===== src/Setup/Order.antt =====
-- src/setup.rs: what a setup writes and installs, and in which order.
use wakezilla.Prelude.{
  if◌then◌else◌, Result, Result-cases, ok, err, ℕ, String, ◌≡◌, refl, sym, ap, ◌∙◌, subst, inl, inr,
  Option, none, some, List, [], ◌∷◌,
}
use wakezilla.Config.{Config, config_path, Entry, Writing, WriteError, save_to, regular, save_text}
use wakezilla.Config.Secret.{
  Private, write_secret_file-Private, written, untouched, truncated, partial, unsynced,
}
use wakezilla.Service.{Mode}
use wakezilla.Setup.Apply.{
  SetupError, Host, planned_config, Effects, install_saved, save_planned, apply_with_key,
  no_executable, not_saved, apply_from, install_failed,
}

-- The effects of a setup: nothing without an executable or where the configuration is rejected, a configuration that could not be saved, or one call of the
-- installation after the planned configuration was saved.
pub data Applied (host : Host) (mode : Mode) (port : ℕ) (key : Option String) (file : Entry)
    : Effects → Type 0 where
  no_binary :
      host.current_exe ≡ none → Applied host mode port key file (file, [], err no_executable)
  rejected :
      (exe : String) (e : SetupError)
      → host.current_exe ≡ some exe
      → planned_config host mode port key ≡ err e
      → Applied host mode port key file (file, [], err e)
  unsaved :
      (cfg : Config) (remaining : Entry) (e : WriteError) (exe : String)
      → host.current_exe ≡ some exe
      → planned_config host mode port key ≡ ok cfg
      → save_to host.to_string_pretty host.writing file cfg ≡ (remaining, err e)
      → Applied host mode port key file (remaining, [], err not_saved)
  saved :
      (cfg : Config) (contents : List ℕ) (exe : String)
      → host.current_exe ≡ some exe
      → planned_config host mode port key ≡ ok cfg
      → host.to_string_pretty cfg ≡ some contents
      → Applied host mode port key file (
        regular 0o600 contents,
        (mode, exe, port) ∷ [],
        if host.install mode exe port then ok config_path else err install_failed,
      )

Private-ok :
    (old : Entry) (contents : List ℕ) (r : Entry × Result (Unit {0}) WriteError)
    → Private old contents r
    → r.1 ≡ ok tt
    → r ≡ (regular 0o600 contents, ok tt)
Private-ok old contents r written h = refl
Private-ok old contents r (untouched e) h = cc
Private-ok old contents r (truncated mode e) h = cc
Private-ok old contents r (partial n e) h = cc
Private-ok old contents r (unsynced e) h = cc

save_text-ok :
    (w : Writing) (file : Entry) (text : Option (List ℕ))
    → (save_text w file text).1 ≡ ok tt
    → (contents : List ℕ) × (text ≡ some contents)
      × (save_text w file text ≡ (regular 0o600 contents, ok tt))
unfolding save_text
save_text-ok w file none h = cc
save_text-ok w file (some contents) h =
    (contents, refl, Private-ok file contents _ (write_secret_file-Private w file contents).0 h)

install_saved-Applied :
    (host : Host) (mode : Mode) (port : ℕ) (key : Option String) (file : Entry) (exe : String)
    (cfg : Config) (r : Entry × Result (Unit {0}) WriteError)
    → host.current_exe ≡ some exe
    → planned_config host mode port key ≡ ok cfg
    → save_to host.to_string_pretty host.writing file cfg ≡ r
    → Applied host mode port key file (install_saved host mode port exe r)
unfolding install_saved save_to
install_saved-Applied host mode port key file exe cfg (remaining, ok done) found planned e =
    let (contents, made, whole) =
      save_text-ok host.writing file (host.to_string_pretty cfg) (ap (λ x. x.1) e) in
    let same : remaining ≡ regular 0o600 contents = ap (λ x. x.0) (sym e ∙ whole) in
    subst
      (λ x. Applied host mode port key file (
        x,
        (mode, exe, port) ∷ [],
        if host.install mode exe port then ok config_path else err install_failed,
      ))
      (sym same) (saved cfg contents exe found planned made)
install_saved-Applied host mode port key file exe cfg (remaining, err e) found planned h =
    unsaved cfg remaining e exe found planned h

-- A setup that has its mode and port writes the planned configuration before it calls the
-- installation, once, with the executable in use. Without an executable, or with a key that is
-- rejected, it touches nothing; if the configuration is not saved, nothing is installed.
pub apply_with_key-Applied :
    (host : Host) (mode : Mode) (port : ℕ) (key : Option String) (file : Entry)
    → Applied host mode port key file (apply_with_key host mode port key file)
unfolding apply_with_key apply_from save_planned
apply_with_key-Applied host mode port key file = go host.current_exe refl
  where
    go :
        (exe : Option String)
        → host.current_exe ≡ exe
        → Applied host mode port key file (apply_from host mode port key file exe)
    go none h = no_binary h
    go (some exe) h = elim (Result-cases (planned_config host mode port key)) [
      | inl (cfg, planned) ↦
          rw (planned, save_planned)
            (install_saved-Applied host mode port key file exe cfg _ h planned refl)
      | inr (e, refused) ↦ rw (refused, save_planned) (rejected exe e h refused)
    ]
