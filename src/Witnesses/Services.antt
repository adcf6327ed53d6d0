-- ===== src/Witnesses/Services.antt =====
-- Runs of the update of a service binary of src/service.rs.
use wakezilla.Prelude.{
  ◌==◌, codes_eq, ℕ, ◌≡◌, refl, inl, Bool, true, false, none, some, List, [], ◌∷◌,
}
use wakezilla.Service.Disk.{Node, Disk, perform, file, directory}
use wakezilla.Service.Binary.{UnixProtectedBinaryUpdate, rollback, protected_file}
use wakezilla.Service.Rules.{Ends}
use wakezilla.Service.Install.{Manager, install}
use wakezilla.Service.Rollback.{rollback-restores, rollback_loses}
use wakezilla.Service.Uninstall.{uninstall}
use wakezilla.Service.Removal.{Gone, KeptOrGone, uninstall-Gone}
use wakezilla.Service.Installation.{Installed, NotInstalled, install-Installed}

abbrev root_file : List ℕ → Node
root_file contents = file (protected_file 0 0 contents)

-- A disk with an old binary and a new one to install, where the calls in `fails` are refused.
abbrev disk : (ℕ → Bool) → Disk
disk fails = record {
  source = some (root_file (2 ∷ []));
  reread = 2 ∷ [];
  parent = some (directory (record { uid = 0; gid = 0; mode = 0o755 }));
  destination = some (root_file (1 ∷ []));
  backup = none;
  others = false;
  created = record { uid = 0; gid = 0; mode = 0o600 };
  ancestors = some (directory (record { uid = 0; gid = 0; mode = 0o40755 })) ∷ none ∷ [];
  made_directory = record { uid = 0; gid = 0; mode = 0o755 };
  fails = fails;
  calls = 0;
}

-- The same after the new binary was put in place.
abbrev updated : (ℕ → Bool) → Disk
updated fails = record (disk fails) {
  destination = some (root_file (2 ∷ []));
  backup = some (root_file (1 ∷ []));
}

abbrev update : UnixProtectedBinaryUpdate
update = record { backup = true; created_parent = false; finished = false }

abbrev manager : Manager
manager = record {
  write_unix_service_descriptor = λ _. true;
  daemon_reload = λ _. true;
  enable = λ _. true;
  restart = λ _. true;
  connect = λ binary n. n == 3;
}

install-Installed_example :
    Ends
      (λ _. Installed manager (disk (λ _. false)))
      (NotInstalled (disk (λ _. false)))
      (install (λ s. s) true manager (disk (λ _. false)))
install-Installed_example = install-Installed (λ s. s) true manager (disk (λ _. false)) refl

-- The run of the witness installs the new binary.
installed :
    (install (λ s. s) true manager (disk (λ _. false))).1.destination ≡ some (root_file (2 ∷ []))
unfolding install perform codes_eq
installed = refl

rollback-restores_example :
    ((rollback update (updated (λ _. false))).1.destination ≡ some (root_file (1 ∷ [])))
    × ((rollback update (updated (λ _. false))).1.backup ≡ none)
unfolding rollback perform
rollback-restores_example = rollback-restores update (updated (λ _. false)) refl refl

rollback_loses_example :
    ((rollback update (updated (λ n. n == 2))).1.destination ≡ none)
    × ((rollback update (updated (λ n. n == 2))).1.backup ≡ none)
rollback_loses_example =
    rollback_loses update (updated (λ n. n == 2)) (root_file (1 ∷ [])) refl refl refl refl refl refl
      refl

-- The directory of the binary is not removed, and the binary is.
uninstall-Gone_example :
    Ends
      (λ _. Gone (some (root_file (1 ∷ []))))
      (λ _. KeptOrGone (some (root_file (1 ∷ []))))
      (uninstall true true (disk (λ n. n == 3)))
uninstall-Gone_example = uninstall-Gone true true (disk (λ n. n == 3)) (inl refl)
