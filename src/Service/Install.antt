-- ===== src/Service/Install.antt =====
-- src/service.rs: the directory of the protected binary, the installation of a service on Linux, and
-- the checks and the removal of its binary.
use wakezilla.Prelude.{
  ◌==◌, if◌then◌else◌, is_none, length, set, codes_eq, Result, ok, err, ℕ, zero, suc, ◌+◌, ◌/◌, ◌%◌,
  Bool, true, false, ◌&&◌, Option, none, some, List, [], ◌∷◌,
}
use wakezilla.Service.{ValidateError, validate}
use wakezilla.Service.Disk.{
  Metadata, Node, Disk, IoError, Io, ◌>>=◌, ◌>>◌, pure, fail, ensure, perform, unchanged,
  is_protected_file, is_protected_directory, file, directory, special, inspecting_destination,
  setting_mode, setting_owner, syncing, removing, unsafe_directory, inspecting_directory,
  creating_directory, opening_directory, not_absolute, unsafe_binary, unsafe_descriptor,
  foreign_binary, configuring, unreachable_service, not_rolled_back,
}
use wakezilla.Service.Binary.{
  UnixProtectedBinaryUpdate, remove_parent, rollback, commit, begin_unix_protected_binary_update_at,
}

-- A component of the path of the binary's directory.
pub data Place : Type 0 where
  last : Place
  above : ℕ → Place

unfoldable pub nth : List (Option Node) → ℕ → Option Node
nth [] i = none
nth (found ∷ ancestors) zero = found
nth (found ∷ ancestors) (suc i) = nth ancestors i

unfoldable pub entry_at : Place → Disk → Option Node
unfolding nth
entry_at last d = d.parent
entry_at (above i) d = nth d.ancestors i

unfoldable pub put : Place → Metadata → Disk → Disk
put last m d = record d { parent = some (directory m) }
put (above i) m d = record d { ancestors = set d.ancestors i (some (directory m)) }

-- DirBuilder::create, and the open, chown and chmod of what it made.
unfoldable pub create_directory : (owner_uid owner_gid : ℕ) → Place → Io Bool
unfolding put
create_directory owner_uid owner_gid place = do
  perform creating_directory (λ d. put place d.made_directory d)
  perform opening_directory unchanged
  perform setting_owner unchanged
  perform setting_mode (put place (record { uid = owner_uid; gid = owner_gid; mode = 0o755 }))
  pure true

unfoldable pub open_directory : (owner_uid owner_gid : ℕ) → Place → Option Node → Io Bool
unfolding create_directory is_protected_directory
open_directory owner_uid owner_gid place none = create_directory owner_uid owner_gid place
open_directory owner_uid owner_gid place (some found) = do
  ensure (is_protected_directory owner_uid owner_gid (some found)) unsafe_directory
  perform opening_directory unchanged
  pure false

unfoldable pub ensure_unix_service_directory_at : (owner_uid owner_gid : ℕ) → Place → Io Bool
unfolding entry_at open_directory is_protected_directory
ensure_unix_service_directory_at owner_uid owner_gid place = do
  perform inspecting_directory unchanged
  created ← λ d. open_directory owner_uid owner_gid place (entry_at place d) d
  perform syncing unchanged
  λ d. ensure (is_protected_directory owner_uid owner_gid (entry_at place d)) unsafe_directory d
  pure created

-- remove_unix_protected_binary_at
unfoldable pub remove_found : (owner_uid owner_gid : ℕ) → Option Node → Io (Unit {0})
unfolding is_protected_file
remove_found owner_uid owner_gid none = pure tt
remove_found owner_uid owner_gid (some found) = do
  ensure (is_protected_file owner_uid owner_gid (some found)) foreign_binary
  perform removing (λ d. record d { destination = none })

unfoldable pub remove_parent_when : Bool → Io (Unit {0})
unfolding remove_parent
remove_parent_when true = remove_parent
remove_parent_when false = pure tt

unfoldable pub remove_unix_protected_binary_at :
    (remove_parent_if_empty : Bool) (owner_uid owner_gid : ℕ) → Io (Unit {0})
unfolding remove_found remove_parent_when
remove_unix_protected_binary_at remove_parent_if_empty owner_uid owner_gid = do
  perform inspecting_destination unchanged
  λ d. remove_found owner_uid owner_gid d.destination d
  remove_parent_when remove_parent_if_empty

unfoldable pub ensure_again : (created : Bool) → Io Bool
unfolding ensure_unix_service_directory_at
ensure_again true = pure true
ensure_again false = do ensure_unix_service_directory_at 0 0 last; pure false

-- One component: whether it was missing.
unfoldable pub prepare_found : Place → (missing : Bool) → Io Bool
unfolding ensure_unix_service_directory_at
prepare_found place missing = do ensure_unix_service_directory_at 0 0 place; pure missing

unfoldable pub prepare_at : Place → Io Bool
unfolding entry_at prepare_found
prepare_at place = do
  perform inspecting_directory unchanged
  λ d. prepare_found place (is_none (entry_at place d)) d

-- The loop over the components above the last one, `left` of them from the i-th on.
unfoldable pub prepare_above : (left i : ℕ) → Io (Unit {0})
unfolding prepare_at
prepare_above zero i = pure tt
prepare_above (suc left) i = do prepare_at (above i); prepare_above left (i + 1)

unfoldable pub prepare_unix_service_directory : Io Bool
unfolding prepare_at prepare_above ensure_again
prepare_unix_service_directory = do
  λ d. prepare_above (length d.ancestors) 0 d
  final_created ← prepare_at last
  ensure_again final_created

-- A failed `begin` removes the directory that was made for it, if it can.
unfoldable pub undo_directory :
    (created_parent : Bool)
    → Result UnixProtectedBinaryUpdate IoError × Disk
    → Result UnixProtectedBinaryUpdate IoError × Disk
unfolding remove_parent_when
undo_directory created_parent (ok update, d) =
    (ok (record update { created_parent = created_parent }), d)
undo_directory created_parent (err e, d) = (err e, (remove_parent_when created_parent d).1)

-- begin_protected_binary_update
unfoldable pub begin_protected_binary_update :
    (sha256 : List ℕ → List ℕ) (is_absolute : Bool) → Io UnixProtectedBinaryUpdate
unfolding prepare_unix_service_directory begin_unix_protected_binary_update_at undo_directory
begin_protected_binary_update sha256 is_absolute = do
  ensure is_absolute not_absolute
  created_parent ← prepare_unix_service_directory
  λ d. undo_directory created_parent (begin_unix_protected_binary_update_at sha256 0 0 d)

-- What the system does with the service while the given binary is in place.
pub record Manager : Type 0 where
  pub write_unix_service_descriptor : Option Node → Bool
  pub daemon_reload : Option Node → Bool
  pub enable : Option Node → Bool
  pub restart : Option Node → Bool
  pub connect : Option Node → ℕ → Bool

unfoldable pub command : Bool → Io (Unit {0})
command done = ensure done configuring

unfoldable pub reachable : Result (Unit {0}) ValidateError × ℕ → Io (Unit {0})
reachable (ok done, paused) = pure tt
reachable (err e, paused) = fail unreachable_service

-- The configuration of the service on Linux, where the firewall needs nothing.
unfoldable pub configure : Manager → Io (Unit {0})
unfolding command reachable validate
configure m d =
    (do
      command (m.write_unix_service_descriptor d.destination)
      command (m.daemon_reload d.destination)
      command (m.enable d.destination)
      command (m.restart d.destination)
      reachable (validate (m.connect d.destination) 10))
      d

unfoldable pub restored_or_told :
    IoError → Result (Unit {0}) IoError × Disk → Result (Unit {0}) IoError × Disk
restored_or_told install_error (ok done, d) = (err install_error, d)
restored_or_told install_error (err e, d) = (err not_rolled_back, d)

-- The end of install: the update is committed, or rolled back after a failed configuration.
unfoldable pub commit_or_rollback :
    UnixProtectedBinaryUpdate → Result (Unit {0}) IoError × Disk → Result (Unit {0}) IoError × Disk
unfolding commit rollback restored_or_told
commit_or_rollback update (ok done, d) = commit update d
commit_or_rollback update (err install_error, d) =
    restored_or_told install_error (rollback update d)

-- service::install
unfoldable pub install : (sha256 : List ℕ → List ℕ) (is_absolute : Bool) → Manager → Io (Unit {0})
unfolding begin_protected_binary_update configure commit_or_rollback
install sha256 is_absolute manager = do
  update ← begin_protected_binary_update sha256 is_absolute
  λ d. commit_or_rollback update (configure manager d)

-- permissions & 0o022 == 0
unfoldable pub is_writable_by_owner_only : ℕ → Bool
is_writable_by_owner_only mode = mode / 2 % 2 == 0 && mode / 16 % 2 == 0

unfoldable pub is_trusted_descriptor : (owner_uid owner_gid : ℕ) → Option Node → List ℕ → Bool
unfolding is_writable_by_owner_only
is_trusted_descriptor owner_uid owner_gid (some (file f)) canonical =
    f.metadata.uid == owner_uid
    && f.metadata.gid == owner_gid
    && is_writable_by_owner_only f.metadata.mode
    && codes_eq f.contents canonical
is_trusted_descriptor owner_uid owner_gid (some (directory m)) canonical = false
is_trusted_descriptor owner_uid owner_gid (some special) canonical = false
is_trusted_descriptor owner_uid owner_gid none canonical = false

-- validate_unix_service_files_at, where no call fails.
unfoldable pub validate_unix_service_files_at :
    (owner_uid owner_gid : ℕ) (binary descriptor : Option Node) (canonical_descriptor : List ℕ)
    → Result (Unit {0}) IoError
unfolding is_protected_file is_trusted_descriptor
validate_unix_service_files_at owner_uid owner_gid binary descriptor canonical_descriptor =
    if is_protected_file owner_uid owner_gid binary
    then if is_trusted_descriptor owner_uid owner_gid descriptor canonical_descriptor
      then ok tt
      else err unsafe_descriptor
    else err unsafe_binary
