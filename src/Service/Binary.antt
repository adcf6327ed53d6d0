-- ===== src/Service/Binary.antt =====
-- src/service.rs: the update of a protected service binary, `UnixProtectedBinaryUpdate`.
use wakezilla.Prelude.{
  if◌then◌else◌, is_some, is_none, codes_eq, ok, err, ℕ, Bool, true, false, ◌||◌, Option, none,
  some, List, Result,
}
use wakezilla.Service.Disk.{
  File, Node, Disk, IoError, Io, ◌>>=◌, ◌>>◌, pure, fail, ensure, tick, perform, unchanged, is_file,
  is_protected_file, is_directory, is_empty_directory, sync_parent_directory, file, directory,
  special, inspecting_source, inspecting_parent, inspecting_destination, opening_source,
  source_not_regular, parent_not_directory, unsafe_destination, staging, copying, syncing_stage,
  rewinding, hashing, verification_failed, setting_mode, setting_owner, allocating_backup,
  moving_prior, publishing, removing, restoring, removing_backup, removing_directory,
  not_rolled_back,
}

pub record UnixProtectedBinaryUpdate : Type 0 where
  pub backup : Bool
  pub created_parent : Bool
  pub finished : Bool

unfoldable pub restore_from : Option Node → Io (Unit {0})
restore_from none d = (err restoring, tick d)
restore_from (some prior) d =
    perform restoring (λ d. record d { destination = some prior; backup = none }) d

-- rename of the backup to the destination; it fails where there is no backup.
unfoldable pub restore_backup : Io (Unit {0})
unfolding restore_from
restore_backup d = restore_from d.backup d

unfoldable pub remove_destination : Io (Unit {0})
remove_destination d = perform removing (λ d. record d { destination = none }) d

-- remove_dir. A directory that holds an entry is left without an error.
unfoldable pub without_empty_parent : Disk → Disk
unfolding is_empty_directory
without_empty_parent d = if is_empty_directory d then record d { parent = none } else d

unfoldable pub remove_parent : Io (Unit {0})
unfolding without_empty_parent
remove_parent d = perform removing_directory without_empty_parent d

unfoldable pub restore_if : Bool → Io (Unit {0})
unfolding restore_backup
restore_if true d = restore_backup d
restore_if false d = (ok tt, d)

unfoldable pub remove_parent_if : Bool → Io (Unit {0})
unfolding remove_parent sync_parent_directory
remove_parent_if true = do remove_parent; sync_parent_directory
remove_parent_if false = pure tt

-- UnixProtectedBinaryUpdate::rollback_inner
unfoldable pub rollback_inner : UnixProtectedBinaryUpdate → Io (Unit {0})
unfolding remove_destination restore_if sync_parent_directory remove_parent_if
rollback_inner update = do
  remove_destination
  restore_if update.backup
  sync_parent_directory
  remove_parent_if update.created_parent

-- Drop::drop
unfoldable pub drop_update : UnixProtectedBinaryUpdate → Disk → Disk
unfolding rollback_inner
drop_update update d = if update.finished then d else (rollback_inner update d).1

unfoldable pub finish_rollback :
    UnixProtectedBinaryUpdate → Result (Unit {0}) IoError × Disk → Result (Unit {0}) IoError × Disk
unfolding drop_update
finish_rollback update (ok done, d) = (ok done, drop_update (record update { finished = true }) d)
finish_rollback update (err e, d) = (err e, drop_update update d)

-- UnixProtectedBinaryUpdate::rollback, with the drop at its end.
unfoldable pub rollback : UnixProtectedBinaryUpdate → Io (Unit {0})
unfolding rollback_inner finish_rollback
rollback update d = finish_rollback update (rollback_inner update d)

unfoldable pub remove_backup : Io (Unit {0})
remove_backup d = perform removing_backup (λ d. record d { backup = none }) d

-- An error drops the update.
unfoldable pub drop_after :
    UnixProtectedBinaryUpdate → Result (Unit {0}) IoError × Disk → Result (Unit {0}) IoError × Disk
unfolding drop_update
drop_after update (ok done, d) = (ok done, d)
drop_after update (err e, d) = (err e, drop_update update d)

-- The first error drops the update while it is not finished. Once the backup is gone it is.
unfoldable pub commit_backup : UnixProtectedBinaryUpdate → Io (Unit {0})
unfolding remove_backup drop_after sync_parent_directory
commit_backup update = do
  λ d. drop_after update (remove_backup d)
  λ d. drop_after (record update { backup = false; finished = true }) (sync_parent_directory d)

-- UnixProtectedBinaryUpdate::commit
unfoldable pub commit : UnixProtectedBinaryUpdate → Io (Unit {0})
unfolding sync_parent_directory drop_after commit_backup
commit update = do
  λ d. drop_after update (sync_parent_directory d)
  λ d. if update.backup then commit_backup update d else (ok tt, d)

-- The file of a node that is one.
unfoldable pub read_file : IoError → Option Node → Io (List ℕ)
read_file e (some (file f)) = do perform e unchanged; pure f.contents
read_file e (some (directory m)) = fail e
read_file e (some special) = fail e
read_file e none = fail e

-- The copy is synced, and both files are read from their start to be hashed.
unfoldable pub sync_and_hash : Io (Unit {0})
sync_and_hash = do
  perform syncing_stage unchanged
  perform rewinding unchanged
  perform rewinding unchanged
  perform hashing unchanged
  perform hashing unchanged

-- set_permissions, fchown and the sync after them.
unfoldable pub protect_stage : Io (Unit {0})
protect_stage = do
  perform setting_mode unchanged
  perform setting_owner unchanged
  perform syncing_stage unchanged

abbrev pub protected_file : (owner_uid owner_gid : ℕ) → List ℕ → File
protected_file owner_uid owner_gid contents = record {
  contents = contents;
  metadata = record { uid = owner_uid; gid = owner_gid; mode = 0o755 };
}

-- The temporary file in the parent: copied, hashed, and given its mode and owner. It is removed if a
-- step fails.
unfoldable pub stage_from :
    (sha256 : List ℕ → List ℕ) (owner_uid owner_gid : ℕ) (source : Option Node) (reread : List ℕ)
    → Io File
unfolding read_file sync_and_hash protect_stage
stage_from sha256 owner_uid owner_gid source reread = do
  perform staging unchanged
  contents ← read_file copying source
  sync_and_hash
  ensure (codes_eq (sha256 reread) (sha256 contents)) verification_failed
  protect_stage
  pure (protected_file owner_uid owner_gid contents)

unfoldable pub stage : (sha256 : List ℕ → List ℕ) (owner_uid owner_gid : ℕ) → Io File
unfolding stage_from
stage sha256 owner_uid owner_gid d = stage_from sha256 owner_uid owner_gid d.source d.reread d

-- The checks before the first change.
unfoldable pub inspect_entries :
    (owner_uid owner_gid : ℕ) (source parent destination : Option Node) → Io (Unit {0})
unfolding is_file is_directory is_protected_file
inspect_entries owner_uid owner_gid source parent destination = do
  perform inspecting_source unchanged
  ensure (is_some source) inspecting_source
  ensure (is_file source) source_not_regular
  perform inspecting_parent unchanged
  ensure (is_some parent) inspecting_parent
  ensure (is_directory parent) parent_not_directory
  perform inspecting_destination unchanged
  ensure (is_none destination || is_protected_file owner_uid owner_gid destination)
      unsafe_destination
  perform opening_source unchanged
  perform opening_source unchanged
  ensure (is_file source) source_not_regular

unfoldable pub inspect : (owner_uid owner_gid : ℕ) → Io (Unit {0})
unfolding inspect_entries
inspect owner_uid owner_gid d =
    inspect_entries owner_uid owner_gid d.source d.parent d.destination d

-- The prior binary is moved away, and an update tells whether there was one.
unfoldable pub move_from : Option Node → Io Bool
move_from none = pure false
move_from (some prior) = do
  perform allocating_backup unchanged
  perform moving_prior (λ d. record d { destination = none; backup = some prior })
  pure true

unfoldable pub move_prior : Io Bool
unfolding move_from
move_prior d = move_from d.destination d

-- The prior binary goes back to its place if the new one could not be put there.
unfoldable pub back_in_place :
    (backup : Bool) → Result (Unit {0}) IoError × Disk → Result (Unit {0}) IoError × Disk
unfolding restore_if
back_in_place backup (ok done, d) = (ok done, d)
back_in_place backup (err e, d) = (err e, (restore_if backup d).1)

-- persist_noclobber
unfoldable pub persist : File → Io (Unit {0})
persist staged d =
    if is_none d.destination
    then perform publishing (λ d. record d { destination = some (file staged) }) d
    else (err publishing, tick d)

unfoldable pub publish : (backup : Bool) → File → Io (Unit {0})
unfolding persist back_in_place
publish backup staged d = back_in_place backup (persist staged d)

unfoldable pub unsynced :
    IoError → Result (Unit {0}) IoError × Disk → Result UnixProtectedBinaryUpdate IoError × Disk
unsynced e (ok done, d) = (err e, d)
unsynced e (err e', d) = (err not_rolled_back, d)

unfoldable pub roll_back_unsynced :
    UnixProtectedBinaryUpdate
    → Result (Unit {0}) IoError × Disk
    → Result UnixProtectedBinaryUpdate IoError × Disk
unfolding rollback unsynced
roll_back_unsynced update (ok done, d) = (ok update, d)
roll_back_unsynced update (err e, d) = unsynced e (rollback update d)

-- The sync after the publication. An update that was not synced is rolled back.
unfoldable pub sync_or_rollback : UnixProtectedBinaryUpdate → Io UnixProtectedBinaryUpdate
unfolding sync_parent_directory roll_back_unsynced
sync_or_rollback update d = roll_back_unsynced update (sync_parent_directory d)

-- begin_unix_protected_binary_update_at
unfoldable pub begin_unix_protected_binary_update_at :
    (sha256 : List ℕ → List ℕ) (owner_uid owner_gid : ℕ) → Io UnixProtectedBinaryUpdate
unfolding inspect stage move_prior publish sync_or_rollback
begin_unix_protected_binary_update_at sha256 owner_uid owner_gid = do
  inspect owner_uid owner_gid
  staged ← stage sha256 owner_uid owner_gid
  backup ← move_prior
  publish backup staged
  sync_or_rollback (record { backup = backup; created_parent = false; finished = false })
