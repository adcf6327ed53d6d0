-- ===== src/Service/Rollback.antt =====
-- src/service.rs: what a rollback of a protected service binary leaves behind.
use wakezilla.Prelude.{
  Bool-cases, is_some, Result, ◌≡◌, refl, ◌⊎◌, inl, inr, Bool, true, false, Option, none, some, ok,
  ◌+◌, sym, arith,
}
use wakezilla.Service.Disk.{
  Node, Disk, IoError, unchanged, is_empty_directory, sync_parent_directory, syncing, removing,
  restoring, removing_directory, perform,
}
use wakezilla.Service.Binary.{
  UnixProtectedBinaryUpdate, restore_backup, remove_destination, remove_parent, restore_if,
  remove_parent_if, rollback_inner, restore_from, without_empty_parent, drop_update,
  finish_rollback, rollback, unsynced,
}
use wakezilla.Service.Rules.{Ends, Ends-bind, perform-Ends, returns, raises, Ends-weaken}

abbrev pub Holds : Option Node → Disk → Type 0
Holds prior d = (d.destination ≡ prior) × (d.backup ≡ none)

-- There was a binary, and it is the backup.
abbrev pub BackedUp : Option Node → Disk → Type 0
BackedUp prior d = (is_some prior ≡ true) × (d.backup ≡ prior)

-- The binary, or its absence, is in its place, or the binary is still the backup.
abbrev pub Kept : Option Node → Disk → Type 0
Kept prior d = Holds prior d ⊎ BackedUp prior d

-- One undo.
abbrev pub Undone : Option Node → Result (Unit {0}) IoError × Disk → Type 0
Undone prior = Ends (λ _. Holds prior) (λ _. Kept prior)

sync_parent_directory-Undone :
    (prior : Option Node) (d : Disk) → Holds prior d → Undone prior (sync_parent_directory d)
unfolding sync_parent_directory
sync_parent_directory-Undone prior d h = perform-Ends syncing unchanged d (inl h) h

without_empty_parent-Holds :
    (prior : Option Node) (d : Disk) → Holds prior d → Holds prior (without_empty_parent d)
unfolding without_empty_parent
without_empty_parent-Holds prior d h = elim (Bool-cases (is_empty_directory d)) [
  | inl empty ↦ rw empty h
  | inr filled ↦ rw filled h
]

remove_parent-Undone :
    (prior : Option Node) (d : Disk) → Holds prior d → Undone prior (remove_parent d)
unfolding remove_parent
remove_parent-Undone prior d h =
    perform-Ends removing_directory without_empty_parent d (inl h)
      (without_empty_parent-Holds prior d h)

remove_parent_if-Undone :
    (prior : Option Node) (created : Bool) (d : Disk)
    → Holds prior d
    → Undone prior (remove_parent_if created d)
unfolding remove_parent_if
remove_parent_if-Undone prior false d h = returns tt d h
remove_parent_if-Undone prior true d h =
    Ends-bind _ (remove_parent-Undone prior d h) (λ _ d. sync_parent_directory-Undone prior d)

restore_from-Undone :
    (prior : Option Node) (d : Disk)
    → is_some prior ≡ true
    → d.backup ≡ prior
    → Undone prior (restore_from prior d)
unfolding restore_from
restore_from-Undone none d present h = cc
restore_from-Undone (some p) d present h = perform-Ends restoring _ d (inr (refl, h)) (refl, refl)

pub restore_if-Undone :
    (backup : Bool) (prior : Option Node) (d : Disk)
    → backup ≡ is_some prior
    → d.destination ≡ none
    → d.backup ≡ prior
    → Undone prior (restore_if backup d)
unfolding restore_if restore_backup
restore_if-Undone true prior d e empty h = simp h (restore_from-Undone prior d (sym e) h)
restore_if-Undone false none d e empty h = returns tt d (empty, h)
restore_if-Undone false (some p) d e empty h = cc

-- One undo, or nothing is changed.
abbrev pub UndoneOrNot : Disk → Result (Unit {0}) IoError × Disk → Type 0
UndoneOrNot d =
    Ends (λ _. Holds d.backup)
      (λ _ d'. Kept d.backup d' ⊎ ((d'.destination ≡ d.destination) × (d'.backup ≡ d.backup)))

pub rollback_inner-Undone :
    (update : UnixProtectedBinaryUpdate) (d : Disk)
    → update.backup ≡ is_some d.backup
    → UndoneOrNot d (rollback_inner update d)
unfolding rollback_inner remove_destination
rollback_inner-Undone update d h =
    Ends-bind _
      (perform-Ends {P = λ _ d'. (d'.destination ≡ none) × (d'.backup ≡ d.backup)} removing _ d
        (inr (refl, refl)) (refl, refl))
      (λ _ d' e.
        Ends-weaken
          (Ends-bind _ (restore_if-Undone update.backup d.backup d' h e.0 e.1) (λ _ d'' f.
            Ends-bind _ (sync_parent_directory-Undone d.backup d'' f)
              (λ _ d3. remove_parent_if-Undone d.backup update.created_parent d3)))
          (λ _ _ k. k) (λ _ _ k. inl k))

finish_rollback-Holds :
    (update : UnixProtectedBinaryUpdate) (prior : Option Node) (Q : IoError → Disk → Type 0)
    (r : Result (Unit {0}) IoError × Disk)
    → Ends (λ _. Holds prior) Q r
    → (finish_rollback update r).0 ≡ ok tt
    → Holds prior (finish_rollback update r).1
unfolding finish_rollback drop_update
finish_rollback-Holds update prior Q r (returns done d h) e = h
finish_rollback-Holds update prior Q r (raises failed d h) e = cc

-- A rollback that reports success has put the prior binary back in its place, or has left no binary
-- where there was none before, and leaves no backup.
pub rollback-restores :
    (update : UnixProtectedBinaryUpdate) (d : Disk)
    → update.backup ≡ is_some d.backup
    → (rollback update d).0 ≡ ok tt
    → ((rollback update d).1.destination ≡ d.backup) × ((rollback update d).1.backup ≡ none)
unfolding rollback
rollback-restores update d h success =
    finish_rollback-Holds update d.backup _ (rollback_inner update d)
      (rollback_inner-Undone update d h) success

-- A rollback whose sync fails after the prior binary is back removes that binary: the drop of the
-- update undoes a second time, and there is no backup left to restore.
pub rollback_loses :
    (update : UnixProtectedBinaryUpdate) (d : Disk) (prior : Node)
    → update.backup ≡ true
    → update.finished ≡ false
    → d.backup ≡ some prior
    → d.fails d.calls ≡ false
    → d.fails (d.calls + 1) ≡ false
    → d.fails (d.calls + 1 + 1) ≡ true
    → d.fails (d.calls + 1 + 1 + 1) ≡ false
    → ((rollback update d).1.destination ≡ none) × ((rollback update d).1.backup ≡ none)
unfolding rollback rollback_inner finish_rollback drop_update restore_if perform remove_destination
    restore_backup restore_from sync_parent_directory
rollback_loses update d prior h unfinished present removed restored unsynced removed_again =
    ground arith
