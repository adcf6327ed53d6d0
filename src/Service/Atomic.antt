-- ===== src/Service/Atomic.antt =====
-- src/service.rs: an update of a protected service binary leaves the prior binary or the new one.
use wakezilla.Prelude.{
  Bool-cases, is_some, Result, ℕ, ◌≡◌, refl, sym, ap, ◌∙◌, subst, ◌⊎◌, inl, inr, true, false,
  Option, none, some, List,
}
use wakezilla.Service.Disk.{
  File, Node, Disk, IoError, unchanged, sync_parent_directory, syncing, removing_backup,
}
use wakezilla.Service.Binary.{
  UnixProtectedBinaryUpdate, drop_update, remove_backup, drop_after, commit_backup, commit, stage,
  inspect, publish, begin_unix_protected_binary_update_at, rollback_inner,
}
use wakezilla.Service.Rules.{Ends, Ends-bind, Ends-weaken, perform-Ends, returns, raises}
use wakezilla.Service.Rollback.{Holds, Kept, UndoneOrNot, rollback_inner-Undone}
use wakezilla.Service.Publishing.{
  Same, inspect_entries-Keeps, Staged, stage_from-Ends, Published, persist-Ends, Late,
  back_in_place-Ends, KeptUnlessTold, sync_or_rollback-Ends, move_prior-Ends,
}

-- What a successful `begin` gives.
abbrev pub Begun :
    (List ℕ → List ℕ) → (owner_uid owner_gid : ℕ) → Disk → UnixProtectedBinaryUpdate → Disk → Type 0
Begun sha256 owner_uid owner_gid d update d' =
    (staged : File) × Staged sha256 owner_uid owner_gid d.source d.reread staged
    × Published d.destination staged d'
    × (update.backup ≡ is_some d.destination)
    × (update.finished ≡ false)

pub Staged-Same :
    (sha256 : List ℕ → List ℕ) (owner_uid owner_gid : ℕ) (d d' : Disk) (staged : File)
    → Same d d'
    → Staged sha256 owner_uid owner_gid d'.source d'.reread staged
    → Staged sha256 owner_uid owner_gid d.source d.reread staged
Staged-Same sha256 owner_uid owner_gid d d' staged h (f, source, hashed, made) =
    (f, sym h.0 ∙ source, ap sha256 (sym h.1) ∙ hashed, made)

pub Same-Holds : (d d' : Disk) → d.backup ≡ none → Same d d' → Holds d.destination d'
Same-Holds d d' empty h = (h.2, h.3 ∙ empty)

-- The begin of an update, whatever calls fail: after a success the destination is a file of the given
-- owner with mode 0755 that holds the source's contents, of the hash that was read again, and the
-- prior binary is the backup. After an error the prior binary, or its absence, is in its place or
-- the prior binary is the backup, unless the error says that the rollback failed too.
pub begin_unix_protected_binary_update_at-Begun :
    (sha256 : List ℕ → List ℕ) (owner_uid owner_gid : ℕ) (d : Disk)
    → d.backup ≡ none
    → Ends
        (Begun sha256 owner_uid owner_gid d)
        (KeptUnlessTold d.destination)
        (begin_unix_protected_binary_update_at sha256 owner_uid owner_gid d)
unfolding begin_unix_protected_binary_update_at inspect stage publish
begin_unix_protected_binary_update_at-Begun sha256 owner_uid owner_gid d empty =
    let kept : (e : IoError) (d' : Disk) → Same d d' → KeptUnlessTold d.destination e d' =
      λ e d' h. inl (inl (Same-Holds d d' empty h)) in
    Ends-bind _
      (Ends-weaken
        (inspect_entries-Keeps owner_uid owner_gid d.source d.parent d.destination d d
          (refl, refl, refl, refl))
        (λ _ _ h. h) kept)
      λ _ d1 h1.
        Ends-bind _
          (Ends-weaken (stage_from-Ends sha256 owner_uid owner_gid d1.source d1.reread d d1 h1)
            (λ _ _ h. h) kept)
          λ staged d2 h2.
            Ends-bind _
              (Ends-weaken (move_prior-Ends d.destination d2 (Same-Holds d d2 empty h2.0))
                (λ _ _ h. h) (λ _ _ h. inl (inl h)))
              λ backup d3 h3.
                Ends-bind _
                  (Ends-weaken
                    (back_in_place-Ends d.destination backup staged _
                      (persist-Ends d.destination backup staged d3 h3))
                    (λ _ _ h. h) (λ _ _ h. inl h))
                  λ _ d4 h4.
                    Ends-weaken
                      (sync_or_rollback-Ends d.destination staged
                        (record { backup = backup; created_parent = false; finished = false }) d4 h4
                        h3.2)
                      (λ u d5 h5. (
                        staged,
                        Staged-Same sha256 owner_uid owner_gid d d1 staged h1 h2.1,
                        h5.0,
                        ap (λ (v : UnixProtectedBinaryUpdate). v.backup) h5.1 ∙ h3.2,
                        ap (λ (v : UnixProtectedBinaryUpdate). v.finished) h5.1,
                      ))
                      (λ _ _ h. h)

none_of_is_some : (o : Option Node) → is_some o ≡ false → o ≡ none
none_of_is_some none h = refl
none_of_is_some (some n) h = cc

-- The new binary is in place, or the prior one is kept.
abbrev pub NewOrKept : Option Node → Node → Disk → Type 0
NewOrKept prior new d = Holds (some new) d ⊎ Kept prior d

kept_published :
    (prior : Option Node) (new : Node) (d : Disk)
    → d.destination ≡ some new
    → d.backup ≡ prior
    → NewOrKept prior new d
kept_published none new d there h = inl (there, h)
kept_published (some p) new d there h = inr (inr (refl, h))

undone_or_new :
    (prior : Option Node) (new : Node) (d : Disk) (r : Result (Unit {0}) IoError × Disk)
    → d.destination ≡ some new
    → d.backup ≡ prior
    → UndoneOrNot d r
    → NewOrKept prior new r.1
undone_or_new prior new d r there h (returns done d' k) = inr (inl (subst (λ p. Holds p d') h k))
undone_or_new prior new d r there h (raises e d' (inl k)) = inr (subst (λ p. Kept p d') h k)
undone_or_new prior new d r there h (raises e d' (inr k)) =
    kept_published prior new d' (k.0 ∙ there) (k.1 ∙ h)

drop_update-NewOrKept :
    (prior : Option Node) (new : Node) (update : UnixProtectedBinaryUpdate) (d : Disk)
    → update.backup ≡ is_some prior
    → update.finished ≡ false
    → d.destination ≡ some new
    → d.backup ≡ prior
    → NewOrKept prior new (drop_update update d)
unfolding drop_update
drop_update-NewOrKept prior new update d e unfinished there h = simp unfinished (
    undone_or_new prior new d (rollback_inner update d) there h
      (rollback_inner-Undone update d (e ∙ ap is_some (sym h))))

drop_after-Ends :
    (prior : Option Node) (new : Node) (P : Unit {0} → Disk → Type 0)
    (update : UnixProtectedBinaryUpdate) (r : Result (Unit {0}) IoError × Disk)
    → update.backup ≡ is_some prior
    → update.finished ≡ false
    → Ends P (λ e d. Late e × (d.destination ≡ some new) × (d.backup ≡ prior)) r
    → Ends P (λ e d. Late e × NewOrKept prior new d) (drop_after update r)
unfolding drop_after
drop_after-Ends prior new P update r e unfinished (returns done d h) = returns done d h
drop_after-Ends prior new P update r e unfinished (raises failed d (late, there, h)) =
    raises failed _ (late, drop_update-NewOrKept prior new update d e unfinished there h)

drop_finished-Ends :
    (prior : Option Node) (new : Node) (update : UnixProtectedBinaryUpdate)
    (r : Result (Unit {0}) IoError × Disk)
    → update.finished ≡ true
    → Ends (λ _. Holds (some new)) (λ e d. Late e × Holds (some new) d) r
    → Ends (λ _. Holds (some new)) (λ e d. Late e × NewOrKept prior new d) (drop_after update r)
unfolding drop_after drop_update
drop_finished-Ends prior new update r finished (returns done d h) = returns done d h
drop_finished-Ends prior new update r finished (raises failed d h) =
    rw finished (raises failed d (h.0, inl h.1))

commit_backup-Ends :
    (prior : Option Node) (new : Node) (update : UnixProtectedBinaryUpdate) (d : Disk)
    → update.backup ≡ is_some prior
    → update.finished ≡ false
    → d.destination ≡ some new
    → d.backup ≡ prior
    → Ends (λ _. Holds (some new)) (λ e d. Late e × NewOrKept prior new d) (commit_backup update d)
unfolding commit_backup remove_backup sync_parent_directory
commit_backup-Ends prior new update d e unfinished there h =
    Ends-bind _
      (drop_after-Ends prior new (λ _. Holds (some new)) update _ e unfinished
        (perform-Ends removing_backup _ d (inr (inr refl), there, h) (there, refl)))
      λ _ d1 h1.
        drop_finished-Ends prior new (record update { backup = false; finished = true }) _ refl
          (perform-Ends syncing unchanged d1 (inr (inl refl), h1) h1)

-- The commit of an update, whatever calls fail: after a success the new binary is in place and there
-- is no backup. After an error the new binary is in place alone, the prior one, or its absence, is,
-- or the prior one is still the backup.
pub commit-NewOrKept :
    (new : Node) (update : UnixProtectedBinaryUpdate) (d : Disk)
    → update.backup ≡ is_some d.backup
    → update.finished ≡ false
    → d.destination ≡ some new
    → Ends (λ _. Holds (some new)) (λ e d'. Late e × NewOrKept d.backup new d') (commit update d)
unfolding commit sync_parent_directory
commit-NewOrKept new update d e unfinished there =
    Ends-bind _
      (drop_after-Ends d.backup new (λ _ d'. (d'.destination ≡ some new) × (d'.backup ≡ d.backup))
        update _ e unfinished
        (perform-Ends syncing unchanged d (inr (inl refl), there, refl) (there, refl)))
      λ _ d1 h1. elim (Bool-cases update.backup) [
        | inl saved ↦ simp saved (commit_backup-Ends d.backup new update d1 e unfinished h1.0 h1.1)
        | inr unsaved ↦
            simp unsaved (returns tt d1 (h1.0, h1.1 ∙ none_of_is_some d.backup (sym e ∙ unsaved)))
      ]
