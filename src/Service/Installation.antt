-- ===== src/Service/Installation.antt =====
-- src/service.rs: what install leaves behind.
use wakezilla.Prelude.{
  is_some, Result, ok, err, ℕ, ◌≡◌, refl, sym, ap, ◌∙◌, subst, ◌⊎◌, inl, inr, Bool, false, Option,
  none, some, List,
}
use wakezilla.Service.{ValidateError, validate}
use wakezilla.Service.Disk.{
  File, Node, Disk, IoError, file, configuring, unreachable_service, not_rolled_back,
}
use wakezilla.Service.Binary.{UnixProtectedBinaryUpdate, rollback, commit, protected_file}
use wakezilla.Service.Rules.{Ends, Ends-bind, Ends-weaken, ensure-Ends, returns, raises}
use wakezilla.Service.Rollback.{Holds, Kept, rollback-restores}
use wakezilla.Service.Publishing.{Late, kept_if_late, KeptUnlessTold}
use wakezilla.Service.Atomic.{commit-NewOrKept}
use wakezilla.Service.Install.{
  Manager, command, reachable, configure, restored_or_told, commit_or_rollback, install,
}
use wakezilla.Service.Reachable.{Reached, validate_iff}
use wakezilla.Service.Directory.{begin_protected_binary_update-Begun}

-- What a finished installation gives: the destination is the source's file, owned by root, and the
-- service that runs it has accepted a connection.
abbrev pub Installed : Manager → Disk → Disk → Type 0
Installed manager d d' =
    (f : File) × (d.source ≡ some (file f))
    × Holds (some (file (protected_file 0 0 f.contents))) d'
    × Reached (manager.connect (some (file (protected_file 0 0 f.contents)))) 1 10

-- The prior binary, or its absence, is in place, or the error tells of a failed rollback, or it is one
-- of the last steps and leaves the prior binary as the backup or the source's file in place alone.
abbrev pub NotInstalled : Disk → IoError → Disk → Type 0
NotInstalled d e d' =
    KeptUnlessTold d.destination e d'
    ⊎ ((f : File) × Late e
        × (d.source ≡ some (file f))
        × Holds (some (file (protected_file 0 0 f.contents))) d')

reachable-Ends :
    (P : Type 0) (r : Result (Unit {0}) ValidateError × ℕ) (d : Disk)
    → (r.0 ≡ ok tt → P)
    → Ends (λ _ d'. (d' ≡ d) × P) (λ _ d'. d' ≡ d) (reachable r d)
unfolding reachable
reachable-Ends P (ok done, paused) d h = returns tt d (refl, h refl)
reachable-Ends P (err e, paused) d h = raises unreachable_service d refl

command-Ends :
    (done : Bool) (d0 d : Disk) → d ≡ d0 → Ends (λ _ d'. d' ≡ d0) (λ _ d'. d' ≡ d0) (command done d)
unfolding command
command-Ends done d0 d h = ensure-Ends done configuring d h (λ _. h)

configure-Ends :
    (manager : Manager) (d : Disk)
    → Ends
        (λ _ d'. (d' ≡ d) × Reached (manager.connect d.destination) 1 10)
        (λ _ d'. d' ≡ d)
        (configure manager d)
unfolding configure
configure-Ends manager d =
    Ends-bind _ (command-Ends (manager.write_unix_service_descriptor d.destination) d d refl)
      λ _ d1 h1. Ends-bind _ (command-Ends (manager.daemon_reload d.destination) d d1 h1) λ _ d2 h2.
        Ends-bind _ (command-Ends (manager.enable d.destination) d d2 h2) λ _ d3 h3.
          Ends-bind _ (command-Ends (manager.restart d.destination) d d3 h3) λ _ d4 h4.
            subst
              (λ x.
                Ends (λ _ d'. (d' ≡ d) × Reached (manager.connect d.destination) 1 10)
                  (λ _ d'. d' ≡ d) (reachable (validate (manager.connect d.destination) 10) x))
              (sym h4)
              (reachable-Ends _ (validate (manager.connect d.destination) 10) d
                (validate_iff (manager.connect d.destination) 10).0.0)

restored_or_told-Ends :
    (P : Unit {0} → Disk → Type 0) (prior : Option Node) (e : IoError)
    (r : Result (Unit {0}) IoError × Disk)
    → (r.0 ≡ ok tt → Holds prior r.1)
    → Ends P (KeptUnlessTold prior) (restored_or_told e r)
unfolding restored_or_told
restored_or_told-Ends P prior e (ok done, d) h = raises e d (inl (inl (h refl)))
restored_or_told-Ends P prior e (err e', d) h = raises not_rolled_back d (inr refl)

commit_or_rollback-Ends :
    (C : Type 0) (new : Node) (prior : Option Node) (update : UnixProtectedBinaryUpdate) (d : Disk)
    (r : Result (Unit {0}) IoError × Disk)
    → d.destination ≡ some new
    → d.backup ≡ prior
    → update.backup ≡ is_some prior
    → update.finished ≡ false
    → Ends (λ _ d'. (d' ≡ d) × C) (λ _ d'. d' ≡ d) r
    → Ends
        (λ _ d'. Holds (some new) d' × C)
        (λ e d'. KeptUnlessTold prior e d' ⊎ (Late e × Holds (some new) d'))
        (commit_or_rollback update r)
unfolding commit_or_rollback
commit_or_rollback-Ends C new prior update d r there h e unfinished (returns done d' (same, c)) =
    subst
      (λ x.
        Ends (λ _ d'. Holds (some new) d' × C)
          (λ e d'. KeptUnlessTold prior e d' ⊎ (Late e × Holds (some new) d')) (commit update x))
      (sym same)
      (Ends-weaken (commit-NewOrKept new update d (e ∙ ap is_some (sym h)) unfinished there)
        (λ _ _ k. (k, c))
        (λ e' d'' k. elim k.1 [
          | inl placed ↦ inr (k.0, placed)
          | inr kept ↦ inl (inl (kept_if_late prior e' d'' k.0 (subst (λ p. Kept p d'') h kept)))
        ]))
commit_or_rollback-Ends C new prior update d r there h e unfinished (raises failed d' same) =
    subst
      (λ x.
        Ends (λ _ d'. Holds (some new) d' × C)
          (λ e d'. KeptUnlessTold prior e d' ⊎ (Late e × Holds (some new) d'))
          (restored_or_told failed (rollback update x)))
      (sym same)
      (Ends-weaken
        (restored_or_told-Ends (λ _ d'. Holds (some new) d' × C) prior failed (rollback update d)
          (λ good.
            let undo = rollback-restores update d (e ∙ ap is_some (sym h)) good in
            (undo.0 ∙ h, undo.1)))
        (λ _ _ k. k) (λ _ _ k. inl k))

-- The installation of a service that finds no backup, whatever calls fail: after a success the destination alone is the
-- source's file, owned by root with mode 0755, and the service that runs it accepted a connection in
-- one of ten attempts. After an error the prior binary, or its absence, is in place without a backup,
-- unless the error says that the rollback failed too, or it is of the publication, of a sync or of the
-- removal of the backup. Then the prior binary may still be the backup, or the source's file may be in
-- place alone.
pub install-Installed :
    (sha256 : List ℕ → List ℕ) (is_absolute : Bool) (manager : Manager) (d : Disk)
    → d.backup ≡ none
    → Ends (λ _. Installed manager d) (NotInstalled d) (install sha256 is_absolute manager d)
unfolding install
install-Installed sha256 is_absolute manager d empty =
    Ends-bind _
      (Ends-weaken (begin_protected_binary_update-Begun sha256 is_absolute d empty) (λ _ _ h. h)
        (λ _ _ h. inl h))
      λ update d1 h1.
        let (staged, (f, source, hashed, made), (there, kept), saved, unfinished) = h1 in
        let new : Node = file (protected_file 0 0 f.contents) in
        let placed : d1.destination ≡ some new = there ∙ ap (λ s. some (file s)) made in
        Ends-weaken
          (commit_or_rollback-Ends (Reached (manager.connect d1.destination) 1 10) new d.destination
            update d1 _ placed kept saved unfinished (configure-Ends manager d1))
          (λ _ d2 h2. (f, source, h2.0, subst (λ x. Reached (manager.connect x) 1 10) placed h2.1))
          (λ e d2 h2. elim h2 [ inl k ↦ inl k | inr k ↦ inr (f, k.0, source, k.1) ])
