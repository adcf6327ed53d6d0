-- ===== src/Service/Publishing.antt =====
-- src/service.rs: what the begin of an update of a protected service binary, and its commit, leave
-- behind.
use wakezilla.Prelude.{
  ℕ, ◌≡◌, refl, Bool, some, List, Option, none, is_some, codes_eq, eq_of_codes_eq, ap, inl, true,
  false, Bool-cases, Result, ok, err, ◌∙◌, ◌⊎◌, inr, sym, subst,
}
use wakezilla.Service.Disk.{
  ◌>>◌, Disk, IoError, Io, ensure, perform, unchanged, File, file, Node, directory, special,
  staging, copying, verification_failed, allocating_backup, moving_prior, tick,
  sync_parent_directory, publishing, syncing, not_rolled_back, removing_backup,
}
use wakezilla.Service.Binary.{
  sync_and_hash, protect_stage, protected_file, read_file, inspect_entries, stage_from, move_from,
  UnixProtectedBinaryUpdate, rollback, back_in_place, persist, unsynced, roll_back_unsynced,
  sync_or_rollback, move_prior, restore_if,
}
use wakezilla.Service.Rules.{Ends, Ends-bind, perform-Ends, ensure-Ends, returns, raises}
use wakezilla.Service.Rollback.{Holds, BackedUp, Kept, Undone, restore_if-Undone, rollback-restores}

-- The entries are as they were in `d`.
abbrev pub Same : Disk → Disk → Type 0
Same d d' =
    (d'.source ≡ d.source)
    × (d'.reread ≡ d.reread)
    × (d'.destination ≡ d.destination)
    × (d'.backup ≡ d.backup)

-- An action that changes no entry.
abbrev pub Keeps : Io (Unit {0}) → Type 0
Keeps m = (d0 d : Disk) → Same d0 d → Ends (λ _. Same d0) (λ _. Same d0) (m d)

perform-Keeps : (e : IoError) → Keeps (perform e unchanged)
perform-Keeps e d0 d h = perform-Ends e unchanged d h h

ensure-Keeps : (test : Bool) (e : IoError) → Keeps (ensure test e)
ensure-Keeps test e d0 d h = ensure-Ends test e d h (λ _. h)

then-Keeps : {m n : Io (Unit {0})} → Keeps m → Keeps n → Keeps (m >> n)
then-Keeps p q d0 d h = Ends-bind _ (p d0 d h) (λ _ d'. q d0 d')

ruleset keeping = (perform-Keeps, ensure-Keeps, then-Keeps)

pub inspect_entries-Keeps :
    (owner_uid owner_gid : ℕ) (source parent destination : Option Node)
    → Keeps (inspect_entries owner_uid owner_gid source parent destination)
unfolding inspect_entries
inspect_entries-Keeps owner_uid owner_gid source parent destination = search keeping depth 30

sync_and_hash-Keeps : Keeps sync_and_hash
unfolding sync_and_hash
sync_and_hash-Keeps = search keeping

protect_stage-Keeps : Keeps protect_stage
unfolding protect_stage
protect_stage-Keeps = search keeping

-- The staged file holds the contents of the source, which were hashed.
abbrev pub Staged :
    (List ℕ → List ℕ) → (owner_uid owner_gid : ℕ) → Option Node → List ℕ → File → Type 0
Staged sha256 owner_uid owner_gid source reread staged =
    (f : File) × (source ≡ some (file f))
    × (sha256 reread ≡ sha256 f.contents)
    × (staged ≡ protected_file owner_uid owner_gid f.contents)

read_file-Ends :
    (e : IoError) (source : Option Node) (d0 d : Disk)
    → Same d0 d
    → Ends
        (λ contents d'.
          Same d0 d' × ((f : File) × (source ≡ some (file f)) × (contents ≡ f.contents)))
        (λ _. Same d0)
        (read_file e source d)
unfolding read_file
read_file-Ends e none d0 d h = raises e d h
read_file-Ends e (some (file f)) d0 d h =
    Ends-bind _ (perform-Keeps e d0 d h) (λ _ d' k. returns f.contents d' (k, (f, refl, refl)))
read_file-Ends e (some (directory m)) d0 d h = raises e d h
read_file-Ends e (some special) d0 d h = raises e d h

pub stage_from-Ends :
    (sha256 : List ℕ → List ℕ) (owner_uid owner_gid : ℕ) (source : Option Node) (reread : List ℕ)
    (d0 d : Disk)
    → Same d0 d
    → Ends
        (λ staged d'. Same d0 d' × Staged sha256 owner_uid owner_gid source reread staged)
        (λ _. Same d0)
        (stage_from sha256 owner_uid owner_gid source reread d)
unfolding stage_from
stage_from-Ends sha256 owner_uid owner_gid source reread d0 d h =
    Ends-bind _ (perform-Keeps staging d0 d h) λ _ d1 h1.
      Ends-bind _ (read_file-Ends copying source d0 d1 h1) λ contents d2 h2.
        Ends-bind _ (sync_and_hash-Keeps d0 d2 h2.0) λ _ d3 h3.
          Ends-bind _
            (ensure-Ends {P = λ _ d'. Same d0 d' × (sha256 reread ≡ sha256 contents)}
              (codes_eq (sha256 reread) (sha256 contents)) verification_failed d3 h3
              (λ e. (h3, eq_of_codes_eq _ _ e)))
            λ _ d4 h4. Ends-bind _ (protect_stage-Keeps d0 d4 h4.0) λ _ d5 h5. returns _ d5 (
              h5,
              (h2.1.0, h2.1.1, rw (← h2.1.2) h4.1, ap (protected_file owner_uid owner_gid) h2.1.2),
            )

-- The prior binary is the backup, or it is absent.
abbrev pub Moved : Option Node → Bool → Disk → Type 0
Moved prior backup d = (d.destination ≡ none) × (d.backup ≡ prior) × (backup ≡ is_some prior)

move_from-Ends :
    (prior : Option Node) (d : Disk)
    → Holds prior d
    → Ends (Moved prior) (λ _. Holds prior) (move_from prior d)
unfolding move_from
move_from-Ends none d h = returns false d (h.0, h.1, refl)
move_from-Ends (some p) d h =
    Ends-bind _ (perform-Ends {P = λ _. Holds (some p)} allocating_backup unchanged d h h)
      λ _ d1 h1.
        Ends-bind _
          (perform-Ends {P = λ _. Moved (some p) true} moving_prior _ d1 h1 (refl, refl, refl))
          λ _ d2 h2. returns true d2 h2

pub Undone-Kept :
    {prior : Option Node} {r : Result (Unit {0}) IoError × Disk} → Undone prior r → Kept prior r.1
Undone-Kept (returns done d h) = inl h
Undone-Kept (raises e d h) = h

-- The new binary is in place and the prior one is its backup.
abbrev pub Published : Option Node → File → Disk → Type 0
Published prior staged d = (d.destination ≡ some (file staged)) × (d.backup ≡ prior)

pub persist-Ends :
    (prior : Option Node) (backup : Bool) (staged : File) (d : Disk)
    → Moved prior backup d
    → Ends
        (λ _. Published prior staged)
        (λ e d'. Moved prior backup d' × (e ≡ publishing))
        (persist staged d)
unfolding persist
persist-Ends prior backup staged d h =
    simp (h.0) (perform-Ends publishing _ d (h, refl) (refl, h.1))

-- The errors of the last steps of an update.
abbrev pub Late : IoError → Type 0
Late e = (e ≡ publishing) ⊎ (e ≡ syncing) ⊎ (e ≡ removing_backup)

-- The prior binary, or its absence, is in place, or an error of the last steps leaves it as the backup.
abbrev pub KeptIfLate : Option Node → IoError → Disk → Type 0
KeptIfLate prior e d = Holds prior d ⊎ (Late e × BackedUp prior d)

pub kept_if_late :
    (prior : Option Node) (e : IoError) (d : Disk) → Late e → Kept prior d → KeptIfLate prior e d
kept_if_late prior e d late (inl h) = inl h
kept_if_late prior e d late (inr b) = inr (late, b)

pub back_in_place-Ends :
    (prior : Option Node) (backup : Bool) (staged : File) (r : Result (Unit {0}) IoError × Disk)
    → Ends (λ _. Published prior staged) (λ e d'. Moved prior backup d' × (e ≡ publishing)) r
    → Ends (λ _. Published prior staged) (KeptIfLate prior) (back_in_place backup r)
unfolding back_in_place
back_in_place-Ends prior backup staged r (returns done d h) = returns done d h
back_in_place-Ends prior backup staged r (raises e d (h, late)) = raises e _ (
    kept_if_late prior e (restore_if backup d).1 (inl late)
      (Undone-Kept (restore_if-Undone backup prior d h.2 h.0 h.1)))

-- The prior binary is kept, unless the error says that it may be lost.
abbrev pub KeptUnlessTold : Option Node → IoError → Disk → Type 0
KeptUnlessTold prior e d = KeptIfLate prior e d ⊎ (e ≡ not_rolled_back)

unsynced-Ends :
    (prior : Option Node) (P : UnixProtectedBinaryUpdate → Disk → Type 0) (e : IoError)
    (r : Result (Unit {0}) IoError × Disk)
    → (r.0 ≡ ok tt → Holds prior r.1)
    → Ends P (KeptUnlessTold prior) (unsynced e r)
unfolding unsynced
unsynced-Ends prior P e (ok done, d) h = raises e d (inl (inl (h refl)))
unsynced-Ends prior P e (err e', d) h = raises not_rolled_back d (inr refl)

pub sync_or_rollback-Ends :
    (prior : Option Node) (staged : File) (update : UnixProtectedBinaryUpdate) (d : Disk)
    → Published prior staged d
    → update.backup ≡ is_some prior
    → Ends
        (λ u d'. Published prior staged d' × (u ≡ update))
        (KeptUnlessTold prior)
        (sync_or_rollback update d)
unfolding sync_or_rollback sync_parent_directory perform roll_back_unsynced
sync_or_rollback-Ends prior staged update d h e = elim (Bool-cases (d.fails d.calls)) [
  | inl failed ↦
      let undo = rollback-restores update (tick d) (simp (e, h.1)) in
      rw failed (
        unsynced-Ends prior _ syncing (rollback update (tick d))
          (λ good. ((undo good).0 ∙ h.1, (undo good).1)))
  | inr done ↦ rw done (returns update (tick d) (h, refl))
]

pub move_prior-Ends :
    (prior : Option Node) (d : Disk)
    → Holds prior d
    → Ends (Moved prior) (λ _. Holds prior) (move_prior d)
unfolding move_prior
move_prior-Ends prior d h =
    subst (λ p. Ends (Moved prior) (λ _. Holds prior) (move_from p d)) (sym h.0)
      (move_from-Ends prior d h)
