-- ===== src/Service/Directory.antt =====
-- src/service.rs: the directory of a protected binary does not touch the binary.
use wakezilla.Prelude.{
  is_some, length, Result, ℕ, zero, suc, ◌+◌, ◌≡◌, refl, sym, ap, ◌∙◌, subst, inl, inr, Bool, true,
  false, Option, none, some, List, arith,
}
use wakezilla.Service.Disk.{
  Metadata, Node, Disk, IoError, perform, unchanged, setting_mode, setting_owner, syncing,
  unsafe_directory, inspecting_directory, creating_directory, opening_directory, not_absolute,
}
use wakezilla.Service.Binary.{UnixProtectedBinaryUpdate, without_empty_parent, remove_parent}
use wakezilla.Service.Rules.{
  Ends, Ends-bind, Ends-weaken, perform-Ends, ensure-Ends, returns, raises,
}
use wakezilla.Service.Publishing.{Same, KeptUnlessTold}
use wakezilla.Service.Atomic.{
  Begun, Staged-Same, Same-Holds, begin_unix_protected_binary_update_at-Begun,
}
use wakezilla.Service.Install.{
  Place, entry_at, put, create_directory, open_directory, ensure_unix_service_directory_at,
  remove_parent_when, ensure_again, prepare_found, prepare_at, prepare_above,
  prepare_unix_service_directory, undo_directory, begin_protected_binary_update, last, above,
}

put-Same : (place : Place) (m : Metadata) (d0 d : Disk) → Same d0 d → Same d0 (put place m d)
unfolding put
put-Same last m d0 d h = h
put-Same (above i) m d0 d h = h

create_directory-Same :
    (owner_uid owner_gid : ℕ) (place : Place) (d0 d : Disk)
    → Same d0 d
    → Ends (λ _. Same d0) (λ _. Same d0) (create_directory owner_uid owner_gid place d)
unfolding create_directory
create_directory-Same owner_uid owner_gid place d0 d h =
    Ends-bind _
      (perform-Ends {P = λ _. Same d0} creating_directory _ d h
        (put-Same place d.made_directory d0 d h))
      λ _ d1 h1.
        Ends-bind _ (perform-Ends {P = λ _. Same d0} opening_directory unchanged d1 h1 h1)
          λ _ d2 h2.
            Ends-bind _ (perform-Ends {P = λ _. Same d0} setting_owner unchanged d2 h2 h2)
              λ _ d3 h3.
                Ends-bind _
                  (perform-Ends {P = λ _. Same d0} setting_mode _ d3 h3 (put-Same place _ d0 d3 h3))
                  λ _ d4 h4. returns true d4 h4

open_directory-Same :
    (owner_uid owner_gid : ℕ) (place : Place) (found : Option Node) (d0 d : Disk)
    → Same d0 d
    → Ends (λ _. Same d0) (λ _. Same d0) (open_directory owner_uid owner_gid place found d)
unfolding open_directory
open_directory-Same owner_uid owner_gid place none d0 d h =
    create_directory-Same owner_uid owner_gid place d0 d h
open_directory-Same owner_uid owner_gid place (some found) d0 d h =
    Ends-bind _ (ensure-Ends {P = λ _. Same d0} _ unsafe_directory d h (λ _. h)) λ _ d1 h1.
      Ends-bind _ (perform-Ends {P = λ _. Same d0} opening_directory unchanged d1 h1 h1)
        λ _ d2 h2. returns false d2 h2

ensure_unix_service_directory_at-Same :
    (owner_uid owner_gid : ℕ) (place : Place) (d0 d : Disk)
    → Same d0 d
    → Ends
        (λ _. Same d0)
        (λ _. Same d0)
        (ensure_unix_service_directory_at owner_uid owner_gid place d)
unfolding ensure_unix_service_directory_at
ensure_unix_service_directory_at-Same owner_uid owner_gid place d0 d h =
    Ends-bind _ (perform-Ends {P = λ _. Same d0} inspecting_directory unchanged d h h) λ _ d1 h1.
      Ends-bind _ (open_directory-Same owner_uid owner_gid place (entry_at place d1) d0 d1 h1)
        λ created d2 h2.
          Ends-bind _ (perform-Ends {P = λ _. Same d0} syncing unchanged d2 h2 h2) λ _ d3 h3.
            Ends-bind _ (ensure-Ends {P = λ _. Same d0} _ unsafe_directory d3 h3 (λ _. h3))
              λ _ d4 h4. returns created d4 h4

ensure_again-Same :
    (created : Bool) (d0 d : Disk)
    → Same d0 d
    → Ends (λ _. Same d0) (λ _. Same d0) (ensure_again created d)
unfolding ensure_again
ensure_again-Same true d0 d h = returns true d h
ensure_again-Same false d0 d h =
    Ends-bind _ (ensure_unix_service_directory_at-Same 0 0 last d0 d h)
      λ _ d1 h1. returns false d1 h1

prepare_at-Same :
    (place : Place) (d0 d : Disk)
    → Same d0 d
    → Ends (λ _. Same d0) (λ _. Same d0) (prepare_at place d)
unfolding prepare_at prepare_found
prepare_at-Same place d0 d h =
    Ends-bind _ (perform-Ends {P = λ _. Same d0} inspecting_directory unchanged d h h) λ _ d1 h1.
      Ends-bind _ (ensure_unix_service_directory_at-Same 0 0 place d0 d1 h1)
        λ _ d2 h2. returns _ d2 h2

prepare_above-Same :
    (left i : ℕ) (d0 d : Disk)
    → Same d0 d
    → Ends (λ _. Same d0) (λ _. Same d0) (prepare_above left i d)
unfolding prepare_above
prepare_above-Same zero i d0 d h = returns tt d h
prepare_above-Same (suc left) i d0 d h =
    Ends-bind _ (prepare_at-Same (above i) d0 d h)
      λ _ d1 h1. prepare_above-Same left (i + 1) d0 d1 h1

prepare_unix_service_directory-Same :
    (d : Disk) → Ends (λ _. Same d) (λ _. Same d) (prepare_unix_service_directory d)
unfolding prepare_unix_service_directory
prepare_unix_service_directory-Same d =
    Ends-bind _ (prepare_above-Same (length d.ancestors) 0 d d (refl, refl, refl, refl)) λ _ d1 h1.
      Ends-bind _ (prepare_at-Same last d d1 h1) λ created d2 h2. ensure_again-Same created d d2 h2

remove_parent_when-entries :
    (made : Bool) (d : Disk)
    → ((remove_parent_when made d).1.destination ≡ d.destination)
      × ((remove_parent_when made d).1.backup ≡ d.backup)
unfolding remove_parent_when remove_parent perform without_empty_parent
remove_parent_when-entries true d = ground arith
remove_parent_when-entries false d = (refl, refl)

undo_directory-Begun :
    (sha256 : List ℕ → List ℕ) (d0 : Disk) (made : Bool)
    (r : Result UnixProtectedBinaryUpdate IoError × Disk)
    → Ends (Begun sha256 0 0 d0) (KeptUnlessTold d0.destination) r
    → Ends (Begun sha256 0 0 d0) (KeptUnlessTold d0.destination) (undo_directory made r)
unfolding undo_directory
undo_directory-Begun sha256 d0 made r (returns update d h) = returns _ d h
undo_directory-Begun sha256 d0 made r (raises e d h) =
    let same = remove_parent_when-entries made d in
    raises e _ (elim h [
      | inl (inl k) ↦ inl (inl (same.0 ∙ k.0, same.1 ∙ k.1))
      | inl (inr k) ↦ inl (inr (k.0, (k.1.0, same.1 ∙ k.1.1)))
      | inr told ↦ inr told
    ])

Begun-Same :
    (sha256 : List ℕ → List ℕ) (d d1 : Disk)
    → Same d d1
    → (update : UnixProtectedBinaryUpdate) (d2 : Disk) → Begun sha256 0 0 d1 update d2
    → Begun sha256 0 0 d update d2
Begun-Same sha256 d d1 h update d2 (staged, made, placed, saved, unfinished) = (
  staged,
  Staged-Same sha256 0 0 d d1 staged h made,
  (placed.0, placed.1 ∙ h.2),
  saved ∙ ap is_some h.2,
  unfinished,
)

pub begin_protected_binary_update-Begun :
    (sha256 : List ℕ → List ℕ) (is_absolute : Bool) (d : Disk)
    → d.backup ≡ none
    → Ends
        (Begun sha256 0 0 d)
        (KeptUnlessTold d.destination)
        (begin_protected_binary_update sha256 is_absolute d)
unfolding begin_protected_binary_update
begin_protected_binary_update-Begun sha256 is_absolute d empty =
    Ends-bind _
      (ensure-Ends {P = λ _ d'. d' ≡ d} is_absolute not_absolute d (inl (inl (refl, empty)))
        (λ _. refl))
      λ _ d0 h0.
        Ends-bind _
          (subst
            (λ x.
              Ends (λ _. Same d) (KeptUnlessTold d.destination) (prepare_unix_service_directory x))
            (sym h0)
            (Ends-weaken (prepare_unix_service_directory-Same d) (λ _ _ h. h)
              (λ e d' h. inl (inl (Same-Holds d d' empty h)))))
          λ made d1 h1.
            Ends-weaken
              (undo_directory-Begun sha256 d1 made _
                (begin_unix_protected_binary_update_at-Begun sha256 0 0 d1 (h1.3 ∙ empty)))
              (Begun-Same sha256 d d1 h1) (λ e d2 h. subst (λ p. KeptUnlessTold p e d2) h1.2 h)
