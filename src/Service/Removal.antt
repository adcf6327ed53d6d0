-- ===== src/Service/Removal.antt =====
-- src/service.rs: which binary the removal of a service takes away.
use wakezilla.Prelude.{
  is_some, ◌≡◌, refl, sym, ap, ◌∙◌, subst, ◌⊎◌, inl, inr, Bool, true, false, Option, none, some,
  arith, ◌%◌,
}
use wakezilla.Service.Disk.{
  Node, Disk, unchanged, is_protected_file, file, directory, special, inspecting_destination,
  parent_not_directory, removing, removing_directory, inspecting_directory, no_descriptor,
  foreign_binary, configuring, File, is_protected,
}
use wakezilla.Service.Binary.{without_empty_parent, remove_parent}
use wakezilla.Service.Rules.{Ends, Ends-bind, perform-Ends, ensure-Ends, returns, raises}
use wakezilla.Service.Install.{remove_found, remove_parent_when, remove_unix_protected_binary_at}
use wakezilla.Service.Uninstall.{remove_below, remove_protected_service_binary, uninstall}

-- A regular file of root's with mode 0755, but for the bits above the permissions.
abbrev pub IsRoots : Option Node → Type 0
IsRoots found =
    (f : File) × (found ≡ some (file f))
    × (f.metadata.uid ≡ 0)
    × (f.metadata.gid ≡ 0)
    × (f.metadata.mode % 0o1000 ≡ 0o755)

is_protected_file-IsRoots :
    (found : Option Node) → is_protected_file 0 0 found ≡ true → IsRoots found
unfolding is_protected_file is_protected
is_protected_file-IsRoots none h = cc
is_protected_file-IsRoots (some (directory m)) h = cc
is_protected_file-IsRoots (some special) h = cc
is_protected_file-IsRoots (some (file f)) h = (f, refl, ground arith, ground arith, ground arith)

abbrev pub Removable : Option Node → Type 0
Removable found = (found ≡ none) ⊎ IsRoots found

-- The entry is gone, and it was removable.
abbrev pub Gone : Option Node → Disk → Type 0
Gone found d = (d.destination ≡ none) × Removable found

abbrev pub KeptOrGone : Option Node → Disk → Type 0
KeptOrGone found d = (d.destination ≡ found) ⊎ Gone found d

remove_found-Gone :
    (found : Option Node) (d : Disk)
    → d.destination ≡ found
    → Ends (λ _. Gone found) (λ _. KeptOrGone found) (remove_found 0 0 found d)
unfolding remove_found
remove_found-Gone none d h = returns tt d (h, inl refl)
remove_found-Gone (some node) d h =
    Ends-bind _
      (ensure-Ends
        {P = λ _ d'. (d'.destination ≡ some node) × (is_protected_file 0 0 (some node) ≡ true)} _
        foreign_binary d (inl h) (λ e. (h, e)))
      λ _ d1 h1.
        perform-Ends removing _ d1 (inl h1.0)
          (refl, inr (is_protected_file-IsRoots (some node) h1.1))

without_empty_parent-destination : (d : Disk) → (without_empty_parent d).destination ≡ d.destination
unfolding without_empty_parent
without_empty_parent-destination d = ground arith

remove_parent_when-Gone :
    (found : Option Node) (made : Bool) (d : Disk)
    → Gone found d
    → Ends (λ _. Gone found) (λ _. KeptOrGone found) (remove_parent_when made d)
unfolding remove_parent_when remove_parent
remove_parent_when-Gone found true d h =
    perform-Ends removing_directory without_empty_parent d (inr h)
      (without_empty_parent-destination d ∙ h.0, h.1)
remove_parent_when-Gone found false d h = returns tt d h

remove_unix_protected_binary_at-Gone :
    (found : Option Node) (d : Disk)
    → d.destination ≡ found
    → Ends (λ _. Gone found) (λ _. KeptOrGone found) (remove_unix_protected_binary_at true 0 0 d)
unfolding remove_unix_protected_binary_at
remove_unix_protected_binary_at-Gone found d h =
    Ends-bind _
      (perform-Ends {P = λ _ d'. d'.destination ≡ found} inspecting_destination unchanged d (inl h)
        h)
      λ _ d1 h1.
        Ends-bind _
          (subst (λ x. Ends (λ _. Gone found) (λ _. KeptOrGone found) (remove_found 0 0 x d1))
            (sym h1) (remove_found-Gone found d1 h1))
          λ _ d2 h2. remove_parent_when-Gone found true d2 h2

-- A directory that is not there holds no binary.
abbrev pub IsRooted : Disk → Type 0
IsRooted d = (is_some d.parent ≡ true) ⊎ (d.destination ≡ none)

remove_below-Gone :
    (found parent : Option Node) (d : Disk)
    → d.destination ≡ found
    → (is_some parent ≡ true) ⊎ (found ≡ none)
    → Ends (λ _. Gone found) (λ _. KeptOrGone found) (remove_below parent d)
unfolding remove_below
remove_below-Gone found none d h (inl there) = cc
remove_below-Gone found none d h (inr nothing) = returns tt d (h ∙ nothing, inl nothing)
remove_below-Gone found (some (directory m)) d h there =
    remove_unix_protected_binary_at-Gone found d h
remove_below-Gone found (some (file f)) d h there = raises parent_not_directory d (inl h)
remove_below-Gone found (some special) d h there = raises parent_not_directory d (inl h)

-- The removal of a service, whatever calls fail, where a directory that is not there holds no binary:
-- after a success there is no binary in its place, and
-- there was none before or one of root's with mode 0755. After an error the binary is as it was, or it
-- was such a one and is gone. Any other file is never removed.
pub uninstall-Gone :
    (descriptor_removed daemon_reload : Bool) (d : Disk)
    → IsRooted d
    → Ends
        (λ _. Gone d.destination)
        (λ _. KeptOrGone d.destination)
        (uninstall descriptor_removed daemon_reload d)
unfolding uninstall remove_protected_service_binary
uninstall-Gone descriptor_removed daemon_reload d rooted =
    Ends-bind _
      (ensure-Ends {P = λ _ d'. d' ≡ d} descriptor_removed no_descriptor d (inl refl) (λ _. refl))
      λ _ d1 h1.
        Ends-bind _
          (ensure-Ends {P = λ _ d'. d' ≡ d} daemon_reload configuring d1
            (inl (ap (λ (x : Disk). x.destination) h1)) (λ _. h1))
          λ _ d2 h2.
            Ends-bind _
              (perform-Ends {P = λ _ d'. (d'.destination ≡ d.destination) × (d'.parent ≡ d.parent)}
                inspecting_directory unchanged d2 (inl (ap (λ (x : Disk). x.destination) h2))
                (ap (λ (x : Disk). x.destination) h2, ap (λ (x : Disk). x.parent) h2))
              λ _ d3 h3. remove_below-Gone d.destination d3.parent d3 h3.0 (elim rooted [
                | inl there ↦ inl (ap is_some h3.1 ∙ there)
                | inr nothing ↦ inr nothing
              ])
