-- ===== src/Config/Secret.antt =====
-- src/config.rs: the contents of a secret file are never written to a file that others may read.
use wakezilla.Prelude.{
  Bool-cases, Option-cases, set, take, Result, ok, err, ℕ, ◌≡◌, refl, inl, inr, List, [], ◌⊎◌, Bool,
  true, false,
}
use wakezilla.Config.{
  Entry, Writing, WriteError, open_secret, write_opened, after_open, write_secret_file, absent,
  regular, symlink, no_directory, not_opened, not_protected, not_written, not_synced,
}

-- The outcomes of a write: all of it, in a file of mode 0600; nothing touched; or an empty file, or the
-- first bytes in a file of mode 0600.
pub data Private (old : Entry) (contents : List ℕ)
    : Entry × Result (Unit {0}) WriteError → Type 0 where
  written : Private old contents (regular 0o600 contents, ok tt)
  untouched : (e : WriteError) → Private old contents (old, err e)
  truncated : (mode : ℕ) (e : WriteError) → Private old contents (regular mode [], err e)
  partial : (n : ℕ) (e : WriteError) → Private old contents (regular 0o600 (take n contents), err e)
  unsynced : (e : WriteError) → Private old contents (regular 0o600 contents, err e)

write_opened-Private :
    (w : Writing) (old : Entry) (mode : ℕ) (contents : List ℕ)
    → Private old contents (write_opened w (regular mode []) contents)
unfolding write_opened
write_opened-Private w old mode contents = elim (Bool-cases w.set_permissions) [
  | inl set ↦ elim (Option-cases w.write_all) [
    | inl full ↦ elim (Bool-cases w.sync_all) [
      | inl synced ↦ simp (set, full, synced) written
      | inr failed ↦ simp (set, full, failed) (unsynced not_synced)
    ]
    | inr (n, cut) ↦ simp (set, cut) (partial n not_written)
  ]
  | inr refused ↦ simp refused (truncated mode not_protected)
]

after_open-Private :
    (w : Writing) (old : Entry) (contents : List ℕ)
    → Private old contents (after_open w old contents (open_secret w old))
unfolding after_open open_secret
after_open-Private w absent contents = elim (Bool-cases w.opens) [
  | inl opened ↦ simp opened (write_opened-Private w absent w.created_mode contents)
  | inr refused ↦ simp refused (untouched not_opened)
]
after_open-Private w (regular mode old) contents = elim (Bool-cases w.opens) [
  | inl opened ↦ simp opened (write_opened-Private w (regular mode old) mode contents)
  | inr refused ↦ simp refused (untouched not_opened)
]
after_open-Private w (symlink target) contents = untouched not_opened

unfoldable pub is_symlink : Entry → Bool
is_symlink absent = false
is_symlink (regular mode contents) = false
is_symlink (symlink target) = true

after_open-symlink :
    (w : Writing) (old : Entry) (contents : List ℕ)
    → (is_symlink old ≡ false) ⊎ ((after_open w old contents (open_secret w old)).0 ≡ old)
unfolding after_open open_secret is_symlink
after_open-symlink w absent contents = inl refl
after_open-symlink w (regular mode old) contents = inl refl
after_open-symlink w (symlink target) contents = inr refl

-- A secret is written whole to a file of mode 0600, or an error leaves the file as it was, an empty
-- file, or the secret or its first bytes in a file of mode 0600. A symbolic link is left as it is.
pub write_secret_file-Private :
    (w : Writing) (old : Entry) (contents : List ℕ)
    → Private old contents (write_secret_file w old contents)
      × ((is_symlink old ≡ false) ⊎ ((write_secret_file w old contents).0 ≡ old))
unfolding write_secret_file
write_secret_file-Private w old contents = elim (Bool-cases w.create_dir_all) [
  | inl made ↦ simp made (after_open-Private w old contents, after_open-symlink w old contents)
  | inr refused ↦ simp refused (untouched no_directory, inr refl)
]
