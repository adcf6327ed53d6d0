-- ===== src/Update/Verified.antt =====
-- src/update.rs: what an update may put in place of the executable.
use wakezilla.Prelude.{
  Bool-cases, is_some, codes, ℕ, ◌≡◌, refl, ◌⊎◌, inl, inr, true, false, not, ◌&&◌, Option, none,
  some, List,
}
use wakezilla.Update.{
  GithubAsset, GithubRelease, normalize_tag, release_api_url, asset_name, binary_name_for_target,
  checksum_for_asset, hex, eq_ignore_ascii_case,
}
use wakezilla.Update.Files.{
  Trees, Search, Files, Copying, rename_staged, after_copy, stage_copy, install_binary,
}
use wakezilla.Update.Search.{Occurs, Linked}
use wakezilla.Update.Ending.{Ending}
use wakezilla.Update.Run.{World, System, checksum_list}

-- The release is no prerelease, and the version of its tag comes after this program's.
abbrev pub IsNewer : {Version : Type 0} → World Version → GithubRelease → Type 0
IsNewer {Version} world release =
    (own : Version) × (latest : Version) × (release.prerelease ≡ false)
    × (world.semver.parse world.version ≡ some own)
    × (world.semver.parse (normalize_tag release.tag_name) ≡ some latest)
    × (world.semver.is_pre latest ≡ false)
    × (world.semver.is_lt own latest ≡ true)

-- An executable that may be installed: it is a file of the unpacked archive of the asset for this
-- target, or one that a link of the name at its top leads to. The archive is one whose
-- SHA-256 sum the list of the release gives for the asset's name. Without a version that was asked for,
-- the release is newer.
pub record Verified {Version : Type 0} (world : World Version) (requested : Option (List ℕ))
    (contents : List ℕ) : Type 0 where
  pub release : GithubRelease
  pub target : List ℕ
  pub asset : GithubAsset
  pub archive : List ℕ
  pub checksums : List ℕ
  pub expected : List ℕ
  pub dir : Trees
  pub released : world.release (release_api_url requested) ≡ some release
  pub newer : (is_some requested ≡ true) ⊎ IsNewer world release
  pub targeted : world.target ≡ some target
  pub named : asset.name ≡ asset_name (normalize_tag release.tag_name) target
  pub downloaded : world.download (codes asset.browser_download_url) ≡ some archive
  pub listed : checksum_list world (normalize_tag release.tag_name) ≡ some checksums
  pub summed : checksum_for_asset checksums asset.name ≡ some expected
  pub matches : eq_ignore_ascii_case (hex (world.sha256 archive)) expected ≡ true
  pub unpacked : world.unpack archive ≡ some dir
  pub inside :
      Occurs (binary_name_for_target target) contents dir
      ⊎ Linked (binary_name_for_target target) contents dir

rename_staged-installed :
    (c : Copying) (files : Files) (contents : List ℕ)
    → ((rename_staged c files contents).0.installed ≡ files.installed)
      ⊎ ((rename_staged c files contents).0.installed ≡ some (0o755, contents))
unfolding rename_staged
rename_staged-installed c files contents = elim (Bool-cases c.rename) [
  | inl done ↦ rw done (inr refl)
  | inr failed ↦ rw failed (inl refl)
]

after_copy-installed :
    (c : Copying) (files : Files) (mode : ℕ) (contents : List ℕ) (copied : Option ℕ)
    → ((after_copy c files mode contents copied).0.installed ≡ files.installed)
      ⊎ ((after_copy c files mode contents copied).0.installed ≡ some (0o755, contents))
unfolding after_copy
after_copy-installed c files mode contents (some n) = inl refl
after_copy-installed c files mode contents none = elim (Bool-cases c.set_permissions) [
  | inl done ↦
      rw done
        (rename_staged-installed c (record files { temporary = some (0o755, contents) }) contents)
  | inr failed ↦ rw failed (inl refl)
]

-- The executable is the old one or the whole new one, whatever calls of an installation fail.
pub install_binary-installed :
    (c : Copying) (files : Files) (mode : ℕ) (contents : List ℕ)
    → ((install_binary c files mode contents).0.installed ≡ files.installed)
      ⊎ ((install_binary c files mode contents).0.installed ≡ some (0o755, contents))
unfolding install_binary stage_copy
install_binary-installed c files mode contents = elim (Bool-cases c.parent_is_dir) [
  | inr homeless ↦ simp homeless (inl refl)
  | inl there ↦ elim (Bool-cases (is_some files.temporary && not c.remove_stale)) [
    | inl stale ↦ simp (there, stale) (inl refl)
    | inr clean ↦
        simp (there, clean)
          (after_copy-installed c (record files { temporary = none }) mode contents c.copied)
  ]
]

module _ {Version : Type 0} (world : World Version) where
  -- The executable is left as it is, or it is one that `P` allows.
  abbrev Replaced : (List ℕ → Type 0) → System → System → Type 0
  Replaced P system after =
      (after.executable.installed ≡ system.executable.installed)
      ⊎ ((contents : List ℕ) × (after.executable.installed ≡ some (0o755, contents)) × P contents)
