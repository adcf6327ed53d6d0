-- ===== src/Update/Run.antt =====
-- src/update.rs: run_update. Downloads and the unpacking of an archive are arguments.
use wakezilla.Prelude.{
  ◌>>=◌, if◌then◌else◌, Result, ok_or, ok, err, ℕ, Bool, true, false, Option, none, some, List,
  codes,
}
use wakezilla.Update.{
  GithubRelease, normalize_tag, binary_name_for_target, tray_helper_name_for_target, select_asset,
  Semver, UpdateStatus, status_from_release, verify_checksum_bytes, current, available,
  release_api_url, checksum_url,
}
use wakezilla.Update.Files.{
  Search, found, absent, unread, Trees, find_binary_in_dir, Files, Copying, InstallError,
  install_binary,
}

-- What the network and the system answer: `release` and `download` by the address of a request, and
-- `utf8` the text of some bytes. `unpack` gives the directory that an archive holds, with
-- the modes of its files left out: a file has mode 0644 until it is installed.
pub record World (Version : Type 0) : Type 0 where
  pub release : (url : List ℕ) → Option GithubRelease
  pub download : (url : List ℕ) → Option (List ℕ)
  pub utf8 : List ℕ → Option (List ℕ)
  pub target : Option (List ℕ)
  pub unpack : List ℕ → Option Trees
  pub sha256 : List ℕ → List ℕ
  pub semver : Semver Version
  pub version : List ℕ
  pub copying : Copying
  pub helper_copying : Copying
  pub remove_helper : Bool

pub data UpdateError : Type 0 where
  no_release no_version no_target no_asset no_archive no_checksums : UpdateError
  checksum_mismatch no_unpacked no_binary unreadable : UpdateError
  not_installed helper_not_installed helper_not_removed : UpdateError

pub data Done : Type 0 where
  up_to_date updated : Done

-- The executable and the tray helper beside it.
pub record System : Type 0 where
  pub executable : Files
  pub helper : Files

module _ {Version : Type 0} (world : World Version) where
  -- Without a version that is asked for, only a newer release is installed.
  unfoldable pub is_wanted : (requested : Option (List ℕ)) → GithubRelease → Option UpdateStatus
  unfolding status_from_release
  is_wanted (some version) release = some (available (normalize_tag release.tag_name))
  is_wanted none release = status_from_release world.semver world.version release

  -- install_optional_tray_helper
  unfoldable pub install_found_helper : Files → Option Search → Files × Bool
  unfolding install_binary
  install_found_helper helper none = (helper, false)
  install_found_helper helper (some unread) = (helper, false)
  install_found_helper helper (some absent) =
      if world.remove_helper then (record helper { installed = none }, true) else (helper, false)
  install_found_helper helper (some (found contents)) =
      let (after, result) = install_binary world.helper_copying helper 0o644 contents in
      (after, elim result [ ok done ↦ true | err e ↦ false ])

  unfoldable pub install_optional_tray_helper : Files → (target : List ℕ) → Trees → Files × Bool
  unfolding install_found_helper find_binary_in_dir tray_helper_name_for_target
  install_optional_tray_helper helper target dir =
      install_found_helper helper (find_binary_in_dir (tray_helper_name_for_target target) dir)

  unfoldable pub helper_result : Files → Files × Bool → System × Result Done UpdateError
  helper_result executable (helper, true) =
      (record { executable = executable; helper = helper }, ok updated)
  helper_result executable (helper, false) =
      (record { executable = executable; helper = helper }, err helper_not_installed)

  unfoldable pub install_helper :
      System
      → (target : List ℕ) → Trees
      → Files × Result (Unit {0}) InstallError
      → System × Result Done UpdateError
  unfolding install_optional_tray_helper helper_result
  install_helper system target dir (executable, ok done) =
      helper_result executable (install_optional_tray_helper system.helper target dir)
  install_helper system target dir (executable, err e) =
      (record system { executable = executable }, err not_installed)

  unfoldable pub install_found :
      System → (target : List ℕ) → Trees → Option Search → System × Result Done UpdateError
  unfolding install_binary install_helper
  install_found system target dir (some (found contents)) =
      install_helper system target dir
        (install_binary world.copying system.executable 0o644 contents)
  install_found system target dir (some absent) = (system, err no_binary)
  install_found system target dir (some unread) = (system, err unreadable)
  install_found system target dir none = (system, err no_binary)

  -- The archive is unpacked only if its checksum is the one that is listed.
  unfoldable pub verified_archive :
      (target asset archive checksums : List ℕ) → Result Trees UpdateError
  unfolding verify_checksum_bytes
  verified_archive target asset archive checksums =
      if verify_checksum_bytes world.sha256 archive checksums asset
      then ok_or (world.unpack archive) no_unpacked
      else err checksum_mismatch

  -- The list of checksums of a version.
  unfoldable pub checksum_list : (version : List ℕ) → Option (List ℕ)
  unfolding checksum_url
  checksum_list version = elim (world.download (checksum_url version)) [
    | none ↦ none
    | some bytes ↦ world.utf8 bytes
  ]

  unfoldable pub fetched_archive : GithubRelease → (target : List ℕ) → Result Trees UpdateError
  unfolding select_asset verified_archive normalize_tag checksum_list
  fetched_archive release target = ok_or (select_asset release target) no_asset >>= λ asset.
      ok_or (world.download (codes asset.browser_download_url)) no_archive >>= λ archive.
      ok_or (checksum_list (normalize_tag release.tag_name)) no_checksums >>= λ checksums.
      verified_archive target asset.name archive checksums

  unfoldable pub install_archive :
      System → (target : List ℕ) → Result Trees UpdateError → System × Result Done UpdateError
  unfolding install_found find_binary_in_dir binary_name_for_target
  install_archive system target (ok dir) =
      install_found system target dir (find_binary_in_dir (binary_name_for_target target) dir)
  install_archive system target (err e) = (system, err e)

  unfoldable pub install_release :
      System → GithubRelease → Option (List ℕ) → System × Result Done UpdateError
  unfolding fetched_archive install_archive
  install_release system release none = (system, err no_target)
  install_release system release (some target) =
      install_archive system target (fetched_archive release target)

  unfoldable pub install_wanted :
      System → GithubRelease → Option UpdateStatus → System × Result Done UpdateError
  unfolding install_release
  install_wanted system release none = (system, err no_version)
  install_wanted system release (some current) = (system, ok up_to_date)
  install_wanted system release (some (available latest)) =
      install_release system release world.target

  unfoldable pub update_to :
      System
      → (requested : Option (List ℕ)) → Option GithubRelease
      → System × Result Done UpdateError
  unfolding is_wanted install_wanted
  update_to system requested none = (system, err no_release)
  update_to system requested (some release) =
      install_wanted system release (is_wanted requested release)

  unfoldable pub run_update :
      System → (requested : Option (List ℕ)) → System × Result Done UpdateError
  unfolding update_to release_api_url
  run_update system requested =
      update_to system requested (world.release (release_api_url requested))
