-- ===== src/Update.antt =====
-- src/update.rs: tags, targets, the choice of an asset and its checksum. A text that is read in parts
-- is the list of its code points. The crates semver and sha2 are arguments.
pub mod Files
pub mod Run
pub mod Search
pub mod Pending
pub mod Ending
pub mod Checksums
pub mod Verified
use wakezilla.Prelude.{
  ltb, ◌==◌, if◌then◌else◌, is_some, unwrap_or, length, find, str_eq, ◌^^◌, codes,
  to_ascii_lowercase, is_whitespace, codes_eq, ℕ, ◌+◌, ◌-◌, ◌/◌, ◌%◌, String, Bool, false, ◌||◌,
  Option, none, some, List, [], ◌∷◌, ◌++◌, map,
}

-- str::strip_prefix
unfoldable pub strip_prefix : (prefix text : List ℕ) → Option (List ℕ)
strip_prefix [] text = some text
strip_prefix (p ∷ ps) [] = none
strip_prefix (p ∷ ps) (c ∷ cs) = let rest = strip_prefix ps cs in if p == c then rest else none

-- str::contains
unfoldable pub contains_text : (text part : List ℕ) → Bool
unfolding strip_prefix
contains_text [] part = is_some (strip_prefix part [])
contains_text (c ∷ cs) part = is_some (strip_prefix part (c ∷ cs)) || contains_text cs part

-- A release of the repository, with its tag as code points.
pub record GithubAsset : Type 0 where
  pub name : List ℕ
  pub browser_download_url : String

pub record GithubRelease : Type 0 where
  pub tag_name : List ℕ
  pub prerelease : Bool
  pub assets : List GithubAsset

unfoldable pub or_else : {A : Type 0} → Option A → Option A → Option A
or_else none other = other
or_else (some a) other = some a

unfoldable pub normalize_tag : List ℕ → List ℕ
unfolding strip_prefix or_else
normalize_tag tag =
    unwrap_or (or_else (strip_prefix (codes "wakezilla/v") tag) (strip_prefix (codes "v") tag)) tag

abbrev pub repository : String
repository = "guibeira/wakezilla"

unfoldable pub release_api_url : Option (List ℕ) → List ℕ
unfolding normalize_tag
release_api_url (some version) =
    codes ("https://api.github.com/repos/" ^^ repository ^^ "/releases/tags/v")
    ++ normalize_tag version
release_api_url none = codes ("https://api.github.com/repos/" ^^ repository ^^ "/releases/latest")

unfoldable pub checksum_url : (version : List ℕ) → List ℕ
unfolding normalize_tag
checksum_url version =
    codes ("https://github.com/" ^^ repository ^^ "/releases/download/v")
    ++ (normalize_tag version ++ codes "/SHA256SUMS")

unfoldable pub asset_name : (version target : List ℕ) → List ℕ
unfolding normalize_tag
asset_name version target =
    codes "wakezilla-" ++ (normalize_tag version ++ (b'-' ∷ (target ++ codes ".tar.gz")))

unfoldable pub binary_name_for_target : (target : List ℕ) → List ℕ
unfolding contains_text
binary_name_for_target target =
    if contains_text target (codes "windows") then codes "wakezilla.exe" else codes "wakezilla"

unfoldable pub tray_helper_name_for_target : (target : List ℕ) → List ℕ
unfolding contains_text
tray_helper_name_for_target target =
    if contains_text target (codes "windows")
    then codes "wakezilla-tray.exe"
    else codes "wakezilla-tray"

pub data Arch : Type 0 where
  x86_64 aarch64 : Arch

unfoldable pub arch_name : Arch → String
arch_name x86_64 = "x86_64"
arch_name aarch64 = "aarch64"

unfoldable pub arch_of : String → Option Arch
arch_of arch =
    if str_eq arch "x86_64" || str_eq arch "amd64"
    then some x86_64
    else if str_eq arch "aarch64" || str_eq arch "arm64"
    then some aarch64
    else none

unfoldable pub target_of : (os : String) → (libc : Option String) → Arch → Option String
unfolding arch_name
target_of os libc arch =
    if str_eq os "linux"
    then some (
        arch_name arch
        ^^ "-unknown-linux-"
        ^^ (if str_eq (unwrap_or libc "") "" then "gnu" else unwrap_or libc ""))
    else if str_eq os "macos" || str_eq os "darwin"
    then some (arch_name arch ^^ "-apple-darwin")
    else if str_eq os "windows"
    then elim arch [ x86_64 ↦ some "x86_64-pc-windows-msvc" | aarch64 ↦ none ]
    else none

-- target_from_parts, with `none` for an error.
unfoldable pub target_from_parts : (os arch : String) → (libc : Option String) → Option String
unfolding arch_of target_of
target_from_parts os arch libc = elim (arch_of arch) [
  | none ↦ none
  | some known ↦ target_of os libc known
]

-- select_asset, with `none` for an error.
unfoldable pub select_asset : GithubRelease → (target : List ℕ) → Option GithubAsset
unfolding normalize_tag asset_name codes_eq
select_asset release target =
    find
      (λ (asset : GithubAsset).
        codes_eq asset.name (asset_name (normalize_tag release.tag_name) target))
      release.assets

-- The crate semver.
pub record Semver (Version : Type 0) : Type 0 where
  pub parse : List ℕ → Option Version
  pub is_pre : Version → Bool
  pub is_lt : Version → Version → Bool

pub data UpdateStatus : Type 0 where
  current : UpdateStatus
  available : (latest : List ℕ) → UpdateStatus

module _ {Version : Type 0} (semver : Semver Version) where
  unfoldable pub compare_versions :
      (latest : List ℕ) → (current latest : Option Version) → Option UpdateStatus
  compare_versions latest none other = none
  compare_versions latest (some c) none = none
  compare_versions latest (some c) (some l) =
      if semver.is_pre l
      then some current
      else if semver.is_lt c l
      then some (available latest)
      else some current

  -- status_from_release, with `none` for a version that cannot be read.
  unfoldable pub status_from_release :
      (current_version : List ℕ) → GithubRelease → Option UpdateStatus
  unfolding normalize_tag compare_versions
  status_from_release current_version release =
      let latest = normalize_tag release.tag_name in
      if release.prerelease
      then some current
      else compare_versions latest (semver.parse current_version) (semver.parse latest)

-- str::lines: the text up to each line feed, without a carriage return at its end.
unfoldable pub strip_return : List ℕ → List ℕ
strip_return [] = []
strip_return (c ∷ []) = if c == 13 then [] else c ∷ []
strip_return (c ∷ d ∷ cs) = c ∷ strip_return (d ∷ cs)

unfoldable pub lines_from : (line : List ℕ) → List ℕ → List (List ℕ)
unfolding strip_return
lines_from line [] = if length line == 0 then [] else line ∷ []
lines_from line (c ∷ cs) =
    let next = strip_return line ∷ lines_from [] cs in
    let same = lines_from (line ++ c ∷ []) cs in if c == 10 then next else same

abbrev pub lines : List ℕ → List (List ℕ)
lines text = lines_from [] text

-- str::split_whitespace
unfoldable pub words_from : (word : List ℕ) → List ℕ → List (List ℕ)
unfolding is_whitespace
words_from word [] = if length word == 0 then [] else word ∷ []
words_from word (c ∷ cs) =
    let next = words_from [] cs in
    let same = words_from (word ++ c ∷ []) cs in
    if is_whitespace c then if length word == 0 then next else word ∷ next else same

abbrev pub split_whitespace : List ℕ → List (List ℕ)
split_whitespace text = words_from [] text

unfoldable pub trim_start_stars : List ℕ → List ℕ
trim_start_stars [] = []
trim_start_stars (c ∷ cs) = let rest = trim_start_stars cs in if c == b'*' then rest else c ∷ cs

-- The hash of a line that names the asset.
unfoldable pub hash_of_words : (asset : List ℕ) → List (List ℕ) → Option (List ℕ)
unfolding trim_start_stars codes_eq
hash_of_words asset [] = none
hash_of_words asset (hash ∷ []) = none
hash_of_words asset (hash ∷ name ∷ others) =
    if codes_eq (trim_start_stars name) asset then some hash else none

unfoldable pub first_hash : (asset : List ℕ) → List (List ℕ) → Option (List ℕ)
unfolding hash_of_words or_else words_from
first_hash asset [] = none
first_hash asset (line ∷ rest) =
    or_else (hash_of_words asset (split_whitespace line)) (first_hash asset rest)

-- checksum_for_asset, with `none` for an asset that is not listed.
unfoldable pub checksum_for_asset : (checksums asset : List ℕ) → Option (List ℕ)
unfolding first_hash lines_from
checksum_for_asset checksums asset = first_hash asset (lines checksums)

unfoldable pub hex_digit : ℕ → ℕ
hex_digit n = if ltb n 10 then n + b'0' else n - 10 + b'a'

unfoldable pub hex : List ℕ → List ℕ
unfolding hex_digit
hex [] = []
hex (byte ∷ bytes) = hex_digit (byte / 16) ∷ hex_digit (byte % 16) ∷ hex bytes

-- str::eq_ignore_ascii_case
unfoldable pub eq_ignore_ascii_case : List ℕ → List ℕ → Bool
unfolding codes_eq to_ascii_lowercase
eq_ignore_ascii_case a b = codes_eq (map to_ascii_lowercase a) (map to_ascii_lowercase b)

-- verify_checksum_bytes
unfoldable pub verify_checksum_bytes :
    (sha256 : List ℕ → List ℕ) (bytes checksums asset : List ℕ) → Bool
unfolding checksum_for_asset hex eq_ignore_ascii_case
verify_checksum_bytes sha256 bytes checksums asset = elim (checksum_for_asset checksums asset) [
  | none ↦ false
  | some expected ↦ eq_ignore_ascii_case (hex (sha256 bytes)) expected
]
