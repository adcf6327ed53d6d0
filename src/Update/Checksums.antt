-- ===== src/Update/Checksums.antt =====
-- src/update.rs: what is checked before an archive is unpacked.
use wakezilla.Prelude.{
  ◌>>=◌, Bool-cases, Option-cases, find, eq_of_codes_eq, Result, ok_or, ok, err, ℕ, ◌≡◌, refl, sym,
  ap, ◌∙◌, inl, inr, Bool, true, Option, none, some, List, [], ◌∷◌, arith, codes,
}
use wakezilla.Update.{
  GithubAsset, GithubRelease, normalize_tag, asset_name, select_asset, checksum_for_asset, hex,
  eq_ignore_ascii_case, verify_checksum_bytes,
}
use wakezilla.Update.Files.{Trees}
use wakezilla.Update.Run.{World, verified_archive, fetched_archive, no_unpacked, checksum_list}

ok_or-eq : {A E : Type 0} (o : Option A) (e : E) (a : A) → ok_or o e ≡ ok a → o ≡ some a
ok_or-eq none e a h = cc
ok_or-eq (some b) e a h = cc

>>=-inverted :
    {A B E : Type 0} (start : Result A E) (next : A → Result B E) (end : B)
    → (start >>= next) ≡ ok end
    → (middle : A) × (start ≡ ok middle) × (next middle ≡ ok end)
>>=-inverted (err e) next end h = cc
>>=-inverted (ok middle) next end h = (middle, refl, h)

find-true : {A : Type 0} (p : A → Bool) (xs : List A) (a : A) → find p xs ≡ some a → p a ≡ true
find-true p [] a h = cc
find-true p (x ∷ xs) a h = elim (Bool-cases (p x)) [
  | inl holds ↦ let e : x ≡ a = ground (arith, rw holds at h) in ap p (sym e) ∙ holds
  | inr fails ↦ find-true p xs a (rw fails at h)
]

-- The asset of the target is the one with its name.
pub select_asset-name :
    (release : GithubRelease) (target : List ℕ) (asset : GithubAsset)
    → select_asset release target ≡ some asset
    → asset.name ≡ asset_name (normalize_tag release.tag_name) target
unfolding select_asset
select_asset-name release target asset h =
    eq_of_codes_eq asset.name (asset_name (normalize_tag release.tag_name) target)
      (find-true _ release.assets asset h)

pub verify_checksum_bytes-true :
    (sha256 : List ℕ → List ℕ) (bytes checksums asset : List ℕ)
    → verify_checksum_bytes sha256 bytes checksums asset ≡ true
    → (expected : List ℕ) × (checksum_for_asset checksums asset ≡ some expected)
      × (eq_ignore_ascii_case (hex (sha256 bytes)) expected ≡ true)
unfolding verify_checksum_bytes
verify_checksum_bytes-true sha256 bytes checksums asset h =
    elim (Option-cases (checksum_for_asset checksums asset)) [
      | inl unlisted ↦ absurd (ground (arith, rw (unlisted, verify_checksum_bytes) at h))
      | inr (expected, e) ↦ (expected, e, rw (e, verify_checksum_bytes) at h)
    ]

-- What is known of an archive that was unpacked.
abbrev pub Fetched :
    {Version : Type 0} → World Version → GithubRelease → (target : List ℕ) → Trees → Type 0
Fetched world release target dir =
    (asset : GithubAsset) × (archive : List ℕ) × (checksums : List ℕ) × (expected : List ℕ)
    × (asset.name ≡ asset_name (normalize_tag release.tag_name) target)
    × (world.download (codes asset.browser_download_url) ≡ some archive)
    × (checksum_list world (normalize_tag release.tag_name) ≡ some checksums)
    × (checksum_for_asset checksums asset.name ≡ some expected)
    × (eq_ignore_ascii_case (hex (world.sha256 archive)) expected ≡ true)
    × (world.unpack archive ≡ some dir)

verified_archive-ok :
    {Version : Type 0} (world : World Version) (target asset archive checksums : List ℕ)
    (dir : Trees)
    → verified_archive world target asset archive checksums ≡ ok dir
    → (verify_checksum_bytes world.sha256 archive checksums asset ≡ true)
      × (world.unpack archive ≡ some dir)
unfolding verified_archive
verified_archive-ok world target asset archive checksums dir h =
    elim (Bool-cases (verify_checksum_bytes world.sha256 archive checksums asset)) [
      | inl good ↦ (good, ok_or-eq (world.unpack archive) no_unpacked dir (rw good at h))
      | inr bad ↦ absurd (ground (arith, rw bad at h))
    ]

pub fetched_archive-Fetched :
    {Version : Type 0} (world : World Version) (release : GithubRelease) (target : List ℕ)
    (dir : Trees)
    → fetched_archive world release target ≡ ok dir
    → Fetched world release target dir
unfolding fetched_archive
fetched_archive-Fetched world release target dir h =
    let (asset, e1, h1) = >>=-inverted _ _ dir h in
    let (archive, e2, h2) = >>=-inverted _ _ dir h1 in
    let (checksums, e3, h3) = >>=-inverted _ _ dir h2 in
    let (good, opened) = verified_archive-ok world target asset.name archive checksums dir h3 in
    let (expected, listed, same) =
      verify_checksum_bytes-true world.sha256 archive checksums asset.name good in
    (
      asset,
      archive,
      checksums,
      expected,
      select_asset-name release target asset (ok_or-eq _ _ asset e1),
      ok_or-eq _ _ archive e2,
      ok_or-eq _ _ checksums e3,
      listed,
      same,
      opened,
    )
