-- ===== src/Witnesses/Updates.antt =====
-- Runs of the update of src/update.rs.
use wakezilla.Prelude.{
  ltb, if◌then◌else◌, length, ◌^^◌, codes, codes_eq, ℕ, String, ◌≡◌, refl, true, false, none, some,
  List, [], ◌∷◌,
}
use wakezilla.Update.Files.{Trees, find_binary_in_dir, Copying, empty, leaf, folder, link}
use wakezilla.Update.Ending.{Ending, find_binary_in_dir-Ending}
use wakezilla.Update.Run.{World, System, run_update}
use wakezilla.Update.Verified.{Verified}

abbrev linux : List ℕ
linux = codes "x86_64-unknown-linux-gnu"

abbrev archive_name : String
archive_name = "wakezilla-2.0.0-x86_64-unknown-linux-gnu.tar.gz"

-- The binary stands in a folder of the archive.
abbrev unpacked : Trees
unpacked =
    folder (codes "bin") (leaf (codes "wakezilla") (7 ∷ 8 ∷ []) empty)
      (link (codes "wakezilla") none empty)

abbrev copying : Copying
copying = record {
  parent_is_dir = true;
  remove_stale = true;
  copied = none;
  set_permissions = true;
  rename = true;
}

abbrev world : World ℕ
world = record {
  release = λ _. some (record {
    tag_name = codes "wakezilla/v2.0.0";
    prerelease = false;
    assets = record { name = codes archive_name; browser_download_url = "url" } ∷ [];
  });
  download = λ url.
      if codes_eq url (codes "url") then some (26 ∷ []) else some (codes ("1A  *" ^^ archive_name));
  utf8 = λ bytes. some bytes;
  target = some linux;
  unpack = λ _. some unpacked;
  sha256 = λ bytes. bytes;
  semver = record {
    parse = λ text. some (length text);
    is_pre = λ _. false;
    is_lt = λ a b. ltb a b;
  };
  version = codes "1.0";
  copying = copying;
  helper_copying = copying;
  remove_helper = true;
}

abbrev system : System
system = record {
  executable = record { installed = some (0o755, 1 ∷ []); temporary = none };
  helper = record { installed = none; temporary = none };
}

find_binary_in_dir-Ending_example :
    Ending (codes "wakezilla") unpacked (find_binary_in_dir (codes "wakezilla") unpacked)
find_binary_in_dir-Ending_example = find_binary_in_dir-Ending (codes "wakezilla") unpacked

-- The run of the witness installs the binary of the archive.
run_installs : (run_update world system none).0.executable.installed ≡ some (0o755, 7 ∷ 8 ∷ [])
unfolding run_update
run_installs = refl
