-- ===== src/Update/Files.antt =====
-- src/update.rs: the search for a binary in what was unpacked, and its installation.
use wakezilla.Prelude.{
  if◌then◌else◌, is_some, take, codes_eq, Result, ok, err, ℕ, zero, suc, ◌+◌, Bool, not, ◌&&◌,
  Option, none, some, List, [], ◌∷◌,
}

-- The entries of a directory, in the order in which they are read. A link has the contents of the
-- file that it leads to, if any, and `broken` is a place where reading the directory fails.
pub data Trees : Type 0 where
  empty : Trees
  leaf : (name contents : List ℕ) → Trees → Trees
  folder : (name : List ℕ) → Trees → Trees → Trees
  link : (name : List ℕ) (target : Option (List ℕ)) → Trees → Trees
  broken : Trees → Trees

-- What a search comes to.
pub data Search : Type 0 where
  absent unread : Search
  found : (contents : List ℕ) → Search

unfoldable pub file_or : Option (List ℕ) → Option (List ℕ) → Option (List ℕ)
file_or (some contents) rest = some contents
file_or none rest = rest

-- The file of a name that is an entry of the directory itself. `is_file` follows a link.
unfoldable pub direct : (bin_name : List ℕ) → Trees → Option (List ℕ)
unfolding codes_eq file_or
direct bin_name empty = none
direct bin_name (leaf name contents rest) =
    if codes_eq name bin_name then some contents else direct bin_name rest
direct bin_name (folder name inner rest) = direct bin_name rest
direct bin_name (link name target rest) =
    if codes_eq name bin_name then file_or target (direct bin_name rest) else direct bin_name rest
direct bin_name (broken rest) = direct bin_name rest

-- One directory: the end of the search, or the directories that wait, the last one first. The type
-- of an entry is its own, so that a link is neither a directory nor a file.
unfoldable pub scan : (bin_name : List ℕ) → Trees → List Trees → Result (List Trees) Search
unfolding codes_eq
scan bin_name empty pending = ok pending
scan bin_name (leaf name contents rest) pending =
    if codes_eq name bin_name then err (found contents) else scan bin_name rest pending
scan bin_name (folder name inner rest) pending = scan bin_name rest (inner ∷ pending)
scan bin_name (link name target rest) pending = scan bin_name rest pending
scan bin_name (broken rest) pending = err unread

unfoldable pub after_scan :
    (List Trees → Option Search) → Result (List Trees) Search → Option Search
after_scan next (ok waiting) = next waiting
after_scan next (err end) = some end

-- The loop over the directories that wait. The fuel is the number of directories that may be read.
unfoldable pub search_pending : ℕ → (bin_name : List ℕ) → List Trees → Option Search
unfolding scan after_scan
search_pending fuel bin_name [] = some absent
search_pending zero bin_name (dir ∷ pending) = none
search_pending (suc fuel) bin_name (dir ∷ pending) =
    after_scan (λ waiting. search_pending fuel bin_name waiting) (scan bin_name dir pending)

-- The number of directories below one.
unfoldable pub folders : Trees → ℕ
folders empty = 0
folders (leaf name contents rest) = folders rest
folders (folder name inner rest) = suc (folders inner + folders rest)
folders (link name target rest) = folders rest
folders (broken rest) = folders rest

-- find_binary_in_dir. `none` means that the fuel ran out.
unfoldable pub find_binary_in_dir : (bin_name : List ℕ) → Trees → Option Search
unfolding direct search_pending folders
find_binary_in_dir bin_name dir = elim (direct bin_name dir) [
  | some contents ↦ some (found contents)
  | none ↦ search_pending (suc (folders dir)) bin_name (dir ∷ [])
]

-- The executable to replace, and the temporary file beside it, with their modes and contents.
pub record Files : Type 0 where
  pub installed : Option (ℕ × List ℕ)
  pub temporary : Option (ℕ × List ℕ)

-- Which calls of install_binary succeed. `copied` is the number of bytes copied before an error.
pub record Copying : Type 0 where
  pub parent_is_dir : Bool
  pub remove_stale : Bool
  pub copied : Option ℕ
  pub set_permissions : Bool
  pub rename : Bool

pub data InstallError : Type 0 where
  no_directory stale_file not_staged not_executable not_replaced : InstallError

unfoldable pub rename_staged : Copying → Files → List ℕ → Files × Result (Unit {0}) InstallError
rename_staged c files contents =
    if c.rename
    then (record { installed = some (0o755, contents); temporary = none }, ok tt)
    else (record files { temporary = none }, err not_replaced)

unfoldable pub after_copy :
    Copying
    → Files
    → (mode : ℕ) (contents : List ℕ) → (copied : Option ℕ) → Files × Result (Unit {0}) InstallError
unfolding rename_staged
after_copy c files mode contents (some n) =
    (record files { temporary = some (mode, take n contents) }, err not_staged)
after_copy c files mode contents none =
    if c.set_permissions
    then rename_staged c (record files { temporary = some (0o755, contents) }) contents
    else (record files { temporary = some (mode, contents) }, err not_executable)

-- fs::copy takes the mode of the source with its contents.
unfoldable pub stage_copy :
    Copying → Files → (mode : ℕ) (contents : List ℕ) → Files × Result (Unit {0}) InstallError
unfolding after_copy
stage_copy c files mode contents = after_copy c files mode contents c.copied

-- install_binary
unfoldable pub install_binary :
    Copying → Files → (mode : ℕ) (contents : List ℕ) → Files × Result (Unit {0}) InstallError
unfolding stage_copy
install_binary c files mode contents =
    if c.parent_is_dir
    then if is_some files.temporary && not c.remove_stale
      then (files, err stale_file)
      else stage_copy c (record files { temporary = none }) mode contents
    else (files, err no_directory)
