-- ===== src/Service/Disk.antt =====
-- src/service.rs: the directory entries that an update of a protected service binary touches, and
-- the calls of the operating system on them. Each call asks `fails` whether the system refuses it.
use wakezilla.Prelude.{
  ◌==◌, if◌then◌else◌, is_none, Result, ok, err, ℕ, ◌+◌, ◌%◌, Bool, true, false, not, ◌&&◌, Option,
  none, some, List,
}

pub record Metadata : Type 0 where
  pub uid : ℕ
  pub gid : ℕ
  pub mode : ℕ

pub record File : Type 0 where
  pub contents : List ℕ
  pub metadata : Metadata

pub data Node : Type 0 where
  file : File → Node
  directory : Metadata → Node
  special : Node

-- `source` and `reread` are what the file to install holds when it is copied and when it is hashed.
-- `created` is an empty temporary file as the process makes it, `made_directory` the metadata of a
-- directory that it makes, `ancestors` the components above the parent from the top, without the root,
-- and `others` tells whether the parent holds other entries.
pub record Disk : Type 0 where
  pub source : Option Node
  pub reread : List ℕ
  pub parent : Option Node
  pub ancestors : List (Option Node)
  pub destination : Option Node
  pub backup : Option Node
  pub others : Bool
  pub created : Metadata
  pub made_directory : Metadata
  pub fails : ℕ → Bool
  pub calls : ℕ

pub data IoError : Type 0 where
  inspecting_source inspecting_parent inspecting_destination opening_source : IoError
  source_not_regular parent_not_directory unsafe_destination : IoError
  staging copying syncing_stage rewinding hashing verification_failed : IoError
  setting_mode setting_owner allocating_backup moving_prior publishing : IoError
  syncing removing restoring removing_backup removing_directory : IoError
  unsafe_directory inspecting_directory creating_directory opening_directory : IoError
  not_absolute no_descriptor unsafe_binary unsafe_descriptor foreign_binary : IoError
  configuring unreachable_service : IoError
  -- "additionally failed to roll back" and "additionally failed to restore"
  not_rolled_back : IoError

abbrev pub Io : Type 0 → Type 0
Io A = Disk → Result A IoError × Disk

abbrev pub bind : {A B : Type 0} → Result A IoError × Disk → (A → Io B) → Result B IoError × Disk
bind (ok a, d) f = f a d
bind (err e, d) f = (err e, d)

infixl 5 ◌>>=◌ ◌>>◌
abbrev pub ◌>>=◌ : {A B : Type 0} → Io A → (A → Io B) → Io B
◌>>=◌ m f d = bind (m d) f

abbrev pub ◌>>◌ : {A B : Type 0} → Io A → Io B → Io B
m >> n = m >>= λ _. n

abbrev pub pure : {A : Type 0} → A → Io A
pure a d = (ok a, d)

abbrev pub fail : {A : Type 0} → IoError → Io A
fail e d = (err e, d)

-- A check that makes no call.
abbrev pub ensure : Bool → IoError → Io (Unit {0})
ensure test e d = (if test then ok tt else err e, d)

abbrev pub tick : Disk → Disk
tick d = record d { calls = d.calls + 1 }

-- One call of the system: refused with `e`, or done as `change` says.
unfoldable pub perform : IoError → (Disk → Disk) → Io (Unit {0})
perform e change d = if d.fails d.calls then (err e, tick d) else (ok tt, tick (change d))

abbrev pub unchanged : Disk → Disk
unchanged d = d

unfoldable pub is_file : Option Node → Bool
is_file (some (file f)) = true
is_file (some (directory m)) = false
is_file (some special) = false
is_file none = false

-- uid, gid and permissions & 0o777 as protected entries have them.
unfoldable pub is_protected : (owner_uid owner_gid : ℕ) → Metadata → Bool
is_protected owner_uid owner_gid m =
    m.uid == owner_uid && m.gid == owner_gid && m.mode % 0o1000 == 0o755

unfoldable pub is_protected_file : (owner_uid owner_gid : ℕ) → Option Node → Bool
unfolding is_protected
is_protected_file uid gid (some (file f)) = is_protected uid gid f.metadata
is_protected_file uid gid (some (directory m)) = false
is_protected_file uid gid (some special) = false
is_protected_file uid gid none = false

unfoldable pub is_protected_directory : (owner_uid owner_gid : ℕ) → Option Node → Bool
unfolding is_protected
is_protected_directory uid gid (some (directory m)) = is_protected uid gid m
is_protected_directory uid gid (some (file f)) = false
is_protected_directory uid gid (some special) = false
is_protected_directory uid gid none = false

unfoldable pub is_directory : Option Node → Bool
is_directory (some (directory m)) = true
is_directory (some (file f)) = false
is_directory (some special) = false
is_directory none = false

unfoldable pub is_empty_directory : Disk → Bool
is_empty_directory d = is_none d.destination && is_none d.backup && not d.others

-- sync_parent_directory
unfoldable pub sync_parent_directory : Io (Unit {0})
sync_parent_directory d = perform syncing unchanged d
