-- ===== src/AccessLog.antt =====
-- src/access_log.rs: the bounded history of connections that the forwarders keep for each service.
-- The system clock and the JSON library are arguments; the part of the file system that `save` and
-- `load_from_path` touch is one record.
pub mod History
pub mod Storage
use mathlib.Core.Option
use wakezilla.Prelude.{
  ltb, ◌==◌, if◌then◌else◌, unwrap_or, length, ◌^^◌, HashMap, lookup, insert, Result, ◌>>=◌, ◌>>◌,
  ok_or, ok, err, show, ℤ, pos, as_i64, ℕ, String, Bool, Option, none, some, List, [], ◌∷◌, ◌++◌,
  map,
}

unfoldable pub service_key : String → ℕ → String
service_key mac local_port = mac ^^ "-" ^^ show local_port

-- The argument is the time since the epoch in milliseconds, `none` where the clock is before it.
unfoldable pub now_millis : Option ℕ → ℤ
now_millis since = unwrap_or (Option.map as_i64 since) (pos 0)

pub record AccessLog : Type 0 where
  pub inner : HashMap (List ℤ)
  pub max_records : ℕ
  pub path : Option String

abbrev pub new_with_path : ℕ → Option String → AccessLog
new_with_path max_records path = record { inner = []; max_records = max_records; path = path }

abbrev pub new : ℕ → AccessLog
new max_records = new_with_path max_records none

-- while buf.len() > self.max_records { buf.pop_front(); }
pop_excess : ℕ → List ℤ → List ℤ
pop_excess max_records [] = []
pop_excess max_records (t ∷ buf) =
    if ltb max_records (length (t ∷ buf)) then pop_excess max_records buf else t ∷ buf

unfoldable pub get : AccessLog → String → List ℤ
get log key = unwrap_or (lookup key log.inner) []

-- AccessLog::record
unfoldable pub record_access : AccessLog → String → ℤ → AccessLog
unfolding pop_excess get
record_access log key ts = if log.max_records == 0 then log else record log {
  inner = insert key (pop_excess log.max_records (get log key ++ ts ∷ [])) log.inner;
}

-- The files that can be read, and whether a directory can be created or a file written.
pub record Files : Type 0 where
  pub contents : HashMap String
  pub can_create_dir : String → Bool
  pub can_write : String → Bool

-- serde_json on the flattened map
pub record Json : Type 0 where
  pub from_str : String → Option (HashMap (List ℤ))
  pub to_string : HashMap (List ℤ) → Option String

-- serde skips `max_records` and `path`, which are set from the arguments whatever was read.
unfoldable pub load_from_path : Json → ℕ → String → Files → AccessLog
load_from_path json max_records path files =
    let read : Option (HashMap (List ℤ)) = elim (lookup path files.contents) [
      | none ↦ none
      | some text ↦ json.from_str text
    ] in
    record { inner = unwrap_or read []; max_records = max_records; path = some path }

pub data SaveError : Type 0 where
  serialize create_directory write : SaveError

write_file : String → String → Files → Result Files SaveError
write_file path text files =
    if files.can_write path
    then ok (record files { contents = insert path text files.contents })
    else err write

create_parent : Option String → Files → Result (Unit {0}) SaveError
create_parent none files = ok tt
create_parent (some dir) files = if files.can_create_dir dir then ok tt else err create_directory

-- `parent` is Path::parent, `default_path` the value of access_log_path.
unfoldable pub save :
    Json
    → (parent : String → Option String) → (default_path : String) → AccessLog
    → Files
    → Result Files SaveError
unfolding write_file create_parent
save json parent default_path log files = do
  let path = unwrap_or log.path default_path
  text ← ok_or (json.to_string log.inner) serialize
  create_parent (parent path) files
  write_file path text files
