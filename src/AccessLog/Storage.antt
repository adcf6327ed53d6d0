-- ===== src/AccessLog/Storage.antt =====
-- The history on disk.
use wakezilla.Prelude.{
  Option-cases, unwrap_or, ok, ℕ, String, ◌≡◌, inl, inr, Option, some, eq_refl, lookup, insert,
  lookup-insert, arith,
}
use wakezilla.AccessLog.{AccessLog, Files, Json, load_from_path, save}

save-eq-ok :
    (json : Json) (parent : String → Option String) (default_path : String) (log : AccessLog)
    (files files' : Files)
    → save json parent default_path log files ≡ ok files'
    → (text : String) × (json.to_string log.inner ≡ some text)
      × (files'.contents ≡ insert (unwrap_or log.path default_path) text files.contents)
unfolding save
save-eq-ok json parent default_path log files files' saved =
    elim (Option-cases (json.to_string log.inner)) [
      | inl failed ↦ ground arith
      | inr (text, printed) ↦ (text, printed, ground arith)
    ]

-- What `save` has written is what `load_from_path` reads back from the same path, whatever limit it
-- is given, provided that the JSON library reads back the map that it printed.
pub load_from_path-save :
    (json : Json) (parent : String → Option String) (default_path : String) (max_records : ℕ)
    (log : AccessLog) (files files' : Files)
    → ((text : String) → json.to_string log.inner ≡ some text → json.from_str text ≡ some log.inner)
    → save json parent default_path log files ≡ ok files'
    → (load_from_path json max_records (unwrap_or log.path default_path) files').inner ≡ log.inner
unfolding load_from_path
load_from_path-save json parent default_path max_records log files files' reads saved =
    let (text, printed, written) = save-eq-ok json parent default_path log files files' saved in
    let path = unwrap_or log.path default_path in
    let found : lookup path files'.contents ≡ some text = rw (written, lookup-insert, eq_refl) in
    rw (found, reads text printed)
