-- ===== src/Witnesses/Log.antt =====
-- Runs of src/access_log.rs and of the loop of a forwarder.
use wakezilla.Prelude.{
  unwrap_or, length, HashMap, lookup, insert, ℤ, pos, ◌≡◌, refl, true, false, none, some, List, [],
  ◌∷◌, ◌++◌, arith,
}
use wakezilla.AccessLog.{service_key, AccessLog, get, Files, Json, load_from_path, save}
use wakezilla.AccessLog.History.{last, Event, record_all, times_of, get-record_all}
use wakezilla.AccessLog.Storage.{load_from_path-save}
use wakezilla.Forward.Connection.{Selected, proxy_internal, changed, accepted, bind_error}
use wakezilla.Forward.Recording.{accepted_before, events_of, proxy_internal-record_all}

abbrev small_log : AccessLog
small_log = record { inner = ("m-80", pos 1 ∷ []) ∷ []; max_records = 2; path = none }

abbrev two_services : List Event
two_services = ("m-80", pos 5) ∷ ("m-22", pos 6) ∷ ("m-80", pos 7) ∷ []

get-record_all_example :
    get (record_all small_log two_services) "m-80"
    ≡ last small_log.max_records (get small_log "m-80" ++ times_of "m-80" two_services)
unfolding get lookup
get-record_all_example = get-record_all small_log two_services "m-80" (omega arith) (omega arith)

abbrev stored : HashMap (List ℤ)
stored = ("m-80", pos 1 ∷ []) ∷ []

abbrev json : Json
json = record { from_str = λ text. some stored; to_string = λ inner. some "{}" }

abbrev no_files : Files
no_files = record { contents = []; can_create_dir = λ _. true; can_write = λ _. true }

abbrev one_file : Files
one_file = record no_files { contents = ("log", "{}") ∷ [] }

load_from_path-save_example :
    (load_from_path json 10 (unwrap_or small_log.path "log") one_file).inner ≡ small_log.inner
unfolding save insert
load_from_path-save_example =
    load_from_path-save json (λ _. none) "log" 10 small_log no_files one_file (λ text h. refl) refl

abbrev reports : List Selected
reports =
    accepted (pos 5)
    ∷ changed (some true)
    ∷ accepted (pos 6)
    ∷ changed (some false)
    ∷ accepted (pos 7)
    ∷ []

proxy_internal-record_all_example :
    ((proxy_internal true "m" 80 small_log reports).0
      ≡ record_all small_log (events_of (service_key "m" 80) (accepted_before reports)))
    × ((proxy_internal true "m" 80 small_log reports).1.0 ≡ length (accepted_before reports))
    × (proxy_internal false "m" 80 small_log reports ≡ (small_log, (0, bind_error)))
proxy_internal-record_all_example = proxy_internal-record_all "m" 80 small_log reports
