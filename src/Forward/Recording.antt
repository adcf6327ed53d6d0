-- ===== src/Forward/Recording.antt =====
-- The loop of a forwarder and the access log.
use wakezilla.Prelude.{
  length, ℤ, ℕ, suc, String, ◌≡◌, refl, ap, true, false, none, some, List, [], ◌∷◌, map,
}
use wakezilla.AccessLog.{service_key, AccessLog, record_access}
use wakezilla.AccessLog.History.{Event, record_all}
use wakezilla.Forward.Connection.{
  Selected, is_cancel, accept_loop, proxy_internal, changed, accepted, accept_failed, bind_error,
}

-- The connections that are accepted before the sender is gone, sends `false`, or an accept fails.
pub accepted_before : List Selected → List ℤ
accepted_before [] = []
accepted_before (accept_failed ∷ events) = []
accepted_before (changed none ∷ events) = []
accepted_before (changed (some false) ∷ events) = []
accepted_before (changed (some true) ∷ events) = accepted_before events
accepted_before (accepted millis ∷ events) = millis ∷ accepted_before events

abbrev pub events_of : String → List ℤ → List Event
events_of key times = map (λ t. (key, t)) times

accept_loop-record_all :
    (key : String) (log : AccessLog) (events : List Selected)
    → ((accept_loop key log events).0 ≡ record_all log (events_of key (accepted_before events)))
      × ((accept_loop key log events).1.0 ≡ length (accepted_before events))
unfolding accept_loop accepted_before record_all is_cancel
accept_loop-record_all key log [] = (refl, refl)
accept_loop-record_all key log (accept_failed ∷ events) = (refl, refl)
accept_loop-record_all key log (changed none ∷ events) = (refl, refl)
accept_loop-record_all key log (changed (some false) ∷ events) = (refl, refl)
accept_loop-record_all key log (changed (some true) ∷ events) =
    accept_loop-record_all key log events
accept_loop-record_all key log (accepted millis ∷ events) =
    let (logged, counted) = accept_loop-record_all key (record_access log key millis) events in
    (logged, ap suc counted)

-- Where its port is bound, each connection that a forwarder accepts before it is told to stop, before
-- its sender is gone and before an accept fails is recorded once, in order, under the key of the
-- machine's address and the port, and is handed to a task; nothing is recorded after. Where the port
-- is not bound, nothing is recorded.
pub proxy_internal-record_all :
    (mac : String) (local_port : ℕ) (log : AccessLog) (events : List Selected)
    → ((proxy_internal true mac local_port log events).0
        ≡ record_all log (events_of (service_key mac local_port) (accepted_before events)))
      × ((proxy_internal true mac local_port log events).1.0 ≡ length (accepted_before events))
      × (proxy_internal false mac local_port log events ≡ (log, (0, bind_error)))
unfolding proxy_internal
proxy_internal-record_all mac local_port log events =
    let (logged, counted) = accept_loop-record_all (service_key mac local_port) log events in
    (logged, counted, refl)
