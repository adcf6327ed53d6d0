-- ===== src/ProxyServer/Deletion.antt =====
-- What `delete_machine_api` of src/proxy_server.rs leaves of a machine.
use wakezilla.Prelude.{
  Bool-cases, filter, find, starts_with, eq_iff, ◌^^◌, HashMap, lookup, retain, remove,
  lookup-remove, String, ◌≡◌, refl, sym, inl, inr, Bool, true, false, not, none, some, List, [],
  ◌∷◌, arith,
}
use wakezilla.Machine.{Machine}
use wakezilla.Common.{DeleteMachinePayload}
use wakezilla.Limiter.{remove_machine}
use wakezilla.AppState.{Forwarder, AppState, save_machines, written}
use wakezilla.ProxyServer.Setup.{has_mac}
use wakezilla.ProxyServer.Machines.{Env, commit, stop_proxies, after_delete, delete_machine_api}

find-filter :
    (p : Machine → Bool) (machines : List Machine)
    → find p (filter (λ m. not (p m)) machines) ≡ none
find-filter p [] = refl
find-filter p (m ∷ machines) = elim (Bool-cases (p m)) [
  | inl e ↦ rw e (find-filter p machines)
  | inr e ↦ rw (e, e) (find-filter p machines)
]

find-holds :
    (p : Machine → Bool) (machines : List Machine) (m : Machine)
    → find p machines ≡ some m
    → p m ≡ true
find-holds p [] m h = absurd (ground arith)
find-holds p (x ∷ machines) m h = elim (Bool-cases (p x)) [
  | inl e ↦ let same : some x ≡ some m = rw e at h in let q : x ≡ m = cc in rw (sym q) e
  | inr e ↦ find-holds p machines m (rw e at h)
]

lookup-retain-none :
    (p : String → Forwarder → Bool) (k : String) (proxies : HashMap Forwarder)
    → ((f : Forwarder) → p k f ≡ false)
    → lookup k (retain p proxies) ≡ none
unfolding lookup retain
lookup-retain-none p k [] h = refl
lookup-retain-none p k ((j, f) ∷ proxies) h =
    ground (arith, eq_iff j k, h f, lookup-retain-none p k proxies h)

-- A machine that is deleted, and whose deletion is written, is gone from the list, has no timer, and
-- none of its forwarders that are in the map is left.
pub delete_machine_api-gone :
    (env : Env) (payload : DeleteMachinePayload) (state : AppState) (machine : Machine)
    (key : String)
    → env.write ≡ written
    → find (has_mac payload.mac) state.machines ≡ some machine
    → starts_with key (payload.mac ^^ "-") ≡ true
    → (find (has_mac payload.mac) (delete_machine_api env payload state).0.machines ≡ none)
      × (lookup payload.mac (delete_machine_api env payload state).0.turn_off_limiter ≡ none)
      × (lookup key (delete_machine_api env payload state).0.proxies ≡ none)
unfolding delete_machine_api commit save_machines after_delete remove_machine stop_proxies
delete_machine_api-gone env payload state machine key w found prefix =
    simp (delete_machine_api, commit, save_machines, w, found)
      (
        find-filter (has_mac payload.mac) state.machines,
        timer,
        lookup-retain-none (λ k _. not (starts_with k (payload.mac ^^ "-"))) key state.proxies
            (λ f. rw prefix refl),
      )
  where
    timer : lookup payload.mac (remove machine.mac state.turn_off_limiter) ≡ none
    timer =
        let same : machine.mac ≡ payload.mac =
          (eq_iff machine.mac payload.mac).0
            (find-holds (has_mac payload.mac) state.machines machine found) in
        ground (
          arith,
          lookup-remove machine.mac payload.mac state.turn_off_limiter,
          eq_iff machine.mac payload.mac,
        )
