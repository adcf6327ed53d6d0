-- ===== src/ProxyServer/Effects.antt =====
-- What a change of src/proxy_server.rs may do to the list of machines and to its file.
use wakezilla.Prelude.{
  Result, ok, err, ℕ, String, ◌≡◌, refl, sym, ap, ◌∙◌, inl, inr, Option, some, List, Bool-cases,
  Option-cases, get_elem?, set, filter, find, position, true, false, not, none, [], ◌∷◌, ◌++◌,
  arith,
}
use wakezilla.Common.{MachinePayload, server}
use wakezilla.Forward.{ClientVerification}
use wakezilla.Machine.{Machine, ConversionError, api_machine_to_internal}
use wakezilla.Forward
use wakezilla.AppState.{
  AppState, save_machines, written, failed, MachinesJson, load_machines_from_path,
  start_proxy_if_configured, restart_global_monitor,
}
use wakezilla.ProxyServer.Validation.{Errors, result_of, validate_machine_config}
use wakezilla.ProxyServer.Setup.{
  persist, shutdown_port, set_key, apply_shutdown_security, has_mac, is_key, finish_verification,
  rotate_shutdown_key,
}
use wakezilla.ProxyServer.Machines.{
  Response, Env, commit, validated, internal_or, machine_of_payload, payload_errors, new_key,
  after_add, add_converted, add_machine_api, after_update, replace_machine, update_converted,
  update_machine_api, after_delete, delete_machine_api,
}
use wakezilla.ProxyServer.Preserves.{Write-cases}
use wakezilla.ProxyServer.Invariant.{Change, handle, add, update, delete, verify_setup, rotate}

-- Nothing happens, or the write fails and only the file is touched, or the list that is then in
-- memory has been written.
pub data Effect (env : Env) (state : AppState) : AppState → Type 0 where
  nothing : Effect env state state
  unsaved :
      (left : Option String)
      → env.write ≡ failed left
      → Effect env state (record state { database = left })
  saved :
      (after : AppState)
      → env.write ≡ written
      → after.database ≡ some (env.json.to_string after.machines)
      → Effect env state after

commit-Effect :
    (env : Env) (updated : List Machine) (state : AppState)
    (continue : AppState → AppState × Response)
    → ((s : AppState) → (continue s).0.database ≡ s.database × (continue s).0.machines ≡ s.machines)
    → Effect env state (commit env updated state continue).0
unfolding commit save_machines
commit-Effect env updated state continue keeps = elim (Write-cases env.write) [
  | inl e ↦
      let (database, machines) =
        keeps (record state { database = some (env.json.to_string updated); machines = updated }) in
      simp (commit, save_machines, e)
        (saved _ e (database ∙ ap (λ ms. some (env.json.to_string ms)) (sym machines)))
  | inr (left, e) ↦ simp (commit, save_machines, e) (unsaved left e)
]

validated-Effect :
    (env : Env) (r : Result (Unit {0}) Errors) (state : AppState) (next : AppState × Response)
    → Effect env state next.0
    → Effect env state (validated r state next).0
validated-Effect env (ok _) state next k = k
validated-Effect env (err e) state next k = nothing

internal_or-Effect :
    (env : Env) (r : Result Machine ConversionError) (state : AppState)
    (continue : Machine → AppState × Response)
    → ((m : Machine) → Effect env state (continue m).0)
    → Effect env state (internal_or r state continue).0
internal_or-Effect env (err e) state continue k = nothing
internal_or-Effect env (ok m) state continue k = k m

persist-Effect :
    (env : Env) (i : ℕ) (m : Machine) (state : AppState)
    → Effect env state (persist env.json env.write i m state).0
unfolding persist save_machines
persist-Effect env i m state = elim (Write-cases env.write) [
  | inl e ↦ simp (persist, save_machines, e) (saved _ e refl)
  | inr (left, e) ↦ simp (persist, save_machines, e) (unsaved left e)
]

update-Effect :
    (env : Env) (mac : String) (payload : MachinePayload) (state : AppState)
    → Effect env state (update_machine_api env mac payload state).0
unfolding update_machine_api update_converted replace_machine after_update start_proxy_if_configured
    restart_global_monitor
update-Effect env mac payload state = elim (Option-cases (position (has_mac mac) state.machines)) [
  | inl absent ↦ rw (absent, update_machine_api) nothing
  | inr (index, found) ↦ elim (Option-cases (get_elem? state.machines index)) [
    | inl absent ↦ rw (found, update_machine_api, absent) nothing
    | inr (old, present) ↦
        let api = machine_of_payload payload old.machine_type in
        let secure = apply_shutdown_security env.generated_key (some old) in
        rw (found, update_machine_api, present)
          (validated-Effect env (validate_machine_config api state.machines (some mac)) state _ (
            internal_or-Effect env (api_machine_to_internal api) state
              (λ m. replace_machine env index old (secure m) state)
              (λ m.
                commit-Effect env (set state.machines index (secure m)) state
                  (after_update env old (secure m)) (λ s. (refl, refl)))))
  ]
]

add-Effect :
    (env : Env) (payload : MachinePayload) (state : AppState)
    → Effect env state (add_machine_api env payload state).0
unfolding add_machine_api add_converted after_add start_proxy_if_configured
add-Effect env payload state =
    let api = machine_of_payload payload server in
    validated-Effect env (result_of (payload_errors payload)) state _ (
      internal_or-Effect env (api_machine_to_internal api) state
        (λ m. add_converted env api (new_key env m) state)
        (λ m. validated-Effect env (validate_machine_config api state.machines none) state _ (
          commit-Effect env (state.machines ++ new_key env m ∷ []) state
            (after_add env (new_key env m)) (λ s. (refl, refl)))))

verify-Effect :
    (env : Env) (mac : String) (machine : Machine) (key : String) (answer : ClientVerification)
    (state : AppState)
    → Effect env state (finish_verification env.json env.write mac machine key answer state).0
unfolding finish_verification
verify-Effect env mac machine key Forward.key_mismatch state = nothing
verify-Effect env mac machine key Forward.unreachable state = nothing
verify-Effect env mac machine key Forward.verified state =
    elim (Option-cases (position (has_mac mac) state.machines)) [
      | inl absent ↦ rw (absent, finish_verification) nothing
      | inr (i, found) ↦ elim (Option-cases (get_elem? state.machines i)) [
        | inl absent ↦ rw (found, finish_verification, absent) nothing
        | inr (m, present) ↦ elim (Bool-cases (is_key key m.shutdown_auth_key)) [
          | inl same ↦
              rw (found, finish_verification, present, same)
                (persist-Effect env i (set_key m.shutdown_auth_key true m) state)
          | inr other ↦ rw (found, finish_verification, present, other) nothing
        ]
      ]
    ]

rotate-Effect :
    (env : Env) (mac : String) (state : AppState)
    → Effect env state (rotate_shutdown_key env.json env.write env.generated_key mac state).0
unfolding rotate_shutdown_key
rotate-Effect env mac state = elim (Option-cases (position (has_mac mac) state.machines)) [
  | inl absent ↦ rw (absent, rotate_shutdown_key) nothing
  | inr (i, found) ↦ elim (Option-cases (get_elem? state.machines i)) [
    | inl absent ↦ rw (found, rotate_shutdown_key, absent) nothing
    | inr (m, present) ↦ elim (Option-cases (shutdown_port m)) [
      | inl off ↦ rw (found, rotate_shutdown_key, present, off) nothing
      | inr (port, on) ↦
          rw (found, rotate_shutdown_key, present, on)
            (persist-Effect env i (set_key (some env.generated_key) false m) state)
    ]
  ]
]

handle-Effect :
    (env : Env) (change : Change) (state : AppState) → Effect env state (handle env change state)
unfolding handle delete_machine_api after_delete
handle-Effect env (add payload) state = add-Effect env payload state
handle-Effect env (update mac payload) state = update-Effect env mac payload state
handle-Effect env (delete payload) state =
    commit-Effect env (filter (λ m. not (has_mac payload.mac m)) state.machines) state
      (after_delete payload.mac (find (has_mac payload.mac) state.machines)) (λ s. (refl, refl))
handle-Effect env (verify_setup mac machine key answer) state =
    verify-Effect env mac machine key answer state
handle-Effect env (rotate mac) state = rotate-Effect env mac state

-- What serde_json promises of a list: once written, it is read back.
abbrev pub ReadsBack : MachinesJson → List Machine → Type 0
ReadsBack json machines = json.from_str (json.to_string machines) ≡ some machines

-- Where the database loads as the machines in memory before a change, and its write succeeds, it
-- loads as the machines in memory after it, provided that the JSON library reads these back.
pub load_machines_from_path-handle :
    (env : Env) (change : Change) (state : AppState)
    → ReadsBack env.json (handle env change state).machines
    → env.write ≡ written
    → load_machines_from_path env.json state ≡ ok state.machines
    → load_machines_from_path env.json (handle env change state)
      ≡ ok (handle env change state).machines
unfolding load_machines_from_path
load_machines_from_path-handle env change state reads w h =
    loaded (handle env change state) (handle-Effect env change state) reads
  where
    loaded :
        (after : AppState)
        → Effect env state after
        → ReadsBack env.json after.machines
        → load_machines_from_path env.json after ≡ ok after.machines
    loaded _ nothing r = h
    loaded _ (unsaved left e) r = absurd (ground (arith, w, e))
    loaded _ (saved after e stored) r = rw (stored, r) refl

-- Where the write of a change fails, the machines, the timers and the forwarders stay as they are.
pub handle-failed :
    (env : Env) (change : Change) (state : AppState) (left : Option String)
    → env.write ≡ failed left
    → ((handle env change state).machines ≡ state.machines)
      × ((handle env change state).turn_off_limiter ≡ state.turn_off_limiter)
      × ((handle env change state).proxies ≡ state.proxies)
      × ((handle env change state).spawned ≡ state.spawned)
handle-failed env change state left w =
    kept (handle env change state) (handle-Effect env change state)
  where
    kept :
        (after : AppState)
        → Effect env state after
        → (after.machines ≡ state.machines)
          × (after.turn_off_limiter ≡ state.turn_off_limiter)
          × (after.proxies ≡ state.proxies)
          × (after.spawned ≡ state.spawned)
    kept _ nothing = (refl, refl, refl, refl)
    kept _ (unsaved left e) = (refl, refl, refl, refl)
    kept _ (saved after e stored) = absurd (ground (arith, w, e))
