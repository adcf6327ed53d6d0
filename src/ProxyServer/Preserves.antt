-- ===== src/ProxyServer/Preserves.antt =====
-- The parts of the handlers of src/proxy_server.rs, and the list of machines that they keep valid.
use wakezilla.Prelude.{
  Bool-cases, is_some, filter, All, Result, ok, err, String, ◌≡◌, refl, ap, subst, ◌⊎◌, inl, inr,
  not, Option, none, List, [], ◌∷◌, ◌++◌, Option-cases, get_elem?, set, position, ℕ, Bool, false,
  some, true,
}
use wakezilla.Common
use wakezilla.Common.{
  MachinePayload, DeleteMachinePayload, server, verified, unreachable, key_mismatch,
}
use wakezilla.Machine.{Machine, ConversionError, api_machine_to_internal}
use wakezilla.Forward
use wakezilla.Forward.{ClientVerification}
use wakezilla.AppState.{
  AppState, Write, save_machines, start_proxy_if_configured, written, failed, MachinesJson,
  restart_global_monitor,
}
use wakezilla.ProxyServer.Validation.{Errors, is_replaced, result_of, validate_machine_config}
use wakezilla.ProxyServer.Setup.{
  shutdown_port, finish_verification, rotate_shutdown_key, set_key, apply_shutdown_security,
  has_mac, persist, is_key,
}
use wakezilla.ProxyServer.Machines.{
  Response, Env, commit, new_key, validated, add_converted, add_machine_api, update_machine_api,
  machine_of_payload, payload_errors, after_add, internal_or, after_update, replace_machine,
  update_converted,
}
use wakezilla.ProxyServer.Valid.{
  Compatible, IsValid, append-IsValid, IsMachine, others, set-IsValid, set_key-IsValid,
}
use wakezilla.ProxyServer.Accepted.{Configures, validate_machine_config-Compatible, converted}

pub Write-cases : (w : Write) → (w ≡ written) ⊎ ((left : Option String) × (w ≡ failed left))
Write-cases written = inl refl
Write-cases (failed left) = inr (left, refl)

pub commit-IsValid :
    (env : Env) (updated : List Machine) (state : AppState)
    (continue : AppState → AppState × Response)
    → ((s : AppState) → IsValid s.machines → IsValid (continue s).0.machines)
    → IsValid state.machines
    → IsValid updated
    → IsValid (commit env updated state continue).0.machines
unfolding commit save_machines
commit-IsValid env updated state continue keeps before after = elim (Write-cases env.write) [
  | inl e ↦ rw (e, save_machines) (keeps _ after)
  | inr (left, e) ↦ rw (e, save_machines) before
]

validated-IsValid :
    (r : Result (Unit {0}) Errors) (state : AppState) (next : AppState × Response)
    → IsValid state.machines
    → (r ≡ ok tt → IsValid next.0.machines)
    → IsValid (validated r state next).0.machines
validated-IsValid (ok _) state next h k = k refl
validated-IsValid (err e) state next h k = h

new_key-Configures :
    (env : Env) (api : Common.Machine) (m : Machine)
    → Configures api m
    → Configures api (new_key env m)
unfolding new_key
new_key-Configures env api m h = elim (Bool-cases (is_some (shutdown_port m))) [
  | inl e ↦ rw e h
  | inr e ↦ rw e h
]

all_kept : (machines : List Machine) → filter (λ m. not (is_replaced none m)) machines ≡ machines
unfolding is_replaced
all_kept [] = refl
all_kept (m ∷ machines) = ap (λ t. m ∷ t) (all_kept machines)

add_converted-IsValid :
    (env : Env) (api : Common.Machine) (new : Machine) (state : AppState)
    → Configures api new
    → IsValid state.machines
    → IsValid (add_converted env api new state).0.machines
unfolding add_converted after_add start_proxy_if_configured
add_converted-IsValid env api new state same h = validated-IsValid _ state _ h (λ accepted.
    let (good, compatible) =
      validate_machine_config-Compatible api state.machines none new accepted same in
    commit-IsValid env (state.machines ++ new ∷ []) state (after_add env new) (λ s valid. valid) h
      (append-IsValid state.machines new h good
        (subst (All (Compatible new)) (all_kept state.machines) compatible)))

internal_or-IsValid :
    (api : Common.Machine) (r : Result Machine ConversionError) (state : AppState)
    (continue : Machine → AppState × Response)
    → api_machine_to_internal api ≡ r
    → IsValid state.machines
    → ((m : Machine) → Configures api m → IsValid (continue m).0.machines)
    → IsValid (internal_or r state continue).0.machines
internal_or-IsValid api (err e) state continue q h k = h
internal_or-IsValid api (ok m) state continue q h k = k m (converted api m q)

pub add-IsValid :
    (env : Env) (payload : MachinePayload) (state : AppState)
    → IsValid state.machines
    → IsValid (add_machine_api env payload state).0.machines
unfolding add_machine_api
add-IsValid env payload state h =
    let api = machine_of_payload payload server in
    validated-IsValid (result_of (payload_errors payload)) state _ h (λ no_errors.
      internal_or-IsValid api (api_machine_to_internal api) state
        (λ m. add_converted env api (new_key env m) state) refl h
        (λ m same.
          add_converted-IsValid env api (new_key env m) state (new_key-Configures env api m same)
            h))

-- What the keys are changed by keeps the configuration.
apply_shutdown_security-Configures :
    (key : String) (old : Option Machine) (api : Common.Machine) (m : Machine)
    → Configures api m
    → Configures api (apply_shutdown_security key old m)
unfolding apply_shutdown_security set_key
apply_shutdown_security-Configures key none api m h = elim (Option-cases (shutdown_port m)) [
  | inl off ↦ rw (off, apply_shutdown_security) h
  | inr (port, on) ↦ rw (on, apply_shutdown_security) h
]
apply_shutdown_security-Configures key (some old) api m h = elim (Option-cases (shutdown_port m)) [
  | inl off ↦ rw (off, apply_shutdown_security) h
  | inr (port, on) ↦ elim (Option-cases (shutdown_port old)) [
    | inl off ↦ rw (on, apply_shutdown_security, off) h
    | inr (_, was_on) ↦ elim (Option-cases old.shutdown_auth_key) [
      | inl absent ↦ rw (on, apply_shutdown_security, was_on, absent) h
      | inr (k, present) ↦ rw (on, apply_shutdown_security, was_on, present) h
    ]
  ]
]

replace_machine-IsValid :
    (env : Env) (mac : String) (index : ℕ) (old new : Machine) (state : AppState)
    → position (has_mac mac) state.machines ≡ some index
    → IsValid state.machines
    → IsMachine new
    → All (Compatible new) (others mac state.machines)
    → IsValid (replace_machine env index old new state).0.machines
unfolding replace_machine after_update start_proxy_if_configured restart_global_monitor
replace_machine-IsValid env mac index old new state found h good compatible =
    commit-IsValid env (set state.machines index new) state (after_update env old new)
      (λ s valid. valid) h (set-IsValid state.machines mac index new found h good compatible)

update_converted-IsValid :
    (env : Env) (mac : String) (index : ℕ) (old : Machine) (api : Common.Machine) (state : AppState)
    → position (has_mac mac) state.machines ≡ some index
    → IsValid state.machines
    → IsValid (update_converted env mac index old api state).0.machines
unfolding update_converted is_replaced
update_converted-IsValid env mac index old api state found h =
    validated-IsValid (validate_machine_config api state.machines (some mac)) state _ h (λ accepted.
      internal_or-IsValid api (api_machine_to_internal api) state
        (λ m. replace_machine env index old (secure m) state) refl h
        (λ m same.
          let (good, compatible) =
            validate_machine_config-Compatible api state.machines (some mac) (secure m) accepted
              (apply_shutdown_security-Configures env.generated_key (some old) api m same) in
          replace_machine-IsValid env mac index old (secure m) state found h good compatible))
  where
    secure : Machine → Machine
    secure m = apply_shutdown_security env.generated_key (some old) m

pub update-IsValid :
    (env : Env) (mac : String) (payload : MachinePayload) (state : AppState)
    → IsValid state.machines
    → IsValid (update_machine_api env mac payload state).0.machines
unfolding update_machine_api
update-IsValid env mac payload state h =
    elim (Option-cases (position (has_mac mac) state.machines)) [
      | inl absent ↦ rw (absent, update_machine_api) h
      | inr (index, found) ↦ elim (Option-cases (get_elem? state.machines index)) [
        | inl absent ↦ rw (found, update_machine_api, absent) h
        | inr (old, present) ↦
            rw (found, update_machine_api, present)
              (update_converted-IsValid env mac index old
                (machine_of_payload payload old.machine_type) state found h)
      ]
    ]

persist-IsValid :
    (json : MachinesJson) (write : Write) (i : ℕ) (m : Machine) (key : Option String) (b : Bool)
    (state : AppState)
    → get_elem? state.machines i ≡ some m
    → IsValid state.machines
    → IsValid (persist json write i (set_key key b m) state).0.machines
unfolding persist save_machines
persist-IsValid json written i m key b state e h = set_key-IsValid state.machines i m key b e h
persist-IsValid json (failed left) i m key b state e h = h

pub finish_verification-IsValid :
    (json : MachinesJson) (write : Write) (mac : String) (machine : Machine) (key : String)
    (answer : ClientVerification) (state : AppState)
    → IsValid state.machines
    → IsValid (finish_verification json write mac machine key answer state).0.machines
unfolding finish_verification
finish_verification-IsValid json write mac machine key Forward.key_mismatch state h = h
finish_verification-IsValid json write mac machine key Forward.unreachable state h = h
finish_verification-IsValid json write mac machine key Forward.verified state h =
    elim (Option-cases (position (has_mac mac) state.machines)) [
      | inl absent ↦ rw (absent, finish_verification) h
      | inr (i, found) ↦ elim (Option-cases (get_elem? state.machines i)) [
        | inl absent ↦ rw (found, finish_verification, absent) h
        | inr (m, present) ↦ elim (Bool-cases (is_key key m.shutdown_auth_key)) [
          | inl same ↦
              rw (found, finish_verification, present, same)
                (persist-IsValid json write i m m.shutdown_auth_key true state present h)
          | inr other ↦ rw (found, finish_verification, present, other) h
        ]
      ]
    ]

pub rotate_shutdown_key-IsValid :
    (json : MachinesJson) (write : Write) (key mac : String) (state : AppState)
    → IsValid state.machines
    → IsValid (rotate_shutdown_key json write key mac state).0.machines
unfolding rotate_shutdown_key
rotate_shutdown_key-IsValid json write key mac state h =
    elim (Option-cases (position (has_mac mac) state.machines)) [
      | inl absent ↦ rw (absent, rotate_shutdown_key) h
      | inr (i, found) ↦ elim (Option-cases (get_elem? state.machines i)) [
        | inl absent ↦ rw (found, rotate_shutdown_key, absent) h
        | inr (m, present) ↦ elim (Option-cases (shutdown_port m)) [
          | inl off ↦ rw (found, rotate_shutdown_key, present, off) h
          | inr (port, on) ↦
              rw (found, rotate_shutdown_key, present, on)
                (persist-IsValid json write i m (some key) false state present h)
        ]
      ]
    ]
