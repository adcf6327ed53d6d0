-- ===== src/ProxyServer/Invariant.antt =====
-- Every handler of src/proxy_server.rs keeps the list of machines valid.
use wakezilla.Prelude.{filter, String, not, find}
use wakezilla.Common.{MachinePayload, DeleteMachinePayload}
use wakezilla.Machine.{Machine}
use wakezilla.Forward.{ClientVerification}
use wakezilla.AppState.{AppState}
use wakezilla.ProxyServer.Setup.{finish_verification, rotate_shutdown_key, has_mac}
use wakezilla.ProxyServer.Machines.{
  Env, add_machine_api, update_machine_api, delete_machine_api, after_delete,
}
use wakezilla.ProxyServer.Valid.{IsValid, filter-IsValid}
use wakezilla.ProxyServer.Preserves.{
  commit-IsValid, add-IsValid, update-IsValid, finish_verification-IsValid,
  rotate_shutdown_key-IsValid,
}

-- The requests that change the machines. `verify_setup` is the part after the client has answered.
pub data Change : Type 0 where
  add : MachinePayload → Change
  update : (mac : String) → MachinePayload → Change
  delete : DeleteMachinePayload → Change
  verify_setup : (mac : String) → Machine → (key : String) → ClientVerification → Change
  rotate : (mac : String) → Change

unfoldable pub handle : Env → Change → AppState → AppState
handle env (add payload) state = (add_machine_api env payload state).0
handle env (update mac payload) state = (update_machine_api env mac payload state).0
handle env (delete payload) state = (delete_machine_api env payload state).0
handle env (verify_setup mac machine key answer) state =
    (finish_verification env.json env.write mac machine key answer state).0
handle env (rotate mac) state =
    (rotate_shutdown_key env.json env.write env.generated_key mac state).0

-- Whatever is asked of the server, and however the writes end, the list of machines stays valid where
-- it was: no two machines have the same address up to case and separator or share a local port, and
-- each has a name, a well-formed address, services with distinct ports that are not zero, no client
-- port zero, and a client port where it can be turned off.
pub handle-IsValid :
    (env : Env) (change : Change) (state : AppState)
    → IsValid state.machines
    → IsValid (handle env change state).machines
unfolding handle delete_machine_api after_delete
handle-IsValid env (add payload) state h = add-IsValid env payload state h
handle-IsValid env (update mac payload) state h = update-IsValid env mac payload state h
handle-IsValid env (delete payload) state h =
    commit-IsValid env (filter (λ m. not (has_mac payload.mac m)) state.machines) state
      (after_delete payload.mac (find (has_mac payload.mac) state.machines)) (λ s valid. valid) h
      (filter-IsValid (λ m. not (has_mac payload.mac m)) state.machines h)
handle-IsValid env (verify_setup mac machine key answer) state h =
    finish_verification-IsValid env.json env.write mac machine key answer state h
handle-IsValid env (rotate mac) state h =
    rotate_shutdown_key-IsValid env.json env.write env.generated_key mac state h
