-- ===== src/ProxyServer/Accepted.antt =====
-- What a machine that `validate_machine_config` accepts satisfies.
use wakezilla.Prelude.{
  ◌==◌, ==_iff, Bool-cases, Option-cases, filter, All, All-map, insert, ok, ℕ, String, ◌≡◌, refl,
  sym, ap, ◌∙◌, ◌≢◌, inl, inr, Bool, true, false, not, ◌&&◌, ◌||◌, Option, List, [], ◌∷◌, map,
  arith,
}
use wakezilla.Common
use wakezilla.Net.{parse_ipv4}
use wakezilla.Machine.{PortForward, Machine, api_port_forward_to_internal, api_machine_to_internal}
use wakezilla.Machine.MacFormat.{is_match-IsMac}
use wakezilla.ProxyServer.Validation.{
  Errors, flag, contains, same_mac, services_message, check_services, uses_port, check_existing,
  is_replaced, check_fields, result_of, validate_machine_config,
}
use wakezilla.ProxyServer.Valid.{
  has_local, ValidServices, bad_turn_off_port-HasClientPort, address_of, other_address, IsMachine,
  Compatible, Compatible-sym,
}

insert_nonempty : (k : String) (v : List String) (m : Errors) → insert k v m ≢ []
unfolding insert
insert_nonempty k v [] e = absurd (ground arith)
insert_nonempty k v ((j, w) ∷ m) e = absurd (ground arith)

flag-empty :
    (b : Bool) (f message : String) (e : Errors) → flag b f message e ≡ [] → (b ≡ false) × (e ≡ [])
unfolding flag
flag-empty true f message e h = absurd (insert_nonempty f (message ∷ []) e h)
flag-empty false f message e h = (refl, h)

check_existing-empty :
    (machines : List Machine) (mac : String) (ports : List ℕ) (e : Errors)
    → check_existing machines mac ports e ≡ []
    → (e ≡ [])
      × All (λ m. (same_mac m.mac mac ≡ false) × (uses_port ports m.port_forwards ≡ false)) machines
unfolding check_existing
check_existing-empty [] mac ports e h = (h, tt)
check_existing-empty (m ∷ machines) mac ports e h =
    let (inner, rest) = check_existing-empty machines mac ports _ h in
    let (port, inner') = flag-empty _ _ _ _ inner in
    let (other, empty) = flag-empty _ _ _ _ inner' in (empty, ((other, port), rest))

abbrev internal : List Common.PortForward → List PortForward
internal services = map api_port_forward_to_internal services

abbrev Fresh : List ℕ → List Common.PortForward → Type 0
Fresh ports services = All (λ s. contains s.local_port ports ≡ false) services

no_or : (p q : ℕ) (b : Bool) → (p == q || b) ≡ false → b ≡ false
no_or p q b h = ground arith

other_or : (p q : ℕ) (b c : Bool) → (p == q || b) ≡ false → c ≡ false → (q == p || c) ≡ false
other_or p q b c h k = ground arith

Fresh-cons :
    (q : ℕ) (ports : List ℕ) (services : List Common.PortForward)
    → Fresh (q ∷ ports) services
    → (has_local q (internal services) ≡ false) × Fresh ports services
unfolding contains api_port_forward_to_internal
Fresh-cons q ports [] h = (refl, tt)
Fresh-cons q ports (s ∷ services) h =
    let (rest, fresh) = Fresh-cons q ports services h.1 in
    (other_or s.local_port q _ _ h.0 rest, (no_or s.local_port q _ h.0, fresh))

-- What the loop over the services leaves where it reports nothing.
abbrev Checked : List Common.PortForward → (ports : List ℕ) → Errors → List ℕ × Errors → Type 0
Checked services ports e result =
    (e ≡ [])
    × ValidServices (internal services)
    × Fresh ports services
    × ((p : ℕ) → contains p result.0 ≡ (has_local p (internal services) || contains p ports))

or_false : (a b : Bool) → (a || b) ≡ false → (a ≡ false) × (b ≡ false)
or_false a b h = ground arith

abbrev flagged : Errors → Errors
flagged e = flag true "port_forwards" services_message e

reported : (e : Errors) → flagged e ≢ []
unfolding flag
reported e h = insert_nonempty "port_forwards" (services_message ∷ []) e h

check_services-empty :
    (services : List Common.PortForward) (ports : List ℕ) (e : Errors)
    → (check_services services ports e).1 ≡ []
    → Checked services ports e (check_services services ports e)
unfolding check_services contains api_port_forward_to_internal
check_services-empty [] ports e h = (h, tt, tt, λ p. refl)
check_services-empty (s ∷ services) ports e h =
    elim (Bool-cases (s.local_port == 0 || s.target_port == 0)) [
      | inl zero_port ↦ absurd (
          reported e
            (check_services-empty services ports (flagged e)
              (rw (zero_port, check_services) at h)).0)
      | inr valid ↦ elim (Bool-cases (contains s.local_port ports)) [
        | inl used ↦ absurd (
            reported e
              (check_services-empty services ports (flagged e)
                (rw (valid, check_services, used) at h)).0)
        | inr new_port ↦
            let (empty, services_valid, fresh, members) =
              check_services-empty services (s.local_port ∷ ports)
                (flag false "port_forwards" services_message e)
                (rw (valid, check_services, new_port) at h) in
            let (alone, fresh') = Fresh-cons s.local_port ports services fresh in
            let (local, target) = or_false _ _ valid in
            rw (valid, check_services, new_port)
              (
                (flag-empty false "port_forwards" services_message e empty).1,
                (local, target, alone, services_valid),
                (refl, fresh'),
                λ p. ground (arith, members p),
              )
      ]
    ]

uses_port-disjoint :
    (ports : List ℕ) (services : List PortForward) (p : ℕ)
    → uses_port ports services ≡ false
    → (contains p ports && has_local p services) ≡ false
unfolding uses_port
uses_port-disjoint ports [] p h = ground arith
uses_port-disjoint ports (s ∷ services) p h = elim (Bool-cases (p == s.local_port)) [
  | inl same ↦
      let e : p ≡ s.local_port = (==_iff p s.local_port).0 same in
      let free : contains p ports ≡ false = rw e (or_false _ _ h).0 in rw free refl
  | inr other ↦ rw other (uses_port-disjoint ports services p (or_false _ _ h).1)
]

-- The internal machine has the values of the one that is checked.
abbrev pub Configures : Common.Machine → Machine → Type 0
Configures api m =
    (m.mac ≡ api.mac)
    × (m.name ≡ api.name)
    × (m.turn_off_port ≡ api.turn_off_port)
    × (m.can_be_turned_off ≡ api.can_be_turned_off)
    × (m.port_forwards ≡ map api_port_forward_to_internal api.port_forwards)

pub converted :
    (api : Common.Machine) (m : Machine) → api_machine_to_internal api ≡ ok m → Configures api m
unfolding api_machine_to_internal
converted api m h = elim (Option-cases (parse_ipv4 api.ip)) [
  | inl bad ↦ absurd (ground (arith, rw bad at h))
  | inr (ip, good) ↦ let e = rw good at h in (cc, cc, cc, cc, cc)
]

result_of-ok : (e : Errors) → result_of e ≡ ok tt → e ≡ []
result_of-ok [] h = refl
result_of-ok (x ∷ e) h = absurd (ground arith)

accepted-Compatible :
    (new : Machine) (api : Common.Machine) (ports : List ℕ) (machines : List Machine)
    → new.mac ≡ api.mac
    → ((p : ℕ) → contains p ports ≡ has_local p new.port_forwards)
    → All
        (λ m. (same_mac m.mac api.mac ≡ false) × (uses_port ports m.port_forwards ≡ false))
        machines
    → All (Compatible new) machines
accepted-Compatible new api ports machines same members h =
    All-map _ (Compatible new)
      (λ m hm. Compatible-sym m new (
        λ e. other_address m.mac api.mac hm.0 (e ∙ ap address_of same),
        λ p. flip p m (rw (sym (members p)) (uses_port-disjoint ports m.port_forwards p hm.1)),
      ))
      machines h
  where
    flip :
        (p : ℕ) (m : Machine)
        → (has_local p new.port_forwards && has_local p m.port_forwards) ≡ false
        → (has_local p m.port_forwards && has_local p new.port_forwards) ≡ false
    flip p m e = ground arith

-- A machine that `validate_machine_config` accepts, and any of its keys, is well formed and
-- compatible with every machine that it does not replace.
pub validate_machine_config-Compatible :
    (api : Common.Machine) (machines : List Machine) (replacing : Option String) (new : Machine)
    → validate_machine_config api machines replacing ≡ ok tt
    → Configures api new
    → IsMachine new × All (Compatible new) (filter (λ m. not (is_replaced replacing m)) machines)
unfolding validate_machine_config check_fields
validate_machine_config-Compatible api machines replacing new h (mac, name, port, off, services) =
    let checked = check_services api.port_forwards [] (check_fields api []) in
    let kept = filter (λ m. not (is_replaced replacing m)) machines in
    let (inner, compatible) =
      check_existing-empty kept api.mac checked.0 checked.1
        (result_of-ok (check_existing kept api.mac checked.0 checked.1) h) in
    let (fields, valid, fresh, members) =
      check_services-empty api.port_forwards [] (check_fields api []) inner in
    let (good_port, fields1) = flag-empty _ _ _ _ fields in
    let (good_mac, fields2) = flag-empty _ _ _ _ fields1 in
    let (good_ip, fields3) = flag-empty _ _ _ _ fields2 in
    let (good_name, none_left) = flag-empty _ _ _ _ fields3 in
    (
      (
        rw mac (is_match-IsMac api.mac (negated _ good_mac)),
        rw name good_name,
        rw (port, off) (bad_turn_off_port-HasClientPort _ _ good_port),
        rw services valid,
      ),
      accepted-Compatible new api checked.0 kept mac
          (λ p. rw services (members p ∙ no_ports (has_local p (internal api.port_forwards)) p))
          compatible,
    )
  where
    negated : (b : Bool) → not b ≡ false → b ≡ true
    negated b e = ground arith

    no_ports : (b : Bool) (p : ℕ) → (b || contains p []) ≡ b
    no_ports b p = unfold contains in ground arith
