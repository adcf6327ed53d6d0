-- ===== src/ProxyServer/Keys.antt =====
-- The shutdown keys of src/proxy_server.rs: when a machine counts as verified, and that the two
-- `expect` of `verify_shutdown_setup` hold.
use wakezilla.Prelude.{
  Option-cases, is_some, find, String, ◌≡◌, refl, ◌≢◌, inl, inr, Bool, true, ◌&&◌, some, arith,
  ==_iff, eq_iff, ℕ, ap, Option, none,
}
use wakezilla.Machine.{Machine}
use wakezilla.AppState.{AppState}
use wakezilla.Net.{Ipv4, ipv4_eq}
use wakezilla.ProxyServer.Setup.{
  shutdown_port, shutdown_setup_for_machine, set_key, connection_unchanged, apply_shutdown_security,
  has_mac, is_pending, begin_verification, panics, option_eq,
}

-- The edited machine keeps the old key, which was verified for the same address, IP and port.
abbrev pub KeepsVerified : (old new result : Machine) → Type 0
KeepsVerified old new result =
    (result.shutdown_auth_key ≡ old.shutdown_auth_key)
    × (is_some old.shutdown_auth_key ≡ true)
    × (old.shutdown_auth_verified ≡ true)
    × (old.mac ≡ new.mac)
    × (old.ip ≡ new.ip)
    × (old.turn_off_port ≡ new.turn_off_port)

and_true : (a b : Bool) → (a && b) ≡ true → (a ≡ true) × (b ≡ true)
and_true a b h = ground arith

ipv4_eq-eq : (a b : Ipv4) → ipv4_eq a b ≡ true → a ≡ b
unfolding ipv4_eq
ipv4_eq-eq a b h = ground arith

option_eq-eq : (a b : Option ℕ) → option_eq a b ≡ true → a ≡ b
unfolding option_eq
option_eq-eq none none h = refl
option_eq-eq (some a) (some b) h = ap some ((==_iff a b).0 h)
option_eq-eq none (some b) h = cc
option_eq-eq (some a) none h = cc

connection_unchanged-eq :
    (old new : Machine)
    → connection_unchanged old new ≡ true
    → (old.mac ≡ new.mac) × (old.ip ≡ new.ip) × (old.turn_off_port ≡ new.turn_off_port)
unfolding connection_unchanged
connection_unchanged-eq old new h =
    let (mac, rest) = and_true _ _ h in
    let (ip, port) = and_true _ _ rest in
    ((eq_iff old.mac new.mac).0 mac, ipv4_eq-eq _ _ ip, option_eq-eq _ _ port)

-- An edit leaves a machine verified only if its key is the one that was verified before, for the
-- same address, IP and client port: no edit marks a key as verified.
pub apply_shutdown_security-KeepsVerified :
    (generated_key : String) (old new : Machine)
    → (apply_shutdown_security generated_key (some old) new).shutdown_auth_verified ≡ true
    → KeepsVerified old new (apply_shutdown_security generated_key (some old) new)
unfolding apply_shutdown_security set_key
apply_shutdown_security-KeepsVerified generated_key old new h =
    elim (Option-cases (shutdown_port new)) [
      | inl off ↦ absurd (ground (arith, rw (off, apply_shutdown_security) at h))
      | inr (port, on) ↦ elim (Option-cases (shutdown_port old)) [
        | inl off ↦ absurd (ground (arith, rw (on, apply_shutdown_security, off) at h))
        | inr (_, was_on) ↦ elim (Option-cases old.shutdown_auth_key) [
          | inl absent ↦
              absurd (ground (arith, rw (on, apply_shutdown_security, was_on, absent) at h))
          | inr (key, present) ↦
              let both = and_true _ _ (rw (on, apply_shutdown_security, was_on, present) at h) in
              let kept = connection_unchanged-eq old new both.1 in
              (
                rw (on, apply_shutdown_security, was_on, present) refl,
                rw present refl,
                both.0,
                kept.0,
                kept.1,
                kept.2,
              )
        ]
      ]
    ]

-- `verify_shutdown_setup` never fails at its two `expect`: a setup that is pending has a key and a
-- port.
pub begin_verification_total :
    (state : AppState) (mac : String) → begin_verification state mac ≢ panics
unfolding begin_verification shutdown_setup_for_machine is_pending shutdown_port
begin_verification_total state mac h = elim (Option-cases (find (has_mac mac) state.machines)) [
  | inl absent ↦ absurd (ground (arith, rw (absent, begin_verification) at h))
  | inr (m, found) ↦ absurd (ground (arith, rw (found, begin_verification) at h))
]
