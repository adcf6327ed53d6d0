-- ===== src/Service/Modes.antt =====
-- src/service.rs: the descriptor of one mode's service is not taken for the other's.
use wakezilla.Prelude.{
  codes, trim, is_lowercase_of, ok, ℕ, ◌≡◌, refl, ◌↔◌, true, some, List, codes_eq, arith,
}
use wakezilla.Service.{
  Mode, from_str_opt, subcommand, service_arg, mode_eq, generate_systemd_unit, proxy, client,
}
use wakezilla.Service.Disk.{Metadata, is_protected, is_protected_file, file}
use wakezilla.Service.Install.{
  is_writable_by_owner_only, is_trusted_descriptor, validate_unix_service_files_at,
}

-- A mode is read back from its argument and from its subcommand.
pub from_str_opt-names :
    (mode : Mode)
    → (from_str_opt (service_arg mode) ≡ some mode) × (from_str_opt (subcommand mode) ≡ some mode)
unfolding from_str_opt service_arg subcommand trim is_lowercase_of
from_str_opt-names proxy = (refl, refl)
from_str_opt-names client = (refl, refl)

unit-eq :
    (mode other : Mode)
    → codes_eq (codes (generate_systemd_unit other)) (codes (generate_systemd_unit mode))
      ≡ mode_eq mode other
unfolding generate_systemd_unit mode_eq codes_eq
unit-eq proxy proxy = refl
unit-eq proxy client = refl
unit-eq client proxy = refl
unit-eq client client = refl

mode_eq_iff : (mode other : Mode) → (mode_eq mode other ≡ true) ↔ (mode ≡ other)
unfolding mode_eq
mode_eq_iff proxy proxy = ((λ _. refl), (λ _. refl))
mode_eq_iff proxy client = ((λ h. cc), (λ h. cc))
mode_eq_iff client proxy = ((λ h. cc), (λ h. cc))
mode_eq_iff client client = ((λ _. refl), (λ _. refl))

-- The service files of one mode are accepted with the binary that an installation leaves and the unit
-- of that mode, and refused with the unit of the other mode, whoever may write it.
pub validate_unix_service_files_at-generate_systemd_unit :
    (mode other : Mode) (contents : List ℕ) (m : Metadata)
    → (validate_unix_service_files_at 0 0
          (some (
            file (record {
              contents = contents;
              metadata = record { uid = 0; gid = 0; mode = 0o755 };
            })))
          (some (file (record { contents = codes (generate_systemd_unit other); metadata = m })))
          (codes (generate_systemd_unit mode))
        ≡ ok tt)
      ↔ ((mode ≡ other) × (m.uid ≡ 0) × (m.gid ≡ 0) × (is_writable_by_owner_only m.mode ≡ true))
unfolding validate_unix_service_files_at is_protected_file is_protected is_trusted_descriptor
validate_unix_service_files_at-generate_systemd_unit mode other contents m =
    let same = unit-eq mode other in
    let iff = mode_eq_iff mode other in rw same (ground (arith, iff.0, iff.1))
