-- ===== src/Drives/Tests.antt =====
-- A drive that Proxmox uses, one that the installer made, a carrier behind a bridge, and the theorems at
-- them.
use base_line_prox.Base.{
  ℕ, ◌≤◌, ◌≡◌, ◌≢◌, ◌⊎◌, ◌↔◌, refl, String, true, false, not, none, some, List, [], ◌∷◌, ◌++◌, keep,
  codes_eq, ◌==◌, if◌then◌else◌, nat_eq, string_eq, option_eq, ok, err,
}
use base_line_prox.Base.Dict.{Dict, lookup}
use base_line_prox.Base.Text.{codes}
use base_line_prox.Base.Lines.{split_lines, split_at, strip, lower, strip_codes}
use base_line_prox.Drives.Guard.{
  Lsblk, printed, Row, is_kind, given, is_installer_uuid, require_may_format,
  require_baseline_drive, not_baseline, not_installed, is_ok, stamp_installer_identity,
}
use base_line_prox.Drives.Format.{IsDisk, may_format_only, cannot_launder}
use base_line_prox.Drives.Device.{
  Probe, get_device_serial, get_device_size, get_boot_device_serial, Validated, Limits, is_expected,
  is_within, validate_target_device, validate_known_target, Carrier, load_carrier_identities,
}
use base_line_prox.Drives.Target.{validate_iff}

abbrev guid : List ℕ
guid = codes "01234567-89ab-4def-8123-456789abcdef"

abbrev made : Lsblk
made = printed (
    codes "sdb disk  01234567-89ab-4def-8123-456789abcdef "
    ++ 10 ∷ codes "sdb1 part vfat 01234567-89ab-4def-8123-456789abcdef BASELINE"
    ++ 10 ∷ [])

abbrev foreign : Lsblk
foreign = printed (codes "sda disk   " ++ 10 ∷ codes "sda3 part LVM2_member  " ++ 10 ∷ [])

may : require_may_format (guid ∷ []) made ≡ ok tt
unfolding require_may_format split_lines nat_eq strip split_at codes_eq lower
may = refl

refused : require_may_format (guid ∷ []) foreign ≡ err not_installed
unfolding require_may_format split_lines nat_eq strip split_at codes_eq lower
refused = refl

foreign_refused : require_baseline_drive foreign ≡ err not_baseline
unfolding require_baseline_drive split_lines nat_eq strip split_at codes_eq strip_codes
foreign_refused = refl

may_format_only_example :
    (disk : Row) × (rows : List Row) × IsDisk made disk rows
    × (((strip disk.fstype ≡ []) × (keep (λ r. not (is_kind "disk" r)) rows ≡ []))
        ⊎ ((g : List ℕ) × (given disk.ptuuid ≡ some g) × (is_installer_uuid (guid ∷ []) g ≡ true)))
may_format_only_example = may_format_only (guid ∷ []) made may

cannot_launder_example :
    ((stamp_installer_identity (guid ∷ []) foreign made true guid).0 ≡ guid ∷ [])
    × (is_ok (stamp_installer_identity (guid ∷ []) foreign made true guid).1 ≡ false)
cannot_launder_example =
    cannot_launder (guid ∷ []) foreign made true guid (λ h. cc (h, refused)) foreign_refused

abbrev carrier : Carrier
carrier = record { serial = codes "S6WRNS0W"; min_size = 1000; max_size = some 1000000 }

abbrev bench : Probe
bench = record {
  findmnt = codes "/dev/sda2" ++ 10 ∷ [];
  pkname = λ path. codes "sda" ++ 10 ∷ [];
  udevadm = λ path.
      if path == codes "/dev/sdb"
      then codes "DEVTYPE=disk" ++ 10 ∷ codes "ID_SERIAL_SHORT=S6WRNS0W" ++ 10 ∷ []
      else codes "ID_SERIAL_SHORT=BOOT1" ++ 10 ∷ [];
  is_link = λ path. false;
  realpath = λ path. path;
  is_block = λ path. true;
  sectors = λ name. 4;
}

abbrev found : Validated
found = record { path = codes "/dev/sdb"; serial = some carrier.serial; size_bytes = 2048 }

abbrev limits : Limits
limits = record { expected = none; min_size = 1000; max_size = none }

validate_iff_example : (validate_target_device bench limits (codes "/dev/sdb") ≡ ok found) ↔ (
    (bench.is_link (codes "/dev/sdb") ≡ false)
    × (bench.is_block (codes "/dev/sdb") ≡ true)
    × (is_expected none (get_device_serial bench (codes "/dev/sdb")) ≡ true)
    × ((boot : List ℕ) × (get_boot_device_serial bench ≡ some boot)
        × (get_device_serial bench (codes "/dev/sdb") ≢ some boot))
    × (1000 ≤ get_device_size bench (codes "/dev/sdb"))
    × (is_within none (get_device_size bench (codes "/dev/sdb")) ≡ true)
    × (found ≡ record {
      path = codes "/dev/sdb";
      serial = get_device_serial bench (codes "/dev/sdb");
      size_bytes = get_device_size bench (codes "/dev/sdb");
    }))
validate_iff_example = validate_iff bench limits (codes "/dev/sdb") found

abbrev carriers : Dict String Carrier
carriers = ("persistence", carrier) ∷ []

validates :
    validate_known_target bench (load_carrier_identities carriers) "persistence" (codes "/dev/sdb")
    ≡ ok found
unfolding validate_known_target load_carrier_identities lookup string_eq split_lines strip split_at
    strip_codes codes_eq nat_eq option_eq
validates = refl
