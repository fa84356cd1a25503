-- ===== src/Drives/Device.antt =====
-- baseline/lib/physical_device_safety.py: the block devices that a destructive helper accepts.
-- Text is a list of code points. What the runner's commands print and what the file system says of a
-- path are the record `Probe`; the number of sectors is what /sys/class/block/<name>/size holds.
use base_line_prox.Base.{
  ℕ, ◌*◌, String, Bool, true, false, not, ◌||◌, Option, none, some, List, [], ◌∷◌, ◌++◌, ◌==◌,
  codes_eq, option_eq, nat_eq, string_eq, if◌then◌else◌, leb, ltb, length, contains, Result, ok,
  err, guard, ◌>>=◌, ◌>>◌,
}
use base_line_prox.Base.Dict.{Dict, lookup}
use base_line_prox.Base.Text.{codes}
use base_line_prox.Base.Lines.{split_lines, split_at, strip, strip_codes, is_empty}

pub record Probe : Type 0 where
  -- `findmnt / -no SOURCE`
  pub findmnt : List ℕ
  -- `lsblk -no PKNAME`
  pub pkname : List ℕ → List ℕ
  -- `udevadm info --query=property`
  pub udevadm : List ℕ → List ℕ
  pub is_link : List ℕ → Bool
  pub realpath : List ℕ → List ℕ
  pub is_block : List ℕ → Bool
  pub sectors : List ℕ → ℕ

-- `_parse_udevadm_property`, over the lines
abbrev first_property : List ℕ → List (List ℕ) → Option (List ℕ)
first_property prefix [] = none
first_property prefix (line ∷ lines) = elim (strip_codes prefix line) [
  | some value ↦ some value
  | none ↦ first_property prefix lines
]

unfoldable pub parse_property : List ℕ → List ℕ → Option (List ℕ)
parse_property key output = first_property (key ++ codes "=") (split_lines output)

unfoldable pub get_device_serial : Probe → List ℕ → Option (List ℕ)
unfolding parse_property
get_device_serial p path = parse_property (codes "ID_SERIAL_SHORT") (p.udevadm path)

unfoldable pub get_usb_bridge_model : Probe → List ℕ → Option (List ℕ)
unfolding parse_property
get_usb_bridge_model p path = parse_property (codes "ID_USB_MODEL") (p.udevadm path)

abbrev last_piece : List (List ℕ) → List ℕ
last_piece [] = []
last_piece (s ∷ []) = s
last_piece (s ∷ t ∷ ss) = last_piece (t ∷ ss)

-- the name behind the last slash
abbrev basename : List ℕ → List ℕ
basename path = last_piece (split_at b'/' path)

unfoldable pub get_device_size : Probe → List ℕ → ℕ
get_device_size p path = p.sectors (basename path) * 512

abbrev dev : List ℕ
dev = codes "/dev/"

abbrev is_device : List ℕ → Bool
is_device path = elim (strip_codes dev path) [ none ↦ false | some rest ↦ true ]

-- a serial that is not blank
abbrev usable : Option (List ℕ) → Option (List ℕ)
usable none = none
usable (some s) = if is_empty (strip s) then none else some s

unfoldable pub get_boot_device_serial : Probe → Option (List ℕ)
unfolding get_device_serial
get_boot_device_serial p =
    let root = strip p.findmnt in
    let pkname = strip (p.pkname root) in
    if is_empty root || not (length (split_lines root) == 1) || not (is_device root)
    then none
    else if ltb 1 (length (split_lines pkname))
    then none
    else usable (get_device_serial p (if is_empty pkname then root else dev ++ pkname))

pub data DeviceError : Type 0 where
  symlink not_block serial_refused boot_unknown is_boot_device too_small too_large : DeviceError
  not_listed : DeviceError

pub record Validated : Type 0 where
  pub path : List ℕ
  pub serial : Option (List ℕ)
  pub size_bytes : ℕ

-- `expected_serial` as the list of serials that are allowed, one if it is a string
pub record Limits : Type 0 where
  pub expected : Option (List (List ℕ))
  pub min_size : ℕ
  pub max_size : Option ℕ

abbrev pub is_expected : Option (List (List ℕ)) → Option (List ℕ) → Bool
is_expected none serial = true
is_expected (some allowed) none = false
is_expected (some allowed) (some serial) = contains allowed serial

abbrev pub is_within : Option ℕ → ℕ → Bool
is_within none size = true
is_within (some most) size = leb size most

unfoldable pub validate_target_device : Probe → Limits → List ℕ → Result DeviceError Validated
unfolding get_device_serial get_boot_device_serial get_device_size
validate_target_device p l path = do
  guard (not (p.is_link path)) symlink
  let resolved = p.realpath path
  guard (p.is_block resolved) not_block
  let serial = get_device_serial p resolved
  guard (is_expected l.expected serial) serial_refused
  boot ← elim (get_boot_device_serial p) [ none ↦ err boot_unknown | some b ↦ ok b ]
  guard (not (serial == some boot)) is_boot_device
  let size = get_device_size p resolved
  guard (not (ltb size l.min_size)) too_small
  guard (is_within l.max_size size) too_large
  ok (record { path = resolved; serial = serial; size_bytes = size })

unfoldable pub validate_known_target :
    Probe → Dict String Limits → String → List ℕ → Result DeviceError Validated
unfolding validate_target_device
validate_known_target p targets name path = elim (lookup name targets) [
  | none ↦ err not_listed
  | some l ↦ validate_target_device p l path
]

-- a carrier's identity as the manifest records it
pub record Carrier : Type 0 where
  pub serial : List ℕ
  pub min_size : ℕ
  pub max_size : Option ℕ

unfoldable pub load_carrier_identities : Dict String Carrier → Dict String Limits
load_carrier_identities [] = []
load_carrier_identities ((name, c) ∷ cs) =
    (name, record { expected = some (c.serial ∷ []); min_size = c.min_size; max_size = c.max_size })
    ∷ load_carrier_identities cs
