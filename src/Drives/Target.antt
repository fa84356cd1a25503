-- ===== src/Drives/Target.antt =====
-- What a validated device is: never the one that the machine booted from.
use base_line_prox.Base.{
  ℕ, ◌≤◌, ◌≡◌, ◌≢◌, ◌↔◌, refl, ap, sym, ◌∙◌, String, true, false, Option, none, some, List, [], ◌∷◌,
  codes_eq, option_eq, string_eq, arith, contains, ok, Option-cases, inl, inr,
}
use base_line_prox.Base.Dict.{Dict, lookup}
use base_line_prox.Drives.Device.{
  Probe, get_device_serial, get_device_size, get_boot_device_serial, Validated, Limits, is_expected,
  is_within, validate_target_device, validate_known_target, Carrier, load_carrier_identities,
}

-- A device is accepted exactly if its path is no symlink, it is a block device, its serial is among the
-- expected ones where any are given, the serial of the boot device is known and is another, and its size
-- is within the limits; what is returned is its resolved path, its serial and its size.
pub validate_iff :
    (p : Probe) (l : Limits) (path : List ℕ) (v : Validated)
    → (validate_target_device p l path ≡ ok v) ↔ (
        (p.is_link path ≡ false)
        × (p.is_block (p.realpath path) ≡ true)
        × (is_expected l.expected (get_device_serial p (p.realpath path)) ≡ true)
        × ((boot : List ℕ) × (get_boot_device_serial p ≡ some boot)
            × (get_device_serial p (p.realpath path) ≢ some boot))
        × (l.min_size ≤ get_device_size p (p.realpath path))
        × (is_within l.max_size (get_device_size p (p.realpath path)) ≡ true)
        × (v ≡ record {
          path = p.realpath path;
          serial = get_device_serial p (p.realpath path);
          size_bytes = get_device_size p (p.realpath path);
        }))
unfolding validate_target_device
validate_iff p l path v = elim (Option-cases (get_boot_device_serial p)) [
  | inl q ↦
      (λ h. absurd (ground arith), λ (a, b, c, (boot, known, d), e, f, g). absurd (ground arith))
  | inr (boot, q) ↦ (
    λ h. (
      ground arith,
      ground arith,
      ground arith,
      (boot, q, ground arith),
      ground arith,
      ground arith,
      ground arith,
    ),
    λ (a, b, c, (other, known, d), e, f, g). ground arith,
  )
]

lookup-load :
    (name : String) (cs : Dict String Carrier)
    → lookup name (load_carrier_identities cs) ≡ elim (lookup name cs) [
      | none ↦ none
      | some c ↦
          some (record {
            expected = some (c.serial ∷ []);
            min_size = c.min_size;
            max_size = c.max_size;
          })
    ]
unfolding lookup load_carrier_identities
lookup-load name [] = refl
lookup-load name ((other, c) ∷ cs) = ground (arith, lookup-load name cs)

matches : (c v : List ℕ) → contains (c ∷ []) v ≡ true → v ≡ c
matches c v h = ground arith

expected_one :
    (c : List ℕ) (serial : Option (List ℕ))
    → is_expected (some (c ∷ [])) serial ≡ true
    → serial ≡ some c
expected_one c none h = absurd (ground arith)
expected_one c (some v) h = ap some (matches c v h)

-- A target that is validated against the identities that the persistence carrier's manifest records is
-- the carrier of that name: it has the recorded serial and a size between the recorded limits, and it is
-- not the boot device.
pub known_target_is_carrier :
    (p : Probe) (cs : Dict String Carrier) (name : String) (path : List ℕ) (v : Validated)
    → validate_known_target p (load_carrier_identities cs) name path ≡ ok v
    → (c : Carrier) × (lookup name cs ≡ some c)
      × (v.serial ≡ some c.serial)
      × (c.min_size ≤ v.size_bytes)
      × (is_within c.max_size v.size_bytes ≡ true)
      × (get_boot_device_serial p ≢ some c.serial)
unfolding validate_known_target
known_target_is_carrier p cs name path v h = elim (Option-cases (lookup name cs)) [
  | inl q ↦
      let gone : lookup name (load_carrier_identities cs) ≡ none =
        rw (lookup-load name cs, q) refl in
      absurd (ground arith)
  | inr (c, q) ↦
      let l : Limits = record {
        expected = some (c.serial ∷ []);
        min_size = c.min_size;
        max_size = c.max_size;
      } in
      let found : lookup name (load_carrier_identities cs) ≡ some l =
        rw (lookup-load name cs, q) refl in
      let valid : validate_target_device p l path ≡ ok v = ground arith in
      let (link, block, serial, (boot, known, other), least, most, is) =
        (validate_iff p l path v).0 valid in
      let own = expected_one c.serial _ serial in
      (
        c,
        q,
        ap (λ (x : Validated). x.serial) is ∙ own,
        rw is least,
        rw is most,
        λ same. other (own ∙ sym same ∙ known),
      )
]
