-- ===== src/Drives/Guard.antt =====
-- baseline/lib/drive_guard.py: what a drive holds, and whether it may be formatted.
-- Text is a list of code points. `lsblk` is what the call of it gave, and the registry's entries of the
-- type `installer_drives` are the list of GUIDs.
use base_line_prox.Base.{
  ℕ, String, Bool, true, false, not, ◌&&◌, ◌||◌, Option, none, some, List, [], ◌∷◌, ◌==◌, codes_eq,
  nat_eq, length, if◌then◌else◌, leb, any, all, keep, contains, map, Result, ok, err,
}
use base_line_prox.Base.Text.{codes}
use base_line_prox.Base.Lines.{split_lines, split_at, strip, lower, strip_codes, is_empty}

pub data Lsblk : Type 0 where
  -- the call raised, or returned a code other than 0 or no text
  unknown : Lsblk
  printed : List ℕ → Lsblk

pub record DriveState : Type 0 where
  pub known : Bool
  pub has_data : Bool
  pub ptuuid : Option (List ℕ)
  pub labels : List (List ℕ)
  pub fstypes : List (List ℕ)

-- NAME, TYPE, FSTYPE, PTUUID and LABEL of a line of `lsblk -nr`
pub record Row : Type 0 where
  pub kind : List ℕ
  pub fstype : List ℕ
  pub ptuuid : List ℕ
  pub label : List ℕ

-- the fields of a line, with empty ones behind; at least two must be there
abbrev row_of : List (List ℕ) → Option Row
row_of (name ∷ kind ∷ fs ∷ pt ∷ label ∷ more) =
    some (record { kind = kind; fstype = fs; ptuuid = pt; label = label })
row_of (name ∷ kind ∷ fs ∷ pt ∷ []) =
    some (record { kind = kind; fstype = fs; ptuuid = pt; label = [] })
row_of (name ∷ kind ∷ fs ∷ []) = some (record { kind = kind; fstype = fs; ptuuid = []; label = [] })
row_of (name ∷ kind ∷ []) = some (record { kind = kind; fstype = []; ptuuid = []; label = [] })
row_of _ = none

-- the loop over the lines: blank ones are skipped, and one with too few fields makes the drive unknown
abbrev read_lines : List (List ℕ) → Option (List Row)
read_lines [] = some []
read_lines (line ∷ lines) =
    let rest = read_lines lines in
    if is_empty (strip line) then rest else elim (row_of (split_at b' ' line)) [
      | none ↦ none
      | some r ↦ elim rest [ none ↦ none | some rs ↦ some (r ∷ rs) ]
    ]

unfoldable pub rows_of : List ℕ → Option (List Row)
rows_of out = read_lines (split_lines out)

abbrev pub is_kind : String → Row → Bool
is_kind name r = r.kind == codes name

abbrev unknown_state : DriveState
unknown_state = record { known = false; has_data = true; ptuuid = none; labels = []; fstypes = [] }

-- `x.strip() or None`
abbrev pub given : List ℕ → Option (List ℕ)
given s = if is_empty (strip s) then none else some (strip s)

abbrev pub known_state : Row → List Row → DriveState
known_state disk rows =
    let others = keep (λ r. not (is_kind "disk" r)) rows in
    let parts = keep (is_kind "part") others in
    record {
      known = true;
      has_data = not (is_empty (strip disk.fstype)) || any (λ r. true) others;
      ptuuid = given disk.ptuuid;
      labels = map (λ (r : Row). strip r.label) parts;
      fstypes = map (λ (r : Row). strip r.fstype) parts;
    }

unfoldable pub read_drive_state : Lsblk → DriveState
unfolding rows_of
read_drive_state unknown = unknown_state
read_drive_state (printed out) = elim (rows_of out) [
  | none ↦ unknown_state
  | some rows ↦ elim (keep (is_kind "disk") rows) [
    | disk ∷ [] ↦ known_state disk rows
    | _ ↦ unknown_state
  ]
]

-- `[A-Z0-9_]`
abbrev is_name_code : ℕ → Bool
is_name_code c = (leb b'A' c && leb c b'Z') || (leb b'0' c && leb c b'9') || c == b'_'

-- `[A-Z0-9_]+` behind a prefix
abbrev has_name_after : String → List ℕ → Bool
has_name_after prefix s = elim (strip_codes (codes prefix) s) [
  | none ↦ false
  | some rest ↦ not (is_empty rest) && all is_name_code rest
]

-- `is_own_label`, of a label that `strip` was applied to
unfoldable pub is_own_label : List ℕ → Bool
is_own_label s =
    s == codes "BASELINE"
    || s == codes "INSTALLER_CACHE"
    || s == codes "SESSION_TEMP"
    || s == codes "SUBSTRATE"
    || s == codes "SUBSTRATE_PERSISTENCE"
    || s == codes "USER"
    || has_name_after "USER_" s
    || has_name_after "APPDATA_" s

unfoldable pub is_baseline_only : DriveState → Bool
unfolding is_own_label
is_baseline_only s =
    if not s.known
    then false
    else if not s.has_data
    then true
    else any (λ l. true) s.labels && all is_own_label s.labels

pub data DataProtectionError : Type 0 where
  not_baseline not_readable not_installed : DataProtectionError

unfoldable pub require_baseline_drive : Lsblk → Result DataProtectionError (Unit {0})
unfolding is_baseline_only read_drive_state
require_baseline_drive d = if is_baseline_only (read_drive_state d) then ok tt else err not_baseline

-- `[0-9a-f]{n}` and then the rest
abbrev is_hex : ℕ → Bool
is_hex c = (leb b'0' c && leb c b'9') || (leb b'a' c && leb c b'f')

abbrev group_lengths : List ℕ
group_lengths = 8 ∷ 4 ∷ 4 ∷ 4 ∷ 12 ∷ []

abbrev is_group : ℕ → List ℕ → Bool
is_group n s = length s == n && all is_hex s

abbrev are_groups : List ℕ → List (List ℕ) → Bool
are_groups [] [] = true
are_groups (n ∷ ns) (g ∷ gs) = is_group n g && are_groups ns gs
are_groups _ _ = false

-- `normalize_guid`; `none` stands for its ValueError
unfoldable pub normalize_guid : List ℕ → Option (List ℕ)
normalize_guid value =
    let guid = lower (strip value) in
    if are_groups group_lengths (split_at b'-' guid) then some guid else none

unfoldable pub is_installer_uuid : List (List ℕ) → List ℕ → Bool
unfolding normalize_guid
is_installer_uuid registered guid = elim (normalize_guid guid) [
  | none ↦ false
  | some g ↦ contains registered g
]

abbrev pub carries_installer_uuid : List (List ℕ) → DriveState → Bool
carries_installer_uuid registered s = elim s.ptuuid [
  | none ↦ false
  | some guid ↦ is_installer_uuid registered guid
]

unfoldable pub require_may_format : List (List ℕ) → Lsblk → Result DataProtectionError (Unit {0})
unfolding read_drive_state is_installer_uuid
require_may_format registered d =
    let s = read_drive_state d in
    if not s.has_data
    then ok tt
    else if s.known && carries_installer_uuid registered s
    then ok tt
    else if not s.known
    then err not_readable
    else err not_installed

pub data StampResult : Type 0 where
  unreadable already_carries foreign_data no_identifier not_taken stamped : StampResult

abbrev pub is_ok : StampResult → Bool
is_ok r = elim r [ already_carries ↦ true | stamped ↦ true | _ ↦ false ]

-- `register_installer_uuid`: an entry that is there is replaced
abbrev register : List (List ℕ) → List ℕ → List (List ℕ)
register registered guid = elim (normalize_guid guid) [
  | none ↦ registered
  | some g ↦ if contains registered g then registered else g ∷ registered
]

-- What the stamp read before and after, whether `sgdisk` returned 0, and the fresh GUID; the result is
-- the registry and what is reported.
unfoldable pub stamp_installer_identity :
    List (List ℕ) → Lsblk → Lsblk → Bool → List ℕ → List (List ℕ) × StampResult
unfolding read_drive_state is_installer_uuid is_baseline_only normalize_guid
stamp_installer_identity registered before after sets guid =
    let s = read_drive_state before in
    let t = read_drive_state after in
    if not s.known
    then (registered, unreadable)
    else if carries_installer_uuid registered s
    then (registered, already_carries)
    else if s.has_data && not (is_baseline_only s)
    then (registered, foreign_data)
    else if not sets
    then (registered, no_identifier)
    else if not (t.known && elim t.ptuuid [ none ↦ false | some p ↦ lower p == guid ])
    then (registered, not_taken)
    else (register registered guid, stamped)
