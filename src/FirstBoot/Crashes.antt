-- ===== src/FirstBoot/Crashes.antt =====
-- Runs of the first boot that are cut off, one after the other.
use base_line_prox.Base.{ℕ, zero, suc, Bool, true, false, List, [], ◌∷◌, string_eq, option_eq}
use base_line_prox.FirstBoot.Journal.{JournalFile, missing, unreadable, readable, state_eq, Journal}
use base_line_prox.FirstBoot.Machine.{World, Effect, wrote, marked, machine_of}
use base_line_prox.FirstBoot.Stages.{run}

-- what is on disk: the completion marker and the journal
pub record Disk : Type 0 where
  pub marker : Bool
  pub file : JournalFile

abbrev is_marked : Bool → List Effect → Bool
is_marked b [] = b
is_marked b (marked ∷ es) = true
is_marked b (_ ∷ es) = is_marked b es

abbrev file_after : JournalFile → List Effect → JournalFile
file_after f [] = f
file_after f (wrote j ∷ es) = readable j
file_after f (_ ∷ es) = file_after f es

abbrev drop : ℕ → List Effect → List Effect
drop zero es = es
drop (suc n) [] = []
drop (suc n) (e ∷ es) = drop n es

-- A run of which the last effects never happened: the power failed, or the process was killed.
abbrev pub boot : World → ℕ → Disk → Disk
boot w lost d =
    let done = drop lost (machine_of (run w d.marker d.file)).trace in
    record { marker = is_marked d.marker done; file = file_after d.file done }

-- The disks that a machine can have: it starts with neither file, runs are cut off anywhere, and the
-- journal may be lost or spoilt between them.
pub data Reached : Disk → Type 0 where
  fresh : Reached (record { marker = false; file = missing })
  boots : {d : Disk} (w : World) (lost : ℕ) → Reached d → Reached (boot w lost d)
  loses : {d : Disk} → Reached d → Reached (record d { file = missing })
  spoils : {d : Disk} → Reached d → Reached (record d { file = unreadable })
