-- ===== src/Repair/Safe.antt =====
-- What holds of the host at each point of a repair: either nothing was changed and no rollback is armed,
-- or the armed rollback has what it needs to restore the files.
use base_line_prox.Base.{
  ◌≡◌, ◌⊎◌, refl, true, false, not, none, some, List, [], ◌∷◌, ◌==◌, codes_eq, nat_eq, arith,
  contains, keep, Eq, Result, ok, err,
}
use base_line_prox.Base.Dict.{Dict, keys, Entries}
use base_line_prox.Interfaces.Data.{Text}
use base_line_prox.Interfaces.Closure.{content}
use base_line_prox.Repair.Host.{
  BackedUp, PendingManifest, Host, World, Stop, refused, crashed, M, after, ◌>>=◌,
}
use base_line_prox.Repair.Attempts.{rollback_unit_name, attempt_at}
use base_line_prox.Repair.Backups.{IsSaved}

pub contains-keep : (xs : List Text) (x : Text) → contains (keep (λ y. not (y == x)) xs) x ≡ false
contains-keep [] x = refl
contains-keep (y ∷ xs) x = ground (arith, contains-keep xs x)

-- what holds behind a step: of its value and the host, or of what it raises and the host
module _ {D : Type 0} where
  abbrev pub Holds :
      {A : Type 0}
      → (A → Host D → Type 0)
      → (Stop → Host D → Type 0)
      → Result Stop A × Host D
      → Type 0
  Holds P E (ok a, h) = P a h
  Holds P E (err e, h) = E e h

  Holds-after :
      {A B : Type 0} (P : A → Host D → Type 0) (Q : B → Host D → Type 0)
      (E : Stop → Host D → Type 0) (f : A → M D B) (r : Result Stop A × Host D)
      → Holds P E r
      → ((a : A) (h : Host D) → P a h → Holds Q E (f a h))
      → Holds Q E (after f r)
  Holds-after P Q E f (ok a, h) first next = next a h first
  Holds-after P Q E f (err e, h) first next = first

  pub Holds-bind :
      {A B : Type 0} (P : A → Host D → Type 0) (Q : B → Host D → Type 0)
      (E : Stop → Host D → Type 0) (m : M D A) (f : A → M D B) (h : Host D)
      → Holds P E (m h)
      → ((a : A) (h : Host D) → P a h → Holds Q E (f a h))
      → Holds Q E ((m >>= f) h)
  Holds-bind P Q E m f h first next = Holds-after P Q E f (m h) first next

  pub Holds-map :
      {A : Type 0} (P Q : A → Host D → Type 0) (E F : Stop → Host D → Type 0)
      (r : Result Stop A × Host D)
      → Holds P E r
      → ((a : A) (h : Host D) → P a h → Q a h)
      → ((s : Stop) (h : Host D) → E s h → F s h)
      → Holds Q F r
  Holds-map P Q E F (ok a, h) holds f g = f a h holds
  Holds-map P Q E F (err s, h) holds f g = g s h holds

module _ {D : Type 0} ⦃e : Eq D⦄ (w : World D) (id : Text) where
  -- no rollback is armed, and nothing is pending
  abbrev pub IsIdle : Host D → Type 0
  IsIdle h = (contains h.timers (rollback_unit_name id) ≡ false) × (h.pending ≡ none)

  -- the rollback is armed, and the pending manifest names the attempt
  abbrev pub IsArmed : Host D → Type 0
  IsArmed h =
      (contains h.timers (rollback_unit_name id) ≡ true)
      × ((p : PendingManifest) × (h.pending ≡ some p) × (p.attempt_id ≡ id))

  -- every path has what `base` has there, a missing file counting as an empty one
  abbrev pub Has : Dict Text Text → Host D → Type 0
  Has base h = (k : Text) → content k h.files ≡ content k base

  -- the paths that a manifest leaves out have what `base` has
  abbrev pub HasElsewhere : Dict Text Text → Dict Text (BackedUp D) → Host D → Type 0
  HasElsewhere base manifest h =
      (k : Text) → (contains (keys manifest) k ≡ true) ⊎ (content k h.files ≡ content k base)

  -- The attempt's backups and manifest bring every path to what `base` has.
  pub record CanRollBack (base : Dict Text Text) (h : Host D) : Type 0 where
    pub manifest : Dict Text (BackedUp D)
    pub in_attempt : (attempt_at id h).manifest ≡ some manifest
    pub saved : Entries (IsSaved w base (attempt_at id h).backups) manifest
    pub elsewhere : HasElsewhere base manifest h
    pub is_armed : IsArmed h

  -- only the log differs
  abbrev pub SameBut : Host D → Host D → Type 0
  SameBut h next =
      (next.files ≡ h.files)
      × (next.attempts ≡ h.attempts)
      × (next.pending ≡ h.pending)
      × (next.timers ≡ h.timers)

  -- what a repair that stops leaves behind, where `old` was there first, and `now` after what others did
  abbrev pub IsLeft : Dict Text Text → Dict Text Text → Stop → Host D → Type 0
  IsLeft old now (refused code) h = (IsIdle h × (Has old h ⊎ Has now h)) ⊎ CanRollBack now h
  IsLeft old now crashed h = (IsIdle h × Has old h) ⊎ (IsArmed h × Has now h) ⊎ CanRollBack now h
