-- ===== src/Base/Sorting.antt =====
-- `sorted` on strings: by code points.
use Prim.Native.Nat.{ℕ}
use Prim.Native.String.{String}
use mathlib.Core.Bool.{Bool, true, false, ◌&&◌, ◌||◌}
use mathlib.Core.List.{List, [], ◌∷◌}
use base_line_prox.Base.Equality.{ltb, if◌then◌else◌, ◌==◌, nat_eq, codes_eq, contains, Distinct}
use base_line_prox.Base.Lists.{All}
use mathlib.Core.Path.{◌≡◌, refl, ◌∙◌}
use native.Mathlib.Omega.{arith}
use base_line_prox.Base.Text.{codes}

abbrev pub codes_le : List ℕ → List ℕ → Bool
codes_le [] t = true
codes_le (c ∷ s) [] = false
codes_le (c ∷ s) (d ∷ t) = ltb c d || (c == d && codes_le s t)

abbrev pub insert_sorted : String → List String → List String
insert_sorted s [] = s ∷ []
insert_sorted s (t ∷ ts) =
    let rest = insert_sorted s ts in if codes_le (codes s) (codes t) then s ∷ t ∷ ts else t ∷ rest

unfoldable pub sorted : List String → List String
sorted [] = []
sorted (s ∷ ss) = insert_sorted s (sorted ss)

abbrev insert_text : List ℕ → List (List ℕ) → List (List ℕ)
insert_text s [] = s ∷ []
insert_text s (t ∷ ts) =
    let rest = insert_text s ts in if codes_le s t then s ∷ t ∷ ts else t ∷ rest

-- `sorted` on lists of code points
unfoldable pub sort_texts : List (List ℕ) → List (List ℕ)
sort_texts [] = []
sort_texts (s ∷ ss) = insert_text s (sort_texts ss)

insert_text-All {κ} :
    (P : List ℕ → Type κ) (s : List ℕ) (ts : List (List ℕ))
    → P s
    → All P ts
    → All P (insert_text s ts)
insert_text-All P s [] h k = (h, tt)
insert_text-All P s (t ∷ ts) h k = ground (arith, insert_text-All P s ts h k.1)

pub All-sort_texts {κ} :
    (P : List ℕ → Type κ) (ts : List (List ℕ)) → All P ts → All P (sort_texts ts)
unfolding sort_texts
All-sort_texts P [] h = tt
All-sort_texts P (t ∷ ts) h = insert_text-All P t (sort_texts ts) h.0 (All-sort_texts P ts h.1)

contains-insert_text :
    (s : List ℕ) (ts : List (List ℕ)) (x : List ℕ)
    → contains (insert_text s ts) x ≡ (x == s || contains ts x)
contains-insert_text s [] x = refl
contains-insert_text s (t ∷ ts) x = ground (arith, contains-insert_text s ts x)

pub contains-sort_texts :
    (ts : List (List ℕ)) (x : List ℕ) → contains (sort_texts ts) x ≡ contains ts x
unfolding sort_texts
contains-sort_texts [] x = refl
contains-sort_texts (t ∷ ts) x =
    ground (arith, contains-insert_text t (sort_texts ts) x, contains-sort_texts ts x)

Distinct-insert_text :
    (s : List ℕ) (ts : List (List ℕ))
    → contains ts s ≡ false
    → Distinct ts
    → Distinct (insert_text s ts)
Distinct-insert_text s [] h k = (refl, tt)
Distinct-insert_text s (t ∷ ts) h k =
    ground (arith, Distinct-insert_text s ts (ground arith) k.1, contains-insert_text s ts t)

pub Distinct-sort_texts : (ts : List (List ℕ)) → Distinct ts → Distinct (sort_texts ts)
unfolding sort_texts
Distinct-sort_texts [] h = tt
Distinct-sort_texts (t ∷ ts) h =
    Distinct-insert_text t (sort_texts ts) (contains-sort_texts ts t ∙ h.0)
      (Distinct-sort_texts ts h.1)
