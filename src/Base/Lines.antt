-- ===== src/Base/Lines.antt =====
-- `splitlines`, `split(sep)`, `strip`, `lower` and `startswith` on text as code points.
use Prim.Native.Nat.{ℕ, suc, ◌+◌, ◌-◌, ◌<◌}
use mathlib.Core.Bool.{Bool, true, false, not, ◌&&◌, ◌||◌}
use mathlib.Core.Option.{Option, none, some}
use mathlib.Core.List.{List, [], ◌∷◌, ◌++◌, map, reverse}
use mathlib.Core.Path.{◌≡◌, refl}
use native.Mathlib.Omega.{arith}
use base_line_prox.Base.Lists.{length}
use mathlib.Core.Logic.{inl, inr}
use base_line_prox.Base.Equality.{Bool-cases, leb, if◌then◌else◌, ◌==◌, nat_eq}

-- a character that ends a line
abbrev is_break : ℕ → Bool
is_break c = (leb 10 c && leb c 13) || (leb 28 c && leb c 30) || c == 133 || c == 8232 || c == 8233

-- what `strip` takes away
abbrev pub is_blank : ℕ → Bool
is_blank c =
    (leb 9 c && leb c 13)
    || (leb 28 c && leb c 32)
    || c == 133
    || c == 160
    || c == 5760
    || (leb 8192 c && leb c 8202)
    || c == 8232
    || c == 8233
    || c == 8239
    || c == 8287
    || c == 12288

-- puts a character in front of the first piece
abbrev glue : ℕ → List (List ℕ) → List (List ℕ)
glue c [] = (c ∷ []) ∷ []
glue c (p ∷ ps) = (c ∷ p) ∷ ps

abbrev starts_with_lf : List ℕ → Bool
starts_with_lf [] = false
starts_with_lf (c ∷ s) = c == 10

-- the lines, with an empty one behind a break at the end
pieces : List ℕ → List (List ℕ)
pieces [] = [] ∷ []
pieces (c ∷ s) =
    let rest = pieces s in
    if c == 13 && starts_with_lf s then rest else if is_break c then [] ∷ rest else glue c rest

abbrev drop_end : List (List ℕ) → List (List ℕ)
drop_end [] = []
drop_end ([] ∷ []) = []
drop_end (p ∷ ps) = p ∷ drop_end ps

unfoldable pub split_lines : List ℕ → List (List ℕ)
unfolding pieces
split_lines s = drop_end (pieces s)

-- `s.splitlines(keepends=True)`
unfoldable pub keep_lines : List ℕ → List (List ℕ)
keep_lines [] = []
keep_lines (c ∷ s) =
    let rest = keep_lines s in
    if is_break c && not (c == 13 && starts_with_lf s) then (c ∷ []) ∷ rest else glue c rest

-- `"".join(parts)`
abbrev pub join : List (List ℕ) → List ℕ
join [] = []
join (p ∷ ps) = p ++ join ps

join-glue : (c : ℕ) (ps : List (List ℕ)) → join (glue c ps) ≡ c ∷ join ps
join-glue c [] = refl
join-glue c (p ∷ ps) = refl

pub join-keep_lines : (s : List ℕ) → join (keep_lines s) ≡ s
unfolding keep_lines
join-keep_lines [] = refl
join-keep_lines (c ∷ s) = ground (arith, join-keep_lines s, join-glue c (keep_lines s))

length-glue : (c : ℕ) (ps : List (List ℕ)) → length (glue c ps) ≡ suc (length ps - 1)
length-glue c [] = refl
length-glue c (p ∷ ps) = omega arith

length-drop_end-glue :
    (c : ℕ) (p : List ℕ) (ps : List (List ℕ))
    → length (drop_end (glue c (p ∷ ps))) ≡ suc (length (drop_end (p ∷ ps)) - 1)
length-drop_end-glue c [] [] = refl
length-drop_end-glue c [] (q ∷ ps) = omega arith
length-drop_end-glue c (d ∷ p) ps = omega arith

pieces-cons : (s : List ℕ) → (p : List ℕ) × (ps : List (List ℕ)) × (pieces s ≡ p ∷ ps)
unfolding pieces
pieces-cons [] = ([], [], refl)
pieces-cons (c ∷ s) =
    let (p, ps, q) = pieces-cons s in
    elim (Bool-cases (c == 13 && starts_with_lf s)) [
      | inl a ↦ (p, ps, rw a q)
      | inr a ↦ elim (Bool-cases (is_break c)) [
        | inl b ↦ ([], pieces s, rw (a, b) refl)
        | inr b ↦ (c ∷ p, ps, rw (a, b, q) refl)
      ]
    ]

length-drop_end-cons :
    (ps : List (List ℕ)) → 0 < length ps → length (drop_end ([] ∷ ps)) ≡ suc (length (drop_end ps))
length-drop_end-cons [] h = absurd (omega arith)
length-drop_end-cons (p ∷ ps) h = refl

keep_lines-lf : (s : List ℕ) → starts_with_lf s ≡ true → 0 < length (keep_lines s)
unfolding keep_lines
keep_lines-lf [] h = cc
keep_lines-lf (c ∷ s) h = ground (arith, length-glue c (keep_lines s))

-- Both ways to split give as many lines.
pub length-keep_lines : (s : List ℕ) → length (keep_lines s) ≡ length (split_lines s)
unfolding keep_lines split_lines
length-keep_lines [] = refl
length-keep_lines (c ∷ s) =
    let (p, ps, q) = pieces-cons s in
    ground (
      arith,
      length-keep_lines s,
      keep_lines-lf s,
      length-glue c (keep_lines s),
      q,
      length-drop_end-glue c p ps,
      length-drop_end-cons (pieces s),
    )

-- `s.split(sep)` at one character
unfoldable pub split_at : ℕ → List ℕ → List (List ℕ)
split_at sep [] = [] ∷ []
split_at sep (c ∷ s) = let rest = split_at sep s in if c == sep then [] ∷ rest else glue c rest

-- `s.split()`: the words. `gap` says that no word has begun.
words_from : Bool → List ℕ → List (List ℕ)
words_from gap [] = if gap then [] else [] ∷ []
words_from gap (c ∷ s) =
    let skip = words_from true s in
    let take = words_from false s in
    if is_blank c then (if gap then skip else [] ∷ skip) else glue c take

unfoldable pub words : List ℕ → List (List ℕ)
unfolding words_from
words s = words_from true s

unfoldable pub strip_start : List ℕ → List ℕ
strip_start [] = []
strip_start (c ∷ s) = let rest = strip_start s in if is_blank c then rest else c ∷ s

unfoldable pub strip : List ℕ → List ℕ
unfolding strip_start
strip s = reverse (strip_start (reverse (strip_start s)))

-- `s.lower()`, over ASCII
abbrev lower_code : ℕ → ℕ
lower_code c = if leb b'A' c && leb c b'Z' then c + 32 else c

unfoldable pub lower : List ℕ → List ℕ
lower s = map lower_code s

-- what stands behind a prefix
unfoldable pub strip_codes : List ℕ → List ℕ → Option (List ℕ)
strip_codes [] s = some s
strip_codes (c ∷ p) [] = none
strip_codes (c ∷ p) (d ∷ s) = let rest = strip_codes p s in if c == d then rest else none

abbrev pub is_empty : List ℕ → Bool
is_empty [] = true
is_empty (c ∷ s) = false
