-- ===== src/Base/Text.antt =====
-- Text as code points, for the places where the program looks inside a string.
use Prim.Native.Char.{code}
use Prim.Native.String.append
use Prim.Native.String.{String, ◌++◌ as ◌<>◌}
use Prim.Native.Nat.{ℕ, zero, suc, ◌+◌, ◌-◌, ◌/◌, ◌%◌}
use mathlib.Core.Bool.{Bool, true, false, ◌&&◌, ◌||◌}
use mathlib.Core.Option.{Option, none, some}
use mathlib.Core.Path.{◌≡◌}
use native.Mathlib.Omega.{arith}
use mathlib.Core.List.{List, [], ◌∷◌, map, reverse}
use base_line_prox.Base.Equality.{leb, ltb, ◌==◌, nat_eq, if◌then◌else◌}

abbrev pub codes : String → List ℕ
codes String.[] = []
codes (String.◌∷◌ c s) = code c ∷ codes s

-- `c.upper()`, over ASCII
abbrev pub upper_code : ℕ → ℕ
upper_code c = if leb b'a' c && leb c b'z' then c - 32 else c

abbrev pub upper : List ℕ → List ℕ
upper = map upper_code

-- The separators of `str.split()`, over ASCII: tab to carriage return, the four file separators,
-- and the space.
abbrev is_space : ℕ → Bool
is_space c = (leb 9 c && leb c 13) || (leb 28 c && leb c 32)

-- `" ".join(s.split())`. `gap` says that a separator has been read since the last word, and
-- `started` that a word has been read.
squeeze : Bool → Bool → List ℕ → List ℕ
squeeze gap started [] = []
squeeze gap started (c ∷ s) =
    let skip = squeeze true started s in
    let take = squeeze false true s in
    if is_space c then skip else if gap && started then b' ' ∷ c ∷ take else c ∷ take

-- `" ".join(s.split())`
unfoldable pub join_words : List ℕ → List ℕ
unfolding squeeze
join_words = squeeze false false

take_codes : ℕ → List ℕ → List ℕ
take_codes zero s = []
take_codes (suc n) [] = []
take_codes (suc n) (c ∷ s) = c ∷ take_codes n s

-- `s[-n:]`
unfoldable pub last : ℕ → List ℕ → List ℕ
unfolding take_codes
last n s = reverse (take_codes n (reverse s))

-- The decimal digits of a number below 1000, which is all that the program prints here.
unfoldable pub show_small : ℕ → List ℕ
show_small n =
    if ltb n 10
    then (b'0' + n) ∷ []
    else if ltb n 100
    then (b'0' + n / 10) ∷ (b'0' + n % 10) ∷ []
    else (b'0' + n / 100) ∷ (b'0' + n / 10 % 10) ∷ (b'0' + n % 10) ∷ []

-- `s[len(prefix):]` if `s.startswith(prefix)`
unfoldable pub strip_prefix : String → String → Option String
strip_prefix String.[] s = some s
strip_prefix (String.◌∷◌ c p) String.[] = none
strip_prefix (String.◌∷◌ c p) (String.◌∷◌ d s) =
    let rest = strip_prefix p s in if code c == code d then rest else none

pub strip_prefix-append : (p s : String) → strip_prefix p (p <> s) ≡ some s
unfolding strip_prefix
strip_prefix-append String.[] s = rw append.nil
strip_prefix-append (String.◌∷◌ c p) s = rw append.cons (ground (arith, strip_prefix-append p s))
