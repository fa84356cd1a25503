-- ===== src/Interfaces/Recognize.antt =====
-- The regular expressions of baseline/lib/ifnet_config.py, as functions of one line with no line break:
-- each group that they capture, where they match.
use base_line_prox.Base.{
  Bool, true, false, ◌||◌, Option, none, some, List, [], ◌∷◌, ◌==◌, codes_eq, nat_eq, if◌then◌else◌,
  any,
}
use base_line_prox.Base.Text.{codes, last}
use base_line_prox.Base.Lines.{words, strip, strip_start, strip_codes, is_blank, is_empty}
use base_line_prox.Interfaces.Data.{Text, Name}

-- of the words of a line
abbrev header_words : List Text → Option (Name × Text × Text)
header_words (k ∷ name ∷ family ∷ method ∷ []) =
    if k == codes "iface" then some (name, family, method) else none
header_words _ = none

-- `IFACE_RE`
unfoldable pub iface_header : Text → Option (Name × Text × Text)
iface_header line = header_words (words line)

abbrev two_words : Text → List Text → Option Text
two_words keyword (k ∷ target ∷ []) = if k == keyword then some target else none
two_words keyword _ = none

-- `SOURCE_RE` and `SOURCE_DIR_RE`, which differ in the keyword
unfoldable pub source_target : Text → Option Text
source_target line = two_words (codes "source") (words line)

unfoldable pub source_directory : Text → Option Text
source_directory line = two_words (codes "source-directory") (words line)

-- `\s+(.+)$`: a blank, and at least one character behind it
abbrev blank_and_more : Text → Bool
blank_and_more (c ∷ d ∷ s) = is_blank c
blank_and_more _ = false

-- `AUTO_RE` and `HOTPLUG_RE`, which differ in the keyword
abbrev starts_with_keyword : Text → Text → Bool
starts_with_keyword keyword line = elim (strip_codes keyword (strip_start line)) [
  | none ↦ false
  | some rest ↦ blank_and_more rest
]

unfoldable pub is_auto : Text → Bool
unfolding strip_codes strip_start
is_auto line =
    starts_with_keyword (codes "auto") line || starts_with_keyword (codes "allow-hotplug") line

-- the first word, and what stands behind it
unfoldable pub split_word : Text → Text × Text
split_word [] = ([], [])
split_word (c ∷ s) =
    let rest = split_word s in if is_blank c then ([], c ∷ s) else (c ∷ rest.0, rest.1)

-- `\s+(.+?)\s*$`: behind the first blank. Where only blanks are left, the last one is the value.
abbrev option_value : Text → Option Text
option_value [] = none
option_value (g ∷ []) = none
option_value (g ∷ c ∷ s) = some (if is_empty (strip (c ∷ s)) then last 1 (c ∷ s) else strip (c ∷ s))

abbrev option_words : Text × Text → Option (Text × Text)
option_words (key, rest) =
    if is_empty key
    then none
    else elim (option_value rest) [ none ↦ none | some value ↦ some (key, value) ]

-- `OPTION_RE`
unfoldable pub option_line : Text → Option (Text × Text)
unfolding split_word strip strip_start last
option_line [] = none
option_line (c ∷ s) = if is_blank c then option_words (split_word (strip_start s)) else none

-- `COMMENT_OR_BLANK_RE`
unfoldable pub is_comment_or_blank : Text → Bool
unfolding strip_start
is_comment_or_blank line = elim (strip_start line) [ [] ↦ true | c ∷ s ↦ c == b'#' ]

-- `_has_glob_metachars`
unfoldable pub has_glob_metachars : Text → Bool
has_glob_metachars = any (λ c. c == b'*' || c == b'?' || c == b'[')
