-- ===== src/Interfaces/Frame.antt =====
-- What a rewriting changes: one range of lines of one file.
use base_line_prox.Base.{
  ℕ, ◌≡◌, ◌⊎◌, Bool, true, false, not, ◌&&◌, none, some, List, ◌++◌, take, drop, ◌==◌, codes_eq,
  if◌then◌else◌, Result, ok, err,
}
use base_line_prox.Base.Text.{codes}
use base_line_prox.Base.Dict.{Dict, lookup}
use base_line_prox.Base.Lines.{keep_lines, join}
use base_line_prox.Interfaces.Data.{Text, Name, Stanza, confidently_parsed}
use base_line_prox.Interfaces.Parser.{parse_files}
use base_line_prox.Interfaces.Located.{IsLocated}
use base_line_prox.Interfaces.Rewrite.{Refusal, dhcp_line, dhcp_block}

-- Behind the lines before `m` and in front of those from `n` on, `new` stands in the file for what stood
-- there, and every other file is the same.
pub record Replaces (files next : Dict Text Text) (path : Text) (m n : ℕ) (new : Text)
    : Type 0 where
  pub text : Text
  pub removed : Text
  pub is_read : lookup path files ≡ some text
  pub parts : text ≡ join (take m (keep_lines text)) ++ (removed ++ join (drop n (keep_lines text)))
  pub written :
      (p : Text)
      → lookup p next ≡ (
          if p == path
          then some (join (take m (keep_lines text)) ++ (new ++ join (drop n (keep_lines text))))
          else lookup p files)

-- what a rewriting needs: a parse that is confident, and a stanza of the name that passes the test
abbrev pub Refuses : Dict Text Text → (Stanza → Bool) → Name → Type 0
Refuses files test name =
    (confidently_parsed (parse_files files) ≡ false)
    ⊎ (lookup name (parse_files files).stanzas ≡ none)
    ⊎ ((s : Stanza) × (lookup name (parse_files files).stanzas ≡ some s) × (test s ≡ false))

-- the stanza that is rewritten, and where it stands
pub record Finds (files : Dict Text Text) (test : Stanza → Bool) (name : Name) (s : Stanza)
    : Type 0 where
  pub is_confident : confidently_parsed (parse_files files) ≡ true
  pub finds : lookup name (parse_files files).stanzas ≡ some s
  pub passes : test s ≡ true
  pub located : IsLocated files name s

abbrev pub is_inet_static : Stanza → Bool
is_inet_static s = s.family == codes "inet" && s.method == codes "static"

abbrev pub is_other_static : Stanza → Bool
is_other_static s = not (s.family == codes "inet") && s.method == codes "static"

abbrev pub IsReset : Dict Text Text → Name → Result Refusal (Dict Text Text) → Type 0
IsReset files name (err e) = Refuses files is_inet_static name
IsReset files name (ok next) =
    (s : Stanza) × (ending : Text) × Finds files is_inet_static name s
    × Replaces files next s.source_path s.line_start s.line_end (dhcp_line name ending)

abbrev pub IsAdded : Dict Text Text → Name → Result Refusal (Dict Text Text) → Type 0
IsAdded files name (err e) = Refuses files is_other_static name
IsAdded files name (ok next) =
    (s : Stanza) × (ending : Text) × Finds files is_other_static name s
    × Replaces files next s.source_path s.line_end s.line_end (dhcp_block name ending)
