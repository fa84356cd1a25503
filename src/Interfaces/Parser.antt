-- ===== src/Interfaces/Parser.antt =====
-- `_parse_text` and `parse_files` of baseline/lib/ifnet_config.py. The loop variable `current` and the
-- targets to include stand in a record beside the configuration.
use base_line_prox.Base.{
  ℕ, suc, ◌+◌, ◌||◌, Option, none, some, List, [], ◌∷◌, ◌++◌, codes_eq, if◌then◌else◌,
}
use base_line_prox.Base.Dict.{Dict, insert, has_key}
use base_line_prox.Base.Lines.{split_lines, strip, is_empty}
use base_line_prox.Interfaces.Data.{Text, Name, Stanza, UnparsedLine, ParsedConfig}
use base_line_prox.Interfaces.Recognize.{
  iface_header, source_target, source_directory, is_auto, option_line, is_comment_or_blank,
  has_glob_metachars,
}

pub record Parsing : Type 0 where
  pub config : ParsedConfig
  pub current : Option Stanza
  pub includes : List Text

abbrev pub store_stanza : Stanza → ParsedConfig → ParsedConfig
store_stanza s cfg =
    if has_key s.name cfg.stanzas
    then record cfg { duplicate_names = cfg.duplicate_names ++ s.name ∷ [] }
    else record cfg { stanzas = insert s.name s cfg.stanzas; order = cfg.order ++ s.name ∷ [] }

unfoldable pub close_current : ℕ → Parsing → Parsing
close_current i p = elim p.current [
  | none ↦ p
  | some s ↦ record p { config = store_stanza (record s { line_end = i }) p.config; current = none }
]

abbrev pub new_stanza : Text → ℕ → Text → Name × Text × Text → Stanza
new_stanza path i line (name, family, method) = record {
  name = name;
  family = family;
  method = method;
  options = [];
  lines = line ∷ [];
  source_path = path;
  line_start = i;
  line_end = i + 1;
}

abbrev pub add_option : Text → Text × Text → Stanza → Stanza
add_option line (key, value) s = record s {
  options = insert key value s.options;
  lines = s.lines ++ line ∷ [];
}

module _ (path : Text) where
  abbrev unparsed : ℕ → Text → UnparsedLine
  unparsed i line = record { path = path; line_number = i; text = line }

  unfoldable pub parse_source : ℕ → Text → Parsing → Parsing
  parse_source i target p =
      if has_glob_metachars target
      then record p {
        config = record p.config {
          glob_source_targets = p.config.glob_source_targets ++ unparsed i target ∷ [];
        };
      }
      else record p { includes = p.includes ++ target ∷ [] }

  unfoldable pub parse_top_level : ℕ → Text → Parsing → Parsing
  unfolding parse_source
  parse_top_level i line p = elim (source_target line) [
    | some target ↦ parse_source i target p
    | none ↦ elim (source_directory line) [
      | some target ↦ record p { includes = p.includes ++ target ∷ [] }
      | none ↦ if is_auto line || is_comment_or_blank line then p else record p {
        config = record p.config {
          unparsed_lines = p.config.unparsed_lines ++ unparsed i line ∷ [];
        };
      }
    ]
  ]

  -- inside the block of a stanza
  unfoldable pub parse_in_stanza : ℕ → Text → Stanza → Parsing → Parsing
  unfolding close_current parse_top_level
  parse_in_stanza i line s p = elim (option_line line) [
    | some o ↦ record p { current = some (add_option line o s) }
    | none ↦
        if is_comment_or_blank line
        then if is_empty (strip line) then close_current i p else p
        else parse_top_level i line (close_current i p)
  ]

  unfoldable pub parse_line : ℕ → Text → Parsing → Parsing
  unfolding parse_in_stanza
  parse_line i line p = elim (iface_header line) [
    | some h ↦ record (close_current i p) { current = some (new_stanza path i line h) }
    | none ↦ elim p.current [
      | some s ↦ parse_in_stanza i line s p
      | none ↦ parse_top_level i line p
    ]
  ]

  unfoldable pub parse_lines : ℕ → List Text → Parsing → Parsing
  unfolding parse_line close_current
  parse_lines i [] p = close_current i p
  parse_lines i (line ∷ lines) p = parse_lines (suc i) lines (parse_line i line p)

  unfoldable pub parse_text : Text → ParsedConfig → Parsing
  unfolding parse_lines
  parse_text text cfg =
      parse_lines 0 (split_lines text) (record { config = cfg; current = none; includes = [] })

abbrev pub empty_config : Dict Text Text → ParsedConfig
empty_config files = record {
  stanzas = [];
  order = [];
  files = files;
  duplicate_names = [];
  unparsed_lines = [];
  read_errors = [];
  glob_source_targets = [];
}

unfoldable pub parse_from : Dict Text Text → ParsedConfig → ParsedConfig
unfolding parse_text
parse_from [] cfg = cfg
parse_from ((path, text) ∷ files) cfg = parse_from files (parse_text path text cfg).config

unfoldable pub parse_files : Dict Text Text → ParsedConfig
unfolding parse_from
parse_files files = parse_from files (empty_config files)
