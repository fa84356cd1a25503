-- ===== src/Interfaces/Rewrite.antt =====
-- `rewrite_stanza_to_dhcp` and `add_dhcp_stanza` of baseline/lib/ifnet_config.py.
use base_line_prox.Base.{
  ℕ, not, ◌&&◌, none, some, List, [], ◌∷◌, ◌++◌, ◌==◌, codes_eq, if◌then◌else◌, take, drop,
  get_elem?, Result, ok, err, ◌>>=◌, ◌>>◌, guard, the_or,
}
use base_line_prox.Base.Dict.{Dict, lookup, insert}
use base_line_prox.Base.Text.{codes, last}
use base_line_prox.Base.Lines.{keep_lines, join}
use base_line_prox.Interfaces.Data.{Text, Name, ParsedConfig, confidently_parsed}

-- what a rewriting raises: `RewriteError`, and what Python raises at a missing key or index
pub data Refusal : Type 0 where
  not_confident no_stanza wrong_family wrong_method : Refusal
  key_error index_error : Refusal

-- `"\r\n"` where the line at the index ends so
abbrev pub ending_of : Text → Text
ending_of line = if last 2 line == codes "\r\n" then codes "\r\n" else codes "\n"

unfoldable pub line_ending : List Text → ℕ → Result Refusal Text
unfolding last
line_ending [] start = ok (codes "\n")
line_ending (l ∷ ls) start = elim (get_elem? (l ∷ ls) start) [
  | none ↦ err index_error
  | some line ↦ ok (ending_of line)
]

abbrev pub dhcp_line : Name → Text → Text
dhcp_line name ending = codes "iface " ++ (name ++ (codes " inet dhcp" ++ ending))

-- the lines before `m`, the new text, and the lines from `n` on
abbrev pub splice : ℕ → ℕ → Text → Text → Text
splice m n new original =
    join (take m (keep_lines original)) ++ (new ++ join (drop n (keep_lines original)))

unfoldable pub rewrite_stanza_to_dhcp : ParsedConfig → Name → Result Refusal (Dict Text Text)
unfolding confidently_parsed line_ending
rewrite_stanza_to_dhcp cfg target_name = do
  guard (confidently_parsed cfg) not_confident
  s ← the_or (lookup target_name cfg.stanzas) no_stanza
  guard (s.family == codes "inet" && s.method == codes "static") wrong_method
  original ← the_or (lookup s.source_path cfg.files) key_error
  ending ← line_ending (keep_lines original) s.line_start
  ok (
      insert s.source_path (splice s.line_start s.line_end (dhcp_line s.name ending) original)
        cfg.files)

-- the new block: a blank line, and the stanza
abbrev pub dhcp_block : Name → Text → Text
dhcp_block name ending = ending ++ dhcp_line name ending

unfoldable pub add_dhcp_stanza : ParsedConfig → Name → Result Refusal (Dict Text Text)
unfolding confidently_parsed line_ending
add_dhcp_stanza cfg target_name = do
  guard (confidently_parsed cfg) not_confident
  s ← the_or (lookup target_name cfg.stanzas) no_stanza
  guard (not (s.family == codes "inet")) wrong_family
  guard (s.method == codes "static") wrong_method
  original ← the_or (lookup s.source_path cfg.files) key_error
  ending ← line_ending (keep_lines original) s.line_start
  ok (
      insert s.source_path (splice s.line_end s.line_end (dhcp_block target_name ending) original)
        cfg.files)
