-- ===== src/Interfaces/Data.antt =====
-- The data of baseline/lib/ifnet_config.py. Every text is a list of code points.
use base_line_prox.Base.{
  ℕ, ◌||◌, ◌&&◌, Bool, true, false, none, some, List, [], ◌∷◌, ◌==◌, codes_eq, if◌then◌else◌,
}
use base_line_prox.Base.Dict.{Dict, lookup, has_key}
use base_line_prox.Base.Text.{codes}
use base_line_prox.Base.Lines.{words, is_empty}

abbrev pub Text : Type 0
Text = List ℕ

abbrev pub Name : Type 0
Name = Text

-- `line_start` and `line_end` are indices of lines of the file, the second exclusive
pub record Stanza : Type 0 where
  pub name : Name
  pub family : Text
  pub method : Text
  pub options : Dict Text Text
  pub lines : List Text
  pub source_path : Text
  pub line_start : ℕ
  pub line_end : ℕ

abbrev pub Stanzas : Type 0
Stanzas = Dict Name Stanza

pub record UnparsedLine : Type 0 where
  pub path : Text
  pub line_number : ℕ
  pub text : Text

-- `duplicate_names` is a set: a list, in which a name may stand more than once
pub record ParsedConfig : Type 0 where
  pub stanzas : Stanzas
  pub order : List Name
  pub files : Dict Text Text
  pub duplicate_names : List Name
  pub unparsed_lines : List UnparsedLine
  pub read_errors : List (Text × Text)
  pub glob_source_targets : List UnparsedLine

abbrev pub has_none {ℓ} : {A : Type ℓ} → List A → Bool
has_none [] = true
has_none (x ∷ xs) = false

unfoldable pub confidently_parsed : ParsedConfig → Bool
confidently_parsed cfg =
    has_none cfg.duplicate_names && has_none cfg.unparsed_lines && has_none cfg.read_errors

pub data Kind : Type 0 where
  bridge bond vlan loopback physical : Kind

unfoldable pub classify : Stanza → Kind
classify s =
    if has_key (codes "bridge-ports") s.options
    then bridge
    else if has_key (codes "bond-slaves") s.options
    then bond
    else if has_key (codes "vlan-raw-device") s.options
    then vlan
    else if s.name == codes "lo" || s.method == codes "loopback"
    then loopback
    else physical

-- `stanza.options.get(key, "").split()`
abbrev listed : Text → Stanza → List Name
listed key s = elim (lookup key s.options) [ none ↦ [] | some text ↦ words text ]

unfoldable pub bridge_members : Stanza → List Name
bridge_members = listed (codes "bridge-ports")

unfoldable pub bond_members : Stanza → List Name
bond_members = listed (codes "bond-slaves")

-- `[parent] if parent else []`, of `vlan_parent`
unfoldable pub vlan_parent : Stanza → List Name
vlan_parent s = elim (lookup (codes "vlan-raw-device") s.options) [
  | none ↦ []
  | some text ↦ if is_empty text then [] else text ∷ []
]
