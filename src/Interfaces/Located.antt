-- ===== src/Interfaces/Located.antt =====
-- Where the stanzas of a parsed configuration stand.
use base_line_prox.Base.{
  ℕ, suc, ◌+◌, ◌≤◌, ◌<◌, ◌≡◌, refl, sym, ap, ◌∙◌, Option, none, some, List, [], ◌∷◌, arith, length,
  get_elem?, Option-cases, Bool-cases, inl, inr, subst, codes_eq,
}
use base_line_prox.Base.Dict.{Dict, lookup, has_key, NodupKeys, Entries, Entries-insert}
use base_line_prox.Base.Lines.{split_lines}
use base_line_prox.Interfaces.Data.{Text, Name, Stanza, ParsedConfig}
use base_line_prox.Interfaces.Recognize.{iface_header}
use base_line_prox.Interfaces.Parser.{
  Parsing, store_stanza, close_current, new_stanza, parse_top_level, parse_in_stanza, parse_line,
  parse_lines, parse_text, parse_from, parse_files, empty_config,
}

-- The stanza's range is in the file that it names, and begins with the line that declares it.
pub record IsLocated (files : Dict Text Text) (k : Name) (s : Stanza) : Type 0 where
  pub text : Text
  pub line : Text
  pub key_name : k ≡ s.name
  pub is_read : lookup s.source_path files ≡ some text
  pub start_lt_end : s.line_start < s.line_end
  pub end_le : s.line_end ≤ length (split_lines text)
  pub at_start : get_elem? (split_lines text) s.line_start ≡ some line
  pub declares : iface_header line ≡ some (s.name, s.family, s.method)

module _ (files : Dict Text Text) (path text : Text) (is_read : lookup path files ≡ some text) where
  abbrev IsOpen : ℕ → Option Stanza → Type 0
  IsOpen i none = Unit
  IsOpen i (some s) =
      (s.source_path ≡ path)
      × (s.line_start < i)
      × ((line : Text) × (get_elem? (split_lines text) s.line_start ≡ some line)
          × (iface_header line ≡ some (s.name, s.family, s.method)))

  -- before line `i` is parsed
  record IsParsing (i : ℕ) (p : Parsing) : Type 0 where
    located : Entries (IsLocated files) p.config.stanzas
    same_files : p.config.files ≡ files
    is_open : IsOpen i p.current

  IsOpen-suc : (i : ℕ) (o : Option Stanza) → IsOpen i o → IsOpen (suc i) o
  IsOpen-suc i none h = tt
  IsOpen-suc i (some s) h = (h.0, omega arith, h.2)

  close_stanza :
      (i : ℕ) (s : Stanza)
      → i ≤ length (split_lines text)
      → IsOpen i (some s)
      → IsLocated files s.name (record s { line_end = i })
  close_stanza i s le h =
      let (line, at_start, declares) = h.2 in
      record {
        text = text;
        line = line;
        key_name = refl;
        is_read = rw h.0 is_read;
        start_lt_end = h.1;
        end_le = le;
        at_start = at_start;
        declares = declares;
      }

  store_stanza-Entries :
      (s : Stanza) (cfg : ParsedConfig)
      → IsLocated files s.name s
      → Entries (IsLocated files) cfg.stanzas
      → Entries (IsLocated files) (store_stanza s cfg).stanzas
  store_stanza-Entries s cfg new old = elim (Bool-cases (has_key s.name cfg.stanzas)) [
    | inl q ↦ rw q old
    | inr q ↦ rw q (Entries-insert (IsLocated files) s.name s cfg.stanzas new old)
  ]

  store_stanza-files : (s : Stanza) (cfg : ParsedConfig) → (store_stanza s cfg).files ≡ cfg.files
  store_stanza-files s cfg = ground arith

  parsing : ParsedConfig → Option Stanza → List Text → Parsing
  parsing cfg o includes = record { config = cfg; current = o; includes = includes }

  close_parsing :
      (i : ℕ) (cfg : ParsedConfig) (o : Option Stanza) (includes : List Text)
      → i ≤ length (split_lines text)
      → IsParsing i (parsing cfg o includes)
      → IsParsing i (close_current i (parsing cfg o includes))
  unfolding close_current parsing
  close_parsing i cfg none includes le h = h
  close_parsing i cfg (some s) includes le h = record {
    located =
        store_stanza-Entries (record s { line_end = i }) cfg (close_stanza i s le h.is_open)
          h.located;
    same_files = store_stanza-files (record s { line_end = i }) cfg ∙ h.same_files;
    is_open = tt;
  }

  close_current-IsParsing :
      (i : ℕ) (p : Parsing)
      → i ≤ length (split_lines text)
      → IsParsing i p
      → IsParsing i (close_current i p)
  unfolding parsing
  close_current-IsParsing i p le h = close_parsing i p.config p.current p.includes le h

  top_level-IsParsing :
      (i : ℕ) (line : Text) (p : Parsing)
      → IsParsing i p
      → IsParsing i (parse_top_level path i line p)
  unfolding parse_top_level
  top_level-IsParsing i line p h = ground arith

  IsParsing-suc : (i : ℕ) (p : Parsing) → IsParsing i p → IsParsing (suc i) p
  IsParsing-suc i p h = record {
    located = h.located;
    same_files = h.same_files;
    is_open = IsOpen-suc i p.current h.is_open;
  }

  in_stanza-IsParsing :
      (i : ℕ) (line : Text) (s : Stanza) (p : Parsing)
      → i ≤ length (split_lines text)
      → p.current ≡ some s
      → IsParsing i p
      → IsParsing i (parse_in_stanza path i line s p)
  unfolding parse_in_stanza
  in_stanza-IsParsing i line s p le q h =
      ground
        (arith, close_current-IsParsing i p le h, top_level-IsParsing i line (close_current i p))

  open_stanza :
      (i : ℕ) (line : Text) (header : Name × Text × Text) (p : Parsing)
      → get_elem? (split_lines text) i ≡ some line
      → iface_header line ≡ some header
      → IsParsing i p
      → IsParsing (suc i) (record p { current = some (new_stanza path i line header) })
  open_stanza i line (name, family, method) p at_start declares h = record {
    located = h.located;
    same_files = h.same_files;
    is_open = (refl, omega arith, (line, at_start, declares));
  }

  parse_line-IsParsing :
      (i : ℕ) (line : Text) (p : Parsing)
      → i ≤ length (split_lines text)
      → get_elem? (split_lines text) i ≡ some line
      → IsParsing i p
      → IsParsing (suc i) (parse_line path i line p)
  unfolding parse_line
  parse_line-IsParsing i line p le at_start h = elim (Option-cases (iface_header line)) [
    | inr (header, q) ↦
        rw (q, parse_line)
          (open_stanza i line header (close_current i p) at_start q
            (close_current-IsParsing i p le h))
    | inl q ↦ elim (Option-cases p.current) [
      | inl r ↦
          rw (q, r, parse_line)
            (IsParsing-suc i (parse_top_level path i line p) (top_level-IsParsing i line p h))
      | inr (s, r) ↦
          rw (q, r, parse_line)
            (IsParsing-suc i (parse_in_stanza path i line s p)
              (in_stanza-IsParsing i line s p le r h))
    ]
  ]

  -- `lines` are the file's lines from `i` on
  abbrev IsRest : ℕ → List Text → Type 0
  IsRest i lines =
      (i + length lines ≡ length (split_lines text))
      × ((j : ℕ) → get_elem? lines j ≡ get_elem? (split_lines text) (i + j))

  parse_lines-IsParsing :
      (i : ℕ) (lines : List Text) (p : Parsing)
      → IsRest i lines
      → IsParsing i p
      → IsParsing (length (split_lines text)) (parse_lines path i lines p)
  unfolding parse_lines
  parse_lines-IsParsing i [] p rest h =
      let at_end : i ≡ length (split_lines text) = omega (arith, rest.0) in
      subst (λ n. IsParsing n (close_current i p)) at_end
        (close_current-IsParsing i p (omega arith) h)
  parse_lines-IsParsing i (line ∷ lines) p rest h =
      let here : get_elem? (split_lines text) i ≡ some line =
        ap (get_elem? (split_lines text)) (omega arith) ∙ sym (rest.1 0) in
      parse_lines-IsParsing (suc i) lines (parse_line path i line p)
        (
          omega (arith, rest.0),
          λ j. rest.1 (suc j) ∙ ap (get_elem? (split_lines text)) (omega arith),
        )
        (parse_line-IsParsing i line p (omega (arith, rest.0)) here h)

  parse_text-Entries :
      (cfg : ParsedConfig)
      → cfg.files ≡ files
      → Entries (IsLocated files) cfg.stanzas
      → Entries (IsLocated files) (parse_text path text cfg).config.stanzas
        × ((parse_text path text cfg).config.files ≡ files)
  unfolding parse_text
  parse_text-Entries cfg same h =
      let all =
        parse_lines-IsParsing 0 (split_lines text)
          (record { config = cfg; current = none; includes = [] })
          (omega arith, λ j. ap (get_elem? (split_lines text)) (omega arith))
          (record { located = h; same_files = same; is_open = tt }) in
      (all.located, all.same_files)

-- every entry is the one that a lookup finds
abbrev IsFound : Dict Text Text → Dict Text Text → Type 0
IsFound files [] = Unit
IsFound files ((path, text) ∷ rest) = (lookup path files ≡ some text) × IsFound files rest

IsFound-cons :
    (k v : Text) (files rest : Dict Text Text)
    → lookup k rest ≡ none
    → IsFound files rest
    → NodupKeys rest
    → IsFound ((k, v) ∷ files) rest
unfolding lookup
IsFound-cons k v files [] absent h n = tt
IsFound-cons k v files ((j, w) ∷ rest) absent h n =
    (ground arith, IsFound-cons k v files rest (ground arith) h.1 n.1)

NodupKeys-IsFound : (files : Dict Text Text) → NodupKeys files → IsFound files files
unfolding lookup
NodupKeys-IsFound [] h = tt
NodupKeys-IsFound ((k, v) ∷ files) h =
    (ground arith, IsFound-cons k v files files h.0 (NodupKeys-IsFound files h.1) h.1)

parse_from-Entries :
    (files rest : Dict Text Text) (cfg : ParsedConfig)
    → IsFound files rest
    → cfg.files ≡ files
    → Entries (IsLocated files) cfg.stanzas
    → Entries (IsLocated files) (parse_from rest cfg).stanzas
      × ((parse_from rest cfg).files ≡ files)
unfolding parse_from
parse_from-Entries files [] cfg found same h = (h, same)
parse_from-Entries files ((path, text) ∷ rest) cfg found same h =
    let next = parse_text-Entries files path text found.0 cfg same h in
    parse_from-Entries files rest (parse_text path text cfg).config found.1 next.1 next.0

-- In a parsed configuration each stanza stands under its own name, and its range of lines lies in the
-- file that it names, is not empty, and begins with the line that declares it; and the files are those
-- that were read. No path stands twice among them.
pub parse_files-Entries :
    (files : Dict Text Text)
    → NodupKeys files
    → Entries (IsLocated files) (parse_files files).stanzas × ((parse_files files).files ≡ files)
unfolding parse_files
parse_files-Entries files h =
    parse_from-Entries files files (empty_config files) (NodupKeys-IsFound files h) refl tt
