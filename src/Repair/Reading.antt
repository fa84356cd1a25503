-- ===== src/Repair/Reading.antt =====
-- `read_interfaces_config` of baseline/lib/repair.py, and `resolve_source_glob` of ifnet_config.py.
-- The disk is a dict: a file that is not in it cannot be read. A directory is listed by `listing`, which
-- has nothing where that fails, and `matches` stands for `fnmatch.fnmatch`; both are any functions.
use base_line_prox.Base.{
  ℕ, zero, suc, ◌+◌, Bool, true, false, Option, none, some, List, [], ◌∷◌, ◌++◌, codes_eq, nat_eq,
  ◌==◌, if◌then◌else◌, contains, length, keep, Result, ok, err, ◌>>=◌, the_or,
}
use base_line_prox.Base.Dict.{Dict, lookup, insert}
use base_line_prox.Base.Text.{codes}
use base_line_prox.Base.Lines.{split_lines, is_empty}
use base_line_prox.Base.Sorting.{sort_texts}
use base_line_prox.Interfaces.Data.{Text, ParsedConfig}
use base_line_prox.Interfaces.Recognize.{source_target, source_directory, has_glob_metachars}
use base_line_prox.Interfaces.Parser.{parse_files}

-- `OSError`, and the end of the fuel, which is never reached
pub data ReadError : Type 0 where
  os_error out_of_fuel : ReadError

-- what stands before the last slash, if there is one
before_slash : Text → Option Text
before_slash [] = none
before_slash (c ∷ s) = elim (before_slash s) [
  | some head ↦ some (c ∷ head)
  | none ↦ if c == b'/' then some [] else none
]

-- `target.rsplit("/", 1)[0] or "/"`
unfoldable pub parent_of : Text → Text
unfolding before_slash
parent_of target = elim (before_slash target) [
  | none ↦ if is_empty target then codes "/" else target
  | some head ↦ if is_empty head then codes "/" else head
]

pub record Directories : Type 0 where
  pub listing : Text → Option (List Text)
  pub matches : Text → Text → Bool

module _ (d : Directories) where
  unfoldable pub resolve_source_glob : Text → List Text → List Text
  unfolding sort_texts
  resolve_source_glob pattern entries = sort_texts (keep (λ entry. d.matches entry pattern) entries)

  abbrev entries_or_none : Text → List Text
  entries_or_none directory = elim (d.listing directory) [ none ↦ [] | some entries ↦ entries ]

  -- what one line adds to the paths to read
  unfoldable pub line_targets : Text → Result ReadError (List Text)
  unfolding resolve_source_glob parent_of
  line_targets line = elim (source_target line) [
    | some target ↦
        if has_glob_metachars target
        then ok (resolve_source_glob target (entries_or_none (parent_of target)))
        else ok (target ∷ [])
    | none ↦ elim (source_directory line) [
      | some directory ↦ the_or (d.listing directory) os_error
      | none ↦ ok []
    ]
  ]

  unfoldable pub all_targets : List Text → Result ReadError (List Text)
  unfolding line_targets
  all_targets [] = ok []
  all_targets (line ∷ lines) = do
    here ← line_targets line
    rest ← all_targets lines
    ok (here ++ rest)

  unfoldable pub file_targets : Text → Result ReadError (List Text)
  unfolding all_targets
  file_targets text = all_targets (split_lines text)

  module _ (disk : Dict Text Text) where
    -- the loop, over the paths to read, those seen, and the files read
    unfoldable pub read_from :
        ℕ → List Text → List Text → Dict Text Text → Result ReadError (Dict Text Text)
    unfolding file_targets
    read_from n [] seen files = ok files
    read_from zero (path ∷ queue) seen files = err out_of_fuel
    read_from (suc n) (path ∷ queue) seen files = elim (contains seen path) [
      | true ↦ read_from n queue seen files
      | false ↦ elim (lookup path disk) [
        | none ↦ read_from n queue (path ∷ seen) (insert path [] files)
        | some text ↦ file_targets text >>= λ targets.
            read_from n (queue ++ targets) (path ∷ seen) (insert path text files)
      ]
    ]

  -- how many paths a file names
  unfoldable pub target_count : Text → ℕ
  target_count text = elim (file_targets text) [ ok targets ↦ length targets | err e ↦ 0 ]

  -- how many paths the files name that are not seen yet
  unfoldable pub unseen_targets : List Text → Dict Text Text → ℕ
  unfolding target_count
  unseen_targets seen [] = 0
  unseen_targets seen ((path, text) ∷ files) =
      (if contains seen path then 0 else target_count text) + unseen_targets seen files

  -- The fuel is one for the root, and one for each path that a file names.
  unfoldable pub read_closure : Text → Dict Text Text → Result ReadError (Dict Text Text)
  unfolding read_from unseen_targets
  read_closure root disk = read_from disk (suc (unseen_targets [] disk)) (root ∷ []) [] []

  unfoldable pub read_interfaces_config : Text → Dict Text Text → Result ReadError ParsedConfig
  unfolding read_closure
  read_interfaces_config root disk = do files ← read_closure root disk; ok (parse_files files)
