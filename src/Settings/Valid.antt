-- ===== src/Settings/Valid.antt =====
-- Whatever is set and read, only values that are allowed are stored.
use base_line_prox.Base.{ℕ, ◌≤◌, ◌≡◌, ◌⊎◌, true, some, List, [], ◌∷◌}
use base_line_prox.Settings.Registry.{
  Value, nothing, Key, key_eq, scope_eq, Scope, Registry, Migrations,
}
use base_line_prox.Settings.Store.{
  SettingDef, Attributes, definition_of, is_allowed, get_setting, set_setting,
}
use base_line_prox.Settings.Reads.{stored_at, Ready}

-- what the settings' pages ask for
pub data Request : Type 0 where
  gets : Key → Request
  sets : Key → Value → Request

module _ (schema_version : ℕ) (migrations : Migrations Attributes) (positive : 1 ≤ schema_version)
    (schema : List SettingDef) where
  abbrev pub answered : Request → Registry Attributes → Registry Attributes
  answered (gets key) r = (get_setting schema_version migrations schema key r).1
  answered (sets key v) r = (set_setting schema_version migrations schema key v r).1

  abbrev pub all_answered : List Request → Registry Attributes → Registry Attributes
  all_answered [] r = r
  all_answered (c ∷ cs) r = all_answered cs (answered c r)

  -- nothing is stored for a setting, or a value that it allows
  abbrev pub IsValid : Registry Attributes → Type 0
  IsValid r =
      (key : Key) (d : SettingDef)
      → definition_of schema key ≡ some d
      → (stored_at r d.scope key ≡ nothing) ⊎ (is_allowed d (stored_at r d.scope key) ≡ true)

  record Kept (r n : Registry Attributes) : Type 0 where
    ready : Ready schema_version migrations positive n
    same : (s : Scope) (k : Key) → stored_at n s k ≡ stored_at r s k

  pub record Holds (r : Registry Attributes) : Type 0 where
    pub ready : Ready schema_version migrations positive r
    pub valid : IsValid r
