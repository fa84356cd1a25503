-- ===== src/Settings/Store.antt =====
-- baseline/lib/settings_store.py: settings with a default, some of them with fixed options, some of them
-- references to a secret that is kept elsewhere.
use base_line_prox.Base.{
  ℕ, String, Bool, true, false, not, ◌||◌, Option, none, some, List, [], ◌∷◌, ◌++◌, ◌<>◌, ◌==◌,
  string_eq, nat_eq, if◌then◌else◌, any, keep, contains, map, Result, ok, err,
}
use base_line_prox.Base.Dict.{Dict, lookup, insert}
use base_line_prox.Base.Text.{strip_prefix}
use base_line_prox.Settings.Registry.{
  Value, nothing, flag, number, text, Key, key_eq, Scope, Error, key_error, value_error, Registry,
  Migrations, Step, register_type, upsert_entry, get_entry, set_value,
}

pub record SettingDef : Type 0 where
  pub group : String
  pub key : String
  pub default : Value
  pub description : String
  pub options : Option (List Value)
  pub is_secret_ref : Bool
  pub scope : Scope

-- what `_sync_definition` keeps of a definition
pub record Attributes : Type 0 where
  pub default : Value
  pub description : String
  pub options : Option (List Value)
  pub is_secret_ref : Bool

-- `==`, for which `True` is 1 and `False` is 0
abbrev number_of : Bool → ℕ
number_of true = 1
number_of false = 0

unfoldable pub same_value : Value → Value → Bool
same_value nothing nothing = true
same_value (flag a) (flag b) = number_of a == number_of b
same_value (flag a) (number n) = number_of a == n
same_value (number n) (flag a) = n == number_of a
same_value (number m) (number n) = m == n
same_value (text s) (text t) = s == t
same_value _ _ = false

abbrev pub key_of : SettingDef → Key
key_of d = (d.group, d.key)

-- `register_schema`: the definitions before a duplicate stay registered
unfoldable pub register_schema :
    List SettingDef → List SettingDef → Result Error (Unit {0}) × List SettingDef
register_schema [] schema = (ok tt, schema)
register_schema (d ∷ ds) schema = elim (contains (map key_of schema) (key_of d)) [
  | true ↦ (err value_error, schema)
  | false ↦ register_schema ds (schema ++ d ∷ [])
]

-- `_schema_by_key`: of two definitions of one key the later one stands
abbrev pub by_key : List SettingDef → Dict Key SettingDef → Dict Key SettingDef
by_key [] d = d
by_key (s ∷ schema) d = by_key schema (insert (key_of s) s d)

unfoldable pub definition_of : List SettingDef → Key → Option SettingDef
unfolding lookup insert
definition_of schema key = lookup key (by_key schema [])

abbrev pub add_name : List String → String → List String
add_name seen name = if contains seen name then seen else seen ++ name ∷ []

abbrev names_from : List SettingDef → List String → List String
names_from [] seen = seen
names_from (s ∷ schema) seen = names_from schema (add_name seen s.group)

unfoldable pub group_names : List SettingDef → List String
group_names schema = names_from schema []

unfoldable pub settings_in_group : List SettingDef → String → List SettingDef
settings_in_group schema group = keep (λ (s : SettingDef). s.group == group) schema

-- `value in options`
abbrev pub is_option : Option (List Value) → Value → Bool
is_option none v = true
is_option (some options) v = any (same_value v) options

-- a text that begins with a scheme of `SECRET_REF_SCHEMES`
unfoldable pub is_reference : Value → Bool
unfolding strip_prefix
is_reference (text s) = elim (strip_prefix "vault://" s) [ none ↦ false | some rest ↦ true ]
is_reference _ = false

-- what `set_setting` asks of a value
abbrev pub is_allowed : SettingDef → Value → Bool
is_allowed d v =
    if not (is_option d.options v) then false else not d.is_secret_ref || is_reference v

abbrev pub attributes_of : SettingDef → Attributes
attributes_of d = record {
  default = d.default;
  description = d.description;
  options = d.options;
  is_secret_ref = d.is_secret_ref;
}

-- `None` stands for the default
abbrev pub or_default : Value → Value → Value
or_default default nothing = default
or_default default v = v

abbrev pub effective : SettingDef → Option (Attributes × Value) → Value
effective d none = d.default
effective d (some entry) = or_default d.default entry.1

module _ (schema_version : ℕ) (migrations : Migrations Attributes) where
  infixl 5 ◌>>=◌ ◌>>◌
  abbrev pub after :
      {X Y : Type 0}
      → (X → Step Attributes Y)
      → Result Error X × Registry Attributes
      → Result Error Y × Registry Attributes
  after f (ok x, r) = f x r
  after f (err e, r) = (err e, r)

  abbrev pub ◌>>=◌ :
      {X Y : Type 0} → Step Attributes X → (X → Step Attributes Y) → Step Attributes Y
  ◌>>=◌ m f r = after f (m r)

  abbrev pub ◌>>◌ :
      {Y : Type 0} → Step Attributes (Unit {0}) → Step Attributes Y → Step Attributes Y
  m >> k = m >>= λ done. k

  abbrev pub pure : {X : Type 0} → X → Step Attributes X
  pure x r = (ok x, r)

  abbrev raise : {X : Type 0} → Error → Step Attributes X
  raise e r = (err e, r)

  -- `_sync_definition`
  unfoldable pub sync_definition : SettingDef → Step Attributes (Unit {0})
  unfolding register_type upsert_entry
  sync_definition d =
      register_type schema_version migrations d.group d.description d.scope
      >> upsert_entry schema_version migrations (key_of d) (attributes_of d) d.scope nothing

  unfoldable pub get_setting : List SettingDef → Key → Step Attributes Value
  unfolding definition_of sync_definition get_entry
  get_setting schema key = elim (definition_of schema key) [
    | none ↦ raise key_error
    | some d ↦ do
      sync_definition d
      entry ← get_entry schema_version migrations key d.scope
      pure (effective d entry)
  ]

  unfoldable pub set_setting : List SettingDef → Key → Value → Step Attributes (Unit {0})
  unfolding definition_of sync_definition set_value is_reference
  set_setting schema key value = elim (definition_of schema key) [
    | none ↦ raise key_error
    | some d ↦
        if is_allowed d value
        then sync_definition d >> set_value schema_version migrations key value d.scope
        else raise value_error
  ]

  -- each `group.key` with its value
  unfoldable pub snapshot_from :
      List SettingDef → List Key → Dict String Value → Step Attributes (Dict String Value)
  unfolding get_setting insert
  snapshot_from schema [] d = pure d
  snapshot_from schema (key ∷ keys) d = do
    value ← get_setting schema key
    snapshot_from schema keys (insert (key.0 <> "." <> key.1) value d)

  unfoldable pub export_bootstrap_snapshot :
      List SettingDef → List Key → Step Attributes (Dict String Value)
  unfolding snapshot_from
  export_bootstrap_snapshot schema keys = snapshot_from schema keys []
