-- ===== src/Settings/Tests.antt =====
-- Three settings, two databases that are new, and the theorems at them.
use base_line_prox.Base.{
  ◌≡◌, refl, true, false, some, none, [], ◌∷◌, List, string_eq, nat_eq, arith,
}
use base_line_prox.Settings.Registry.{
  Value, nothing, text, Key, key_eq, Scope, global, protected, scope_eq, Database, Registry,
}
use base_line_prox.Settings.Store.{
  SettingDef, Attributes, attributes_of, definition_of, is_allowed, get_setting, set_setting,
  same_value, is_reference,
}
use base_line_prox.Settings.Spec.{Call, upsert, set, get, delete, holds}
use base_line_prox.Settings.Refines.{run, spec_run, run_refines}
use base_line_prox.Settings.Reads.{Sets, Ready, set_setting-get_setting}
use base_line_prox.Settings.Apart.{IsApart, settings-AreApart}

abbrev persona : SettingDef
persona = record {
  group = "startup";
  key = "auto_start_persona";
  default = text "personal";
  description = "the volume that is mounted on boot";
  options = none;
  is_secret_ref = false;
  scope = global;
}

abbrev preset : SettingDef
preset = record {
  group = "self_installer";
  key = "lvm_size_preset";
  default = text "minimal";
  description = "the split of the disk";
  options = some (text "minimal" ∷ text "small" ∷ []);
  is_secret_ref = false;
  scope = protected;
}

abbrev token : SettingDef
token = record {
  group = "proxmox";
  key = "api_token";
  default = text "";
  description = "where the token is kept";
  options = none;
  is_secret_ref = true;
  scope = protected;
}

abbrev schema : List SettingDef
schema = persona ∷ preset ∷ token ∷ []

abbrev new_db : Database Attributes
new_db = record { version = 1; types = []; entries = []; events = [] }

abbrev registry : Registry Attributes
registry = record { global_db = some new_db; protected_db = some new_db }

registry_opens : Ready 1 [] (omega arith) registry
registry_opens global = (new_db, refl, refl)
registry_opens protected = (new_db, refl, refl)

abbrev calls : List (Call Attributes)
calls =
    upsert ("startup", "auto_start_persona") (attributes_of persona) global nothing
    ∷ set ("startup", "auto_start_persona") (text "work") global
    ∷ upsert ("startup", "auto_start_persona") (attributes_of persona) global nothing
    ∷ get ("startup", "auto_start_persona") global
    ∷ delete ("startup", "auto_start_persona") global
    ∷ []

run_refines_example :
    ((run 1 [] (omega arith) calls registry).0
      ≡ (spec_run 1 [] (omega arith) calls (holds registry)).0)
    × ((s : Scope) (k : Key)
        → holds (run 1 [] (omega arith) calls registry).1 s k
          ≡ (spec_run 1 [] (omega arith) calls (holds registry)).1 s k)
run_refines_example = run_refines 1 [] (omega arith) calls registry registry_opens

preset_is_defined : definition_of schema ("self_installer", "lvm_size_preset") ≡ some preset
unfolding definition_of key_eq string_eq
preset_is_defined = refl

persona_is_defined : definition_of schema ("startup", "auto_start_persona") ≡ some persona
unfolding definition_of key_eq string_eq
persona_is_defined = refl

small_is_allowed : is_allowed preset (text "small") ≡ true
unfolding same_value string_eq
small_is_allowed = refl

raw_token_is_refused : is_allowed token (text "hunter2") ≡ false
unfolding is_reference nat_eq
raw_token_is_refused = refl

set_setting-get_setting_example :
    Sets 1 []
      (omega arith)
      schema
      ("self_installer", "lvm_size_preset")
      preset
      (text "small")
      registry
      (is_allowed preset (text "small"))
set_setting-get_setting_example =
    set_setting-get_setting 1 [] (omega arith) schema ("self_installer", "lvm_size_preset") preset
      (text "small") registry registry_opens preset_is_defined

settings-AreApart_example :
    IsApart 1 [] none (get_setting 1 [] schema ("startup", "auto_start_persona"))
    × ((v : Value)
        → IsApart 1 [] none (set_setting 1 [] schema ("startup", "auto_start_persona") v))
settings-AreApart_example =
    settings-AreApart 1 [] none schema ("startup", "auto_start_persona") persona persona_is_defined
      refl
