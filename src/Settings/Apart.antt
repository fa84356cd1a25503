-- ===== src/Settings/Apart.antt =====
-- A setting of the global database does not need the protected one.
use base_line_prox.Base.{
  ℕ, ◌≡◌, refl, ap, ◌∙◌, Option, some, List, Option-cases, Bool-cases, Result-cases, inl, inr,
  Result, ok, err,
}
use base_line_prox.Settings.Registry.{
  Value, nothing, Key, global, Error, Database, Registry, Migrations, Step, apply_migrations,
  with_db, type_in, upsert_in, get_in, set_in, register_type, upsert_entry, get_entry, set_value,
}
use base_line_prox.Settings.Store.{
  SettingDef, Attributes, key_of, attributes_of, definition_of, is_allowed, after, ◌>>=◌,
  sync_definition, get_setting, set_setting,
}

-- the registry with another protected database
abbrev pub beside : Option (Database Attributes) → Registry Attributes → Registry Attributes
beside db r = record r { protected_db = db }

module _ (schema_version : ℕ) (migrations : Migrations Attributes)
    (db : Option (Database Attributes)) where
  -- a step that neither asks for the protected database nor changes it
  abbrev pub IsApart : {X : Type 0} → Step Attributes X → Type 0
  IsApart m = (r : Registry Attributes) → m (beside db r) ≡ ((m r).0, beside db (m r).1)

  with_db-IsApart :
      {X : Type 0} (f : Database Attributes → Result Error X × Database Attributes)
      → IsApart (with_db schema_version migrations global f)
  unfolding with_db
  with_db-IsApart f r = elim (Option-cases r.global_db) [
    | inl q ↦ rw (q, with_db) refl
    | inr (d, q) ↦ elim (Result-cases (apply_migrations schema_version migrations d).0) [
      | inl (x, a) ↦ rw (q, a, with_db) refl
      | inr (s, a) ↦ rw (q, a, with_db) refl
    ]
  ]

  after-IsApart :
      {X Y : Type 0} (f : X → Step Attributes Y) (x : Result Error X × Registry Attributes)
      → ((a : X) → IsApart (f a))
      → after schema_version migrations f (x.0, beside db x.1) ≡ (
        (after schema_version migrations f x).0,
        beside db (after schema_version migrations f x).1,
      )
  after-IsApart f (ok a, r) next = next a r
  after-IsApart f (err e, r) next = refl

  bind-IsApart :
      {X Y : Type 0} (m : Step Attributes X) (f : X → Step Attributes Y)
      → IsApart m
      → ((a : X) → IsApart (f a))
      → IsApart (◌>>=◌ schema_version migrations m f)
  bind-IsApart m f first next r =
      ap (after schema_version migrations f) (first r) ∙ after-IsApart f (m r) next

  sync_definition-IsApart :
      (d : SettingDef) → d.scope ≡ global → IsApart (sync_definition schema_version migrations d)
  unfolding sync_definition register_type upsert_entry
  sync_definition-IsApart d is_global r =
      rw (is_global, sync_definition, register_type, upsert_entry)
        (bind-IsApart (register_type schema_version migrations d.group d.description global) _
          (with_db-IsApart (type_in d.group d.description global))
          (λ x. with_db-IsApart (upsert_in (key_of d) (attributes_of d) global nothing)) r)

  get_setting-IsApart :
      (schema : List SettingDef) (key : Key) (d : SettingDef)
      → definition_of schema key ≡ some d
      → d.scope ≡ global
      → IsApart (get_setting schema_version migrations schema key)
  unfolding get_setting get_entry
  get_setting-IsApart schema key d found is_global r =
      rw (found, get_setting, get_entry, is_global)
        (bind-IsApart (sync_definition schema_version migrations (record d { scope = global })) _
          (sync_definition-IsApart (record d { scope = global }) refl)
          (λ x.
            bind-IsApart (get_entry schema_version migrations key global) _
              (with_db-IsApart (get_in key)) (λ entry s. refl))
          r)

  set_setting-IsApart :
      (schema : List SettingDef) (key : Key) (v : Value) (d : SettingDef)
      → definition_of schema key ≡ some d
      → d.scope ≡ global
      → IsApart (set_setting schema_version migrations schema key v)
  unfolding set_setting set_value
  set_setting-IsApart schema key v d found is_global r = elim (Bool-cases (is_allowed d v)) [
    | inr q ↦ rw (found, q, set_setting) refl
    | inl q ↦
        rw (found, q, set_setting, is_global)
          (bind-IsApart (sync_definition schema_version migrations (record d { scope = global })) _
            (sync_definition-IsApart (record d { scope = global }) refl)
            (λ x. with_db-IsApart (set_in key v)) r)
  ]

  -- Reading or setting a setting of the global database gives the same, and does the same to that database,
  -- whatever the protected database holds, or where it is not there at all; and the protected database is
  -- left as it is. The setting is defined.
  pub settings-AreApart :
      (schema : List SettingDef) (key : Key) (d : SettingDef)
      → definition_of schema key ≡ some d
      → d.scope ≡ global
      → IsApart (get_setting schema_version migrations schema key)
        × ((v : Value) → IsApart (set_setting schema_version migrations schema key v))
  settings-AreApart schema key d found is_global = (
    get_setting-IsApart schema key d found is_global,
    λ v. set_setting-IsApart schema key v d found is_global,
  )
