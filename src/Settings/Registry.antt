-- ===== src/Settings/Registry.antt =====
-- baseline/lib/registry.py. Each of the two databases is a record of its tables, or is not there: its volume is
-- not mounted, or it cannot be opened. JSON text is the value that it holds, so that a stored `null` is
-- the value `nothing`, and SQL's NULL is `none`. Times are whole microseconds.
use base_line_prox.Base.{
  ℕ, zero, suc, ◌-◌, String, Bool, true, Option, none, some, List, [], ◌∷◌, ◌++◌, ◌==◌, string_eq,
  nat_eq, Eq, if◌then◌else◌, ltb, leb, all, keep, ◌&&◌, Result, ok, err,
}
use base_line_prox.Base.Dict.{Dict, lookup, insert, erase, has_key}

pub data Value : Type 0 where
  nothing : Value
  flag : Bool → Value
  number : ℕ → Value
  text : String → Value

-- a type and an entry of it
abbrev pub Key : Type 0
Key = String × String

key_dec : Discrete Key
key_dec = hlevel string_eq.dec

instance unfoldable pub key_eq : Eq Key
unfolding key_dec
key_eq = record { dec = key_dec }

-- `GLOBAL` and `PROTECTED`
pub data Scope : Type 0 where
  global protected : Scope

scope_dec : Discrete Scope
scope_dec = hlevel

instance unfoldable pub scope_eq : Eq Scope
unfolding scope_dec
scope_eq = record { dec = scope_dec }

-- `newer_schema` and `missing_migration` are the `RuntimeError`s of `_apply_migrations`
pub data Error : Type 0 where
  unavailable newer_schema missing_migration key_error value_error : Error

pub record Entry (A : Type 0) : Type 0 where
  pub attributes : A
  pub value : Option Value
  pub scope : Scope

pub record Event : Type 0 where
  pub type_id : String
  pub entry_id : String
  pub kind : String
  pub at : ℕ
  pub fields : Dict String Value

-- `version` is `PRAGMA user_version`; the events are in the order in which they were recorded
pub record Database (A : Type 0) : Type 0 where
  pub version : ℕ
  pub types : Dict String (String × Scope)
  pub entries : Dict Key (Entry A)
  pub events : List Event

pub record Registry (A : Type 0) : Type 0 where
  pub global_db : Option (Database A)
  pub protected_db : Option (Database A)

abbrev pub Migrations : Type 0 → Type 0
Migrations A = Dict ℕ (Database A → Database A)

abbrev pub Step : Type 0 → Type 0 → Type 0
Step A X = Registry A → Result Error X × Registry A

-- what is stored, with `None` for nothing
abbrev pub stored : Option Value → Value
stored none = nothing
stored (some v) = v

module _ {A : Type 0} where
  abbrev pub db_at : Scope → Registry A → Option (Database A)
  db_at global r = r.global_db
  db_at protected r = r.protected_db

  abbrev pub put_db : Scope → Database A → Registry A → Registry A
  put_db global db r = record r { global_db = some db }
  put_db protected db r = record r { protected_db = some db }

  unfoldable pub register_migration :
      ℕ → (Database A → Database A) → Migrations A → Result Error (Migrations A)
  register_migration from_version upgrade ms =
      if has_key from_version ms then err value_error else ok (insert from_version upgrade ms)

module _ {A : Type 0} where
  -- what each statement does to the tables
  abbrev pub type_in : String → String → Scope → Database A → Result Error (Unit {0}) × Database A
  type_in type_id description scope db =
      (ok tt, record db { types = insert type_id (description, scope) db.types })

  -- the value behind an upsert: one that is `None` leaves the stored one
  abbrev pub upserted_value : Option (Entry A) → Value → Option Value
  upserted_value none nothing = none
  upserted_value (some entry) nothing = entry.value
  upserted_value old v = some v

  abbrev pub upserted : Key → A → Scope → Value → Database A → Entry A
  upserted key attributes scope value db = record {
    attributes = attributes;
    value = upserted_value (lookup key db.entries) value;
    scope = scope;
  }

  abbrev pub upsert_in : Key → A → Scope → Value → Database A → Result Error (Unit {0}) × Database A
  upsert_in key attributes scope value db = (
    ok tt,
    record db { entries = insert key (upserted key attributes scope value db) db.entries },
  )

  abbrev pub delete_in : Key → Database A → Result Error (Unit {0}) × Database A
  delete_in key db = (ok tt, record db { entries = erase key db.entries })

  abbrev pub set_in : Key → Value → Database A → Result Error (Unit {0}) × Database A
  set_in key value db = elim (lookup key db.entries) [
    | none ↦ (err key_error, db)
    | some entry ↦
        (ok tt, record db { entries = insert key (record entry { value = some value }) db.entries })
  ]

  abbrev pub view : Entry A → A × Value
  view entry = (entry.attributes, stored entry.value)

  abbrev pub viewed : Option (Entry A) → Option (A × Value)
  viewed none = none
  viewed (some entry) = some (view entry)

  abbrev pub get_in : Key → Database A → Result Error (Option (A × Value)) × Database A
  get_in key db = (ok (viewed (lookup key db.entries)), db)

  abbrev pub record_in : Event → Database A → Result Error (Unit {0}) × Database A
  record_in event db = (ok tt, record db { events = db.events ++ event ∷ [] })

-- `SCHEMA_VERSION` and `_MIGRATIONS` are parameters
module _ {A : Type 0} (schema_version : ℕ) (migrations : Migrations A) where
  unfoldable pub migrate : ℕ → Database A → Result Error (Unit {0}) × Database A
  unfolding lookup
  migrate zero db = (ok tt, db)
  migrate (suc n) db = elim (lookup db.version migrations) [
    | none ↦ (err missing_migration, db)
    | some upgrade ↦ migrate n (record (upgrade db) { version = suc db.version })
  ]

  -- a database without a version has the first one
  abbrev pub versioned : Database A → Database A
  versioned db = if db.version == 0 then record db { version = 1 } else db

  unfoldable pub apply_migrations : Database A → Result Error (Unit {0}) × Database A
  unfolding migrate
  apply_migrations db =
      let v = (versioned db).version in
      if ltb schema_version v
      then (err newer_schema, versioned db)
      else migrate (schema_version - v) (versioned db)

  -- `_connect`, and what is done with the connection
  unfoldable pub with_db :
      {X : Type 0} → Scope → (Database A → Result Error X × Database A) → Step A X
  unfolding apply_migrations
  with_db scope f r = elim (db_at scope r) [
    | none ↦ (err unavailable, r)
    | some db ↦
        let opened = apply_migrations db in
        elim opened.0 [
          | err e ↦ (err e, put_db scope opened.1 r)
          | ok done ↦ ((f opened.1).0, put_db scope (f opened.1).1 r)
        ]
  ]

  unfoldable pub register_type : String → String → Scope → Step A (Unit {0})
  unfolding with_db insert
  register_type type_id description scope = with_db scope (type_in type_id description scope)

  unfoldable pub upsert_entry : Key → A → Scope → Value → Step A (Unit {0})
  unfolding with_db lookup insert
  upsert_entry key attributes scope value = with_db scope (upsert_in key attributes scope value)

  unfoldable pub delete_entry : Key → Scope → Step A (Unit {0})
  unfolding with_db erase
  delete_entry key scope = with_db scope (delete_in key)

  unfoldable pub set_value : Key → Value → Scope → Step A (Unit {0})
  unfolding with_db lookup insert
  set_value key value scope = with_db scope (set_in key value)

  unfoldable pub get_entry : Key → Scope → Step A (Option (A × Value))
  unfolding with_db lookup
  get_entry key scope = with_db scope (get_in key)

  -- the rows of one type
  unfoldable pub of_type : String → Dict Key (Entry A) → Dict String (A × Value)
  of_type type_id [] = []
  of_type type_id ((key, entry) ∷ rows) =
      let rest = of_type type_id rows in
      if key.0 == type_id then (key.1, view entry) ∷ rest else rest

  unfoldable pub list_entries : String → Scope → Step A (Dict String (A × Value))
  unfolding with_db of_type
  list_entries type_id scope = with_db scope (λ db. (ok (of_type type_id db.entries), db))

  unfoldable pub record_event : Event → Scope → Step A (Unit {0})
  unfolding with_db
  record_event event scope = with_db scope (record_in event)

  -- the events that a query is about: of a type, and of a kind if one is given
  abbrev pub is_asked : String → Option String → Event → Bool
  is_asked type_id none event = event.type_id == type_id
  is_asked type_id (some kind) event = event.type_id == type_id && event.kind == kind

  -- none of the events of the same entry is later
  abbrev pub is_last : List Event → Event → Bool
  is_last events event =
      all (λ (x : Event). if x.entry_id == event.entry_id then leb x.at event.at else true) events

  abbrev pub by_entry : List Event → Dict String Event → Dict String Event
  by_entry [] d = d
  by_entry (event ∷ events) d = by_entry events (insert event.entry_id event d)

  unfoldable pub latest_of : String → Option String → List Event → Dict String Event
  unfolding insert
  latest_of type_id kind events =
      let asked = keep (is_asked type_id kind) events in by_entry (keep (is_last asked) asked) []

  unfoldable pub latest_events : String → Scope → Option String → Step A (Dict String Event)
  unfolding with_db latest_of
  latest_events type_id scope kind =
      with_db scope (λ db. (ok (latest_of type_id kind db.events), db))
