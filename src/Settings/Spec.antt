-- ===== src/Settings/Spec.antt =====
-- What the tables of the registry keep: of each scope and key, the attributes and the value stored last.
use base_line_prox.Base.{
  ℕ, ◌-◌, ◌≤◌, ◌≡◌, refl, ap, String, false, ◌&&◌, Option, none, some, ◌==◌, nat_eq, if◌then◌else◌,
  ltb, arith, Result, ok, err,
}
use base_line_prox.Base.Dict.{lookup}
use base_line_prox.Settings.Registry.{
  Value, nothing, Key, key_eq, Scope, global, protected, scope_eq, Error, key_error, Event,
  Database, Registry, Migrations, db_at, put_db, migrate, apply_migrations, with_db, viewed,
  register_type, upsert_entry, delete_entry, set_value, get_entry, record_event,
}

-- the calls that write, and the one that reads
pub data Call (A : Type 0) : Type 0 where
  describe : (type_id description : String) → Scope → Call A
  upsert : Key → A → Scope → Value → Call A
  delete : Key → Scope → Call A
  set : Key → Value → Scope → Call A
  get : Key → Scope → Call A
  log : Event → Scope → Call A

-- what is kept, whatever the tables look like
abbrev pub Spec : Type 0 → Type 0
Spec A = Scope → Key → Option (A × Value)

abbrev pub Answer : Type 0 → Type 0
Answer A = Result Error (Option (A × Value))

module _ {A : Type 0} where
  abbrev pub update : Scope → Key → Option (A × Value) → Spec A → Spec A
  update s k x σ t j = if t == s && j == k then x else σ t j

  abbrev pub kept : Option (A × Value) → Value
  kept none = nothing
  kept (some x) = x.1

  abbrev pub or_kept : Option (A × Value) → Value → Value
  or_kept old nothing = kept old
  or_kept old v = v

  abbrev pub spec_step : Call A → Spec A → Answer A × Spec A
  spec_step (describe t d s) σ = (ok none, σ)
  spec_step (upsert k a s v) σ = (ok none, update s k (some (a, or_kept (σ s k) v)) σ)
  spec_step (delete k s) σ = (ok none, update s k none σ)
  spec_step (set k v s) σ = elim (σ s k) [
    | none ↦ (err key_error, σ)
    | some x ↦ (ok none, update s k (some (x.0, v)) σ)
  ]
  spec_step (get k s) σ = (ok (σ s k), σ)
  spec_step (log e s) σ = (ok none, σ)

  abbrev pub seen_in : Key → Option (Database A) → Option (A × Value)
  seen_in k none = none
  seen_in k (some db) = viewed (lookup k db.entries)

  -- what the tables keep
  abbrev pub holds : Registry A → Spec A
  holds r s k = seen_in k (db_at s r)

module _ {A : Type 0} (schema_version : ℕ) (migrations : Migrations A)
    (positive : 1 ≤ schema_version) where
  -- both databases are there, with the current schema
  abbrev pub IsReady : Registry A → Type 0
  IsReady r =
      (s : Scope) → (db : Database A) × (db_at s r ≡ some db) × (db.version ≡ schema_version)

  abbrev pub done : Result Error (Unit {0}) → Answer A
  done (ok x) = ok none
  done (err e) = err e

  abbrev pub without_value : Result Error (Unit {0}) × Registry A → Answer A × Registry A
  without_value r = (done r.0, r.1)

  abbrev pub perform : Call A → Registry A → Answer A × Registry A
  perform (describe t d s) r = without_value (register_type schema_version migrations t d s r)
  perform (upsert k a s v) r = without_value (upsert_entry schema_version migrations k a s v r)
  perform (delete k s) r = without_value (delete_entry schema_version migrations k s r)
  perform (set k v s) r = without_value (set_value schema_version migrations k v s r)
  perform (get k s) r = get_entry schema_version migrations k s r
  perform (log e s) r = without_value (record_event schema_version migrations e s r)

  apply_migrations_current :
      (db : Database A)
      → db.version ≡ schema_version
      → apply_migrations schema_version migrations db ≡ (ok tt, db)
  unfolding apply_migrations migrate
  apply_migrations_current db h =
      let given : (db.version == 0) ≡ false = ground arith in
      let same : (schema_version - db.version) ≡ 0 = omega arith in
      let not_newer : ltb schema_version db.version ≡ false = ground arith in
      rw (given, not_newer, same, apply_migrations) refl

  pub with_db_current :
      {X : Type 0} (s : Scope) (f : Database A → Result Error X × Database A) (r : Registry A)
      (db : Database A)
      → db_at s r ≡ some db
      → db.version ≡ schema_version
      → with_db schema_version migrations s f r ≡ ((f db).0, put_db s (f db).1 r)
  unfolding with_db
  with_db_current s f r db h v =
      let opened = apply_migrations_current db v in
      let first = ap (λ (o : Result Error (Unit {0}) × Database A). o.0) opened in
      let last = ap (λ (o : Result Error (Unit {0}) × Database A). o.1) opened in
      rw (h, first, with_db) (ap (λ (d : Database A). ((f d).0, put_db s (f d).1 r)) last)

  pub put_db-IsReady :
      (s : Scope) (db : Database A) (r : Registry A)
      → db.version ≡ schema_version
      → IsReady r
      → IsReady (put_db s db r)
  put_db-IsReady global db r v ready global = (db, refl, v)
  put_db-IsReady global db r v ready protected = ready protected
  put_db-IsReady protected db r v ready global = ready global
  put_db-IsReady protected db r v ready protected = (db, refl, v)

  pub holds-put_db :
      (s t : Scope) (db : Database A) (r : Registry A) (k : Key)
      → holds (put_db s db r) t k ≡ (if t == s then seen_in k (some db) else holds r t k)
  unfolding scope_eq
  holds-put_db global global db r k = refl
  holds-put_db global protected db r k = refl
  holds-put_db protected global db r k = refl
  holds-put_db protected protected db r k = refl
