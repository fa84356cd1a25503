-- ===== src/Settings/Reads.antt =====
-- What is set is what is read.
use base_line_prox.Base.{
  ℕ, ◌≤◌, ◌≡◌, ◌≢◌, refl, sym, ap, subst, ◌∙◌, Bool, true, false, ◌&&◌, Option, none, some, List,
  [], ◌∷◌, ◌==◌, if◌then◌else◌, arith, Option-cases, Bool-cases, inl, inr, Result, ok, err,
}
use base_line_prox.Base.Dict.{Dict, insert, Entries, Entries-insert, Entries-lookup}
use base_line_prox.Settings.Registry.{
  Value, nothing, Key, key_eq, Scope, scope_eq, Error, value_error, Registry, Migrations, Step,
  register_type, upsert_entry, get_entry, set_value,
}
use base_line_prox.Settings.Spec.{
  describe, upsert, get, set, Spec, update, kept, spec_step, holds, IsReady, done, without_value,
  perform,
}
use base_line_prox.Settings.Refines.{Follows, perform-Follows}
use base_line_prox.Settings.Store.{
  SettingDef, Attributes, key_of, by_key, definition_of, is_allowed, attributes_of, or_default,
  effective, after, pure, sync_definition, get_setting, set_setting,
}

by_key-Entries :
    (schema : List SettingDef) (d : Dict Key SettingDef)
    → Entries (λ k s. key_of s ≡ k) d
    → Entries (λ k s. key_of s ≡ k) (by_key schema d)
by_key-Entries [] d h = h
by_key-Entries (s ∷ schema) d h =
    by_key-Entries schema (insert (key_of s) s d)
      (Entries-insert (λ k s. key_of s ≡ k) (key_of s) s d refl h)

pub definition_of-key :
    (schema : List SettingDef) (key : Key) (d : SettingDef)
    → definition_of schema key ≡ some d
    → key_of d ≡ key
unfolding definition_of
definition_of-key schema key d h =
    Entries-lookup (λ k s. key_of s ≡ k) key (by_key schema []) d (by_key-Entries schema [] tt) h

-- the value that is stored for a setting
abbrev pub stored_at : Registry Attributes → Scope → Key → Value
stored_at r s k = kept (holds r s k)

module _ (schema_version : ℕ) (migrations : Migrations Attributes)
    (positive : 1 ≤ schema_version) where
  abbrev pub Ready : Registry Attributes → Type 0
  Ready = IsReady schema_version migrations positive

  done_ok :
      (x : Result Error (Unit {0}))
      → done schema_version migrations positive x ≡ ok none
      → x ≡ ok tt
  done_ok (ok u) h = refl
  done_ok (err e) h = absurd (cc h)

  -- the call of a step that answers with nothing
  runs :
      (m : Step Attributes (Unit {0})) (r : Registry Attributes) (σ : Spec Attributes)
      → Follows schema_version migrations positive
          (without_value schema_version migrations positive (m r))
          (ok none, σ)
      → m r ≡ (ok tt, (m r).1)
  runs m r σ f = ap (λ (x : Result Error (Unit {0})). (x, (m r).1)) (done_ok (m r).0 f.same)

  pub record Synced (d : SettingDef) (r n : Registry Attributes) : Type 0 where
    pub runs_on : sync_definition schema_version migrations d r ≡ (ok tt, n)
    pub ready : Ready n
    pub holds_on :
        (s : Scope) (k : Key)
        → holds n s k
          ≡ update d.scope
              (key_of d)
              (some (attributes_of d, stored_at r d.scope (key_of d)))
              (holds r)
              s
              k

  pub sync-Synced :
      (d : SettingDef) (r : Registry Attributes)
      → Ready r
      → (n : Registry Attributes) × Synced d r n
  unfolding sync_definition
  sync-Synced d r ready =
      let described =
        perform-Follows schema_version migrations positive (describe d.group d.description d.scope)
          r (holds r) ready (λ s k. refl) in
      let m = (register_type schema_version migrations d.group d.description d.scope r).1 in
      let first =
        runs (register_type schema_version migrations d.group d.description d.scope) r (holds r)
          described in
      let written =
        perform-Follows schema_version migrations positive
          (upsert (key_of d) (attributes_of d) d.scope nothing) m (holds r) described.ready
          described.agrees in
      let second =
        runs (upsert_entry schema_version migrations (key_of d) (attributes_of d) d.scope nothing) m
          _ written in
      (
        (upsert_entry schema_version migrations (key_of d) (attributes_of d) d.scope nothing m).1,
        record {
          runs_on = rw (first, sync_definition) second;
          ready = written.ready;
          holds_on = written.agrees;
        },
      )

  effective-after :
      (d : SettingDef) (x : Result Error (Option (Attributes × Value)) × Registry Attributes)
      (entry : Option (Attributes × Value))
      → x.0 ≡ ok entry
      → (after schema_version migrations (λ e. pure schema_version migrations (effective d e)) x).0
        ≡ ok (effective d entry)
  effective-after d (ok e, r) entry h = cc h
  effective-after d (err e, r) entry h = absurd (cc h)

  pub Synced-at :
      (d : SettingDef) (r n : Registry Attributes)
      → Synced d r n
      → (s : Scope) (k : Key) → stored_at n s k ≡ stored_at r s k
  Synced-at d r n sync s k = elim (Bool-cases (s == d.scope && k == key_of d)) [
    | inr q ↦ let same : holds n s k ≡ holds r s k = sync.holds_on s k ∙ rw q refl in ap kept same
    | inl q ↦
        let scope_is : s ≡ d.scope = ground arith in
        let key_is : k ≡ key_of d = ground arith in
        let there : holds n s k ≡ some (attributes_of d, stored_at r d.scope (key_of d)) =
          sync.holds_on s k ∙ rw q refl in
        ap kept there
        ∙ sym (ap (λ (t : Scope). stored_at r t k) scope_is ∙ ap (stored_at r d.scope) key_is)
  ]

  Synced-entry :
      (schema : List SettingDef) (key : Key) (d : SettingDef) (r n : Registry Attributes)
      → definition_of schema key ≡ some d
      → Synced d r n
      → holds n d.scope key ≡ some (attributes_of d, stored_at r d.scope key)
  Synced-entry schema key d r n h sync =
      let here : (d.scope == d.scope && key_of d == key_of d) ≡ true = ground arith in
      subst (λ k. holds n d.scope k ≡ some (attributes_of d, stored_at r d.scope k))
        (definition_of-key schema key d h) (sync.holds_on d.scope (key_of d) ∙ rw here refl)

  pub get_reads :
      (schema : List SettingDef) (key : Key) (d : SettingDef) (r : Registry Attributes)
      → Ready r
      → definition_of schema key ≡ some d
      → (get_setting schema_version migrations schema key r).0
        ≡ ok (or_default d.default (stored_at r d.scope key))
  unfolding get_setting
  get_reads schema key d r ready h =
      let (n, sync) = sync-Synced d r ready in
      let read =
        perform-Follows schema_version migrations positive (get key d.scope) n (holds n) sync.ready
          (λ s k. refl) in
      let found = Synced-entry schema key d r n h sync in
      rw (h, sync.runs_on, get_setting)
        (effective-after d (get_entry schema_version migrations key d.scope n) _
          (read.same ∙ ap ok found))

  -- what `set_setting` comes to, by whether the value is allowed
  abbrev pub Sets : List SettingDef → Key → SettingDef → Value → Registry Attributes → Bool → Type 0
  Sets schema key d v r false =
      set_setting schema_version migrations schema key v r ≡ (err value_error, r)
  Sets schema key d v r true =
      (n : Registry Attributes) × (set_setting schema_version migrations schema key v r
        ≡ (ok tt, n))
      × Ready n
      × ((get_setting schema_version migrations schema key n).0 ≡ ok (or_default d.default v))
      × ((j : Key)
          → j ≢ key
          → (get_setting schema_version migrations schema j n).0
            ≡ (get_setting schema_version migrations schema j r).0)

  pub record Written (d : SettingDef) (v : Value) (schema : List SettingDef) (key : Key)
      (r n : Registry Attributes) : Type 0 where
    pub runs_on : set_setting schema_version migrations schema key v r ≡ (ok tt, n)
    pub ready : Ready n
    pub stored_on :
        (s : Scope) (k : Key)
        → stored_at n s k ≡ (if s == d.scope && k == key then v else stored_at r s k)

  pub set_writes :
      (schema : List SettingDef) (key : Key) (d : SettingDef) (v : Value) (r : Registry Attributes)
      → Ready r
      → definition_of schema key ≡ some d
      → is_allowed d v ≡ true
      → (n : Registry Attributes) × Written d v schema key r n
  unfolding set_setting
  set_writes schema key d v r ready h allowed =
      let (n, sync) = sync-Synced d r ready in
      let found = Synced-entry schema key d r n h sync in
      let call = set key v d.scope in
      let next = update d.scope key (some (attributes_of d, v)) (holds n) in
      let expected : spec_step call (holds n) ≡ (ok none, next) = rw (found, spec_step) refl in
      let written =
        subst
          (Follows schema_version migrations positive
            (perform schema_version migrations positive call n))
          expected
          (perform-Follows schema_version migrations positive call n (holds n) sync.ready
            (λ s k. refl)) in
      let m = (set_value schema_version migrations key v d.scope n).1 in
      let last = runs (set_value schema_version migrations key v d.scope) n next written in
      (
        m,
        record {
          runs_on = rw (h, allowed, sync.runs_on, set_setting) last;
          ready = written.ready;
          stored_on = λ s k.
              ap kept (written.agrees s k) ∙ elim (Bool-cases (s == d.scope && k == key)) [
                | inl q ↦ rw q refl
                | inr q ↦ rw q (Synced-at d r n sync s k)
              ];
        },
      )

  reads_set :
      (schema : List SettingDef) (key : Key) (d : SettingDef) (v : Value)
      (r n : Registry Attributes)
      → definition_of schema key ≡ some d
      → Written d v schema key r n
      → (get_setting schema_version migrations schema key n).0 ≡ ok (or_default d.default v)
  reads_set schema key d v r n h w =
      let here : (d.scope == d.scope && key == key) ≡ true = ground arith in
      get_reads schema key d n w.ready h
      ∙ ap (λ x. ok (or_default d.default x)) (w.stored_on d.scope key ∙ rw here refl)

  reads_others :
      (schema : List SettingDef) (key : Key) (d : SettingDef) (v : Value)
      (r n : Registry Attributes)
      → Ready r
      → definition_of schema key ≡ some d
      → Written d v schema key r n
      → (j : Key) → j ≢ key
      → (get_setting schema_version migrations schema j n).0
        ≡ (get_setting schema_version migrations schema j r).0
  unfolding get_setting
  reads_others schema key d v r n ready h w j other = elim (Option-cases (definition_of schema j)) [
    | inl q ↦ rw (q, get_setting) refl
    | inr (c, q) ↦
        let differs : (c.scope == d.scope && j == key) ≡ false = ground arith in
        get_reads schema j c n w.ready q
        ∙ ap (λ x. ok (or_default c.default x)) (w.stored_on c.scope j ∙ rw differs refl)
        ∙ sym (get_reads schema j c r ready q)
  ]

  -- Setting a value goes through exactly if it is among the options, where there are some, and begins with
  -- `vault://`, where the setting refers to a secret. Where it is refused, nothing changes. Where it goes
  -- through, the setting then reads as this value, or as its default if the value is `None`, and every
  -- other setting reads as before. Both databases are there, with the current schema of version 1 or
  -- above, and the setting is defined.
  pub set_setting-get_setting :
      (schema : List SettingDef) (key : Key) (d : SettingDef) (v : Value) (r : Registry Attributes)
      → Ready r
      → definition_of schema key ≡ some d
      → Sets schema key d v r (is_allowed d v)
  unfolding set_setting
  set_setting-get_setting schema key d v r ready h = elim (Bool-cases (is_allowed d v)) [
    | inr q ↦ rw (q, Sets) (rw (h, q, set_setting) refl)
    | inl q ↦
        let (n, w) = set_writes schema key d v r ready h q in
        rw (q, Sets)
          (
            n,
            w.runs_on,
            w.ready,
            reads_set schema key d v r n h w,
            reads_others schema key d v r n ready h w,
          )
  ]
