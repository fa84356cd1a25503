-- ===== src/Settings/Refines.antt =====
-- The tables of the registry keep the map of Spec.
use base_line_prox.Base.{
  ℕ, ◌≤◌, ◌≡◌, refl, sym, ap, subst, ◌∙◌, Option, none, some, List, [], ◌∷◌, ◌==◌, nat_eq,
  if◌then◌else◌, arith, Option-cases, Bool-cases, inl, inr, Result, ok, err,
}
use base_line_prox.Base.Dict.{Dict, lookup, lookup-insert, lookup-erase, insert, erase}
use base_line_prox.Settings.Registry.{
  Value, nothing, flag, number, text, Key, key_eq, Scope, scope_eq, Error, key_error, Entry,
  Database, Registry, Migrations, stored, db_at, with_db, view, viewed, upserted_value, type_in,
  upserted, upsert_in, delete_in, set_in, get_in, record_in, register_type, upsert_entry,
  delete_entry, set_value, get_entry, record_event,
}
use base_line_prox.Settings.Spec.{
  Call, describe, upsert, delete, set, get, log, Spec, Answer, update, or_kept, spec_step, seen_in,
  holds, IsReady, done, perform, with_db_current, put_db-IsReady, holds-put_db,
}

module _ {A : Type 0} (schema_version : ℕ) (migrations : Migrations A)
    (positive : 1 ≤ schema_version) where
  -- an answer and the tables are as the map says
  pub record Follows (out : Answer A × Registry A) (spec : Answer A × Spec A) : Type 0 where
    pub same : out.0 ≡ spec.0
    pub ready : IsReady schema_version migrations positive out.1
    pub agrees : (s : Scope) (k : Key) → holds out.1 s k ≡ spec.1 s k

  with_db-Follows :
      {X : Type 0} (g : Result Error X → Answer A) (s : Scope)
      (f : Database A → Result Error X × Database A) (r : Registry A) (db : Database A) (σ : Spec A)
      → IsReady schema_version migrations positive r
      → db_at s r ≡ some db
      → db.version ≡ schema_version
      → ((f db).1).version ≡ db.version
      → ((t : Scope) (j : Key)
          → (if t == s then seen_in j (some (f db).1) else holds r t j) ≡ σ t j)
      → Follows
          (
            g (with_db schema_version migrations s f r).0,
            (with_db schema_version migrations s f r).1,
          )
          (g (f db).0, σ)
  with_db-Follows {X} g s f r db σ ready at v same agrees =
      subst (λ (o : Result Error X × Registry A). Follows (g o.0, o.1) (g (f db).0, σ))
        (sym (with_db_current schema_version migrations positive s f r db at v))
        (record {
          same = refl;
          ready = put_db-IsReady schema_version migrations positive s (f db).1 r (same ∙ v) ready;
          agrees =
              λ t k. holds-put_db schema_version migrations positive s t (f db).1 r k ∙ agrees t k;
        })

  module _ (s : Scope) (r : Registry A) (db : Database A) (σ : Spec A) (at : db_at s r ≡ some db)
      (agrees : (t : Scope) (k : Key) → holds r t k ≡ σ t k) where
    here : (j : Key) → viewed (lookup j db.entries) ≡ σ s j
    here j = sym (ap (seen_in j) at) ∙ agrees s j

    unchanged :
        (t : Scope) (j : Key)
        → (if t == s then viewed (lookup j db.entries) else holds r t j) ≡ σ t j
    unchanged t j = elim (Bool-cases (t == s)) [
      | inl q ↦ let e : t ≡ s = ground arith in rw q (here j ∙ ap (λ (x : Scope). σ x j) (sym e))
      | inr q ↦ rw q (agrees t j)
    ]

    -- one key has another entry, or none
    changed :
        (k : Key) (x : Option (A × Value)) (rows : Dict Key (Entry A))
        → ((j : Key)
            → viewed (lookup j rows) ≡ (if j == k then x else viewed (lookup j db.entries)))
        → (t : Scope) (j : Key)
        → (if t == s then viewed (lookup j rows) else holds r t j) ≡ update s k x σ t j
    changed k x rows is t j = elim (Bool-cases (t == s)) [
      | inr q ↦ rw q (agrees t j)
      | inl q ↦ elim (Bool-cases (j == k)) [
        | inl p ↦ rw (q, is j, p) refl
        | inr p ↦
            let e : t ≡ s = ground arith in
            rw (q, is j, p) (here j ∙ ap (λ (x : Scope). σ x j) (sym e))
      ]
    ]

    inserted :
        (k : Key) (entry : Entry A) (t : Scope) (j : Key)
        → (if t == s then viewed (lookup j (insert k entry db.entries)) else holds r t j)
          ≡ update s k (some (view entry)) σ t j
    inserted k entry = changed k (some (view entry)) (insert k entry db.entries) (λ j.
        elim (Bool-cases (j == k)) [
          | inl p ↦ rw (lookup-insert j k entry db.entries, p) refl
          | inr p ↦ rw (lookup-insert j k entry db.entries, p) refl
        ])

    erased :
        (k : Key) (t : Scope) (j : Key)
        → (if t == s then viewed (lookup j (erase k db.entries)) else holds r t j)
          ≡ update s k none σ t j
    erased k = changed k none (erase k db.entries) (λ j. elim (Bool-cases (j == k)) [
      | inl p ↦ rw (lookup-erase j k db.entries, p) refl
      | inr p ↦ rw (lookup-erase j k db.entries, p) refl
    ])

  stored-upserted_value :
      (old : Option (Entry A)) (x : Value) → stored (upserted_value old x) ≡ or_kept (viewed old) x
  stored-upserted_value none nothing = refl
  stored-upserted_value none (flag b) = refl
  stored-upserted_value none (number n) = refl
  stored-upserted_value none (text t) = refl
  stored-upserted_value (some entry) nothing = refl
  stored-upserted_value (some entry) (flag b) = refl
  stored-upserted_value (some entry) (number n) = refl
  stored-upserted_value (some entry) (text t) = refl

  view-upserted :
      (k : Key) (a : A) (s : Scope) (x : Value) (db : Database A)
      → view (upserted k a s x db) ≡ (a, or_kept (viewed (lookup k db.entries)) x)
  view-upserted k a s x db = ap (λ y. (a, y)) (stored-upserted_value (lookup k db.entries) x)

  pub perform-Follows :
      (c : Call A) (r : Registry A) (σ : Spec A)
      → IsReady schema_version migrations positive r
      → ((s : Scope) (k : Key) → holds r s k ≡ σ s k)
      → Follows (perform schema_version migrations positive c r) (spec_step c σ)
  unfolding register_type upsert_entry delete_entry set_value get_entry record_event
  perform-Follows (describe type_id d s) r σ ready agrees =
      let (db, at, v) = ready s in
      with_db-Follows (done schema_version migrations positive) s (type_in type_id d s) r db σ ready
        at v refl (unchanged s r db σ at agrees)
  perform-Follows (upsert k a s x) r σ ready agrees =
      let (db, at, v) = ready s in
      with_db-Follows (done schema_version migrations positive) s (upsert_in k a s x) r db _ ready
        at v refl
        (λ t j.
          inserted s r db σ at agrees k (upserted k a s x db) t j
          ∙ ap (λ y. update s k (some y) σ t j)
              (view-upserted k a s x db ∙ ap (λ o. (a, or_kept o x)) (here s r db σ at agrees k)))
  perform-Follows (delete k s) r σ ready agrees =
      let (db, at, v) = ready s in
      with_db-Follows (done schema_version migrations positive) s (delete_in k) r db _ ready at v
        refl (erased s r db σ at agrees k)
  perform-Follows (set k x s) r σ ready agrees =
      let (db, at, v) = ready s in
      elim (Option-cases (lookup k db.entries)) [
        | inl q ↦
            let absent : σ s k ≡ none = sym (here s r db σ at agrees k) ∙ ap viewed q in
            let answer : done schema_version migrations positive (set_in k x db).0 ≡ err key_error =
              rw (q, set_in) refl in
            rw (absent, spec_step)
              (subst
                (λ o. Follows (perform schema_version migrations positive (set k x s) r) (o, σ))
                answer
                (with_db-Follows (done schema_version migrations positive) s (set_in k x) r db σ
                  ready at v (rw (q, set_in) refl) (rw (q, set_in) (unchanged s r db σ at agrees))))
        | inr (entry, q) ↦
            let there : σ s k ≡ some (view entry) = sym (here s r db σ at agrees k) ∙ ap viewed q in
            let answer : done schema_version migrations positive (set_in k x db).0 ≡ ok none =
              rw (q, set_in) refl in
            rw (there, spec_step)
              (subst
                (λ o.
                  Follows (perform schema_version migrations positive (set k x s) r)
                    (o, update s k (some (entry.attributes, x)) σ))
                answer
                (with_db-Follows (done schema_version migrations positive) s (set_in k x) r db
                  (update s k (some (entry.attributes, x)) σ) ready at v (rw (q, set_in) refl)
                  (rw (q, set_in)
                    (inserted s r db σ at agrees k (record entry { value = some x })))))
      ]
  perform-Follows (get k s) r σ ready agrees =
      let (db, at, v) = ready s in
      subst (λ o. Follows (perform schema_version migrations positive (get k s) r) (ok o, σ))
        (here s r db σ at agrees k)
        (with_db-Follows (λ o. o) s (get_in k) r db σ ready at v refl
          (unchanged s r db σ at agrees))
  perform-Follows (log event s) r σ ready agrees =
      let (db, at, v) = ready s in
      with_db-Follows (done schema_version migrations positive) s (record_in event) r db σ ready at
        v refl (unchanged s r db σ at agrees)

  abbrev pub run : List (Call A) → Registry A → List (Answer A) × Registry A
  run [] r = ([], r)
  run (c ∷ cs) r =
      let rest = run cs (perform schema_version migrations positive c r).1 in
      ((perform schema_version migrations positive c r).0 ∷ rest.0, rest.1)

  abbrev pub spec_run : List (Call A) → Spec A → List (Answer A) × Spec A
  spec_run [] σ = ([], σ)
  spec_run (c ∷ cs) σ =
      let rest = spec_run cs (spec_step c σ).1 in ((spec_step c σ).0 ∷ rest.0, rest.1)

  run_from :
      (cs : List (Call A)) (r : Registry A) (σ : Spec A)
      → IsReady schema_version migrations positive r
      → ((s : Scope) (k : Key) → holds r s k ≡ σ s k)
      → ((run cs r).0 ≡ (spec_run cs σ).0)
        × ((s : Scope) (k : Key) → holds (run cs r).1 s k ≡ (spec_run cs σ).1 s k)
  run_from [] r σ ready agrees = (refl, agrees)
  run_from (c ∷ cs) r σ ready agrees =
      let f = perform-Follows c r σ ready agrees in
      let rest =
        run_from cs (perform schema_version migrations positive c r).1 (spec_step c σ).1 f.ready
          f.agrees in
      (cc (f.same, rest.0), rest.1)

  -- Where both databases are there with the current schema, any calls answer as a map from scopes and keys
  -- to attributes and values does, and leave what the map has: a definition that is written again without
  -- a value keeps the stored value, a value can be set only where there is a definition, and descriptions
  -- and events change nothing. The schema has at least version 1.
  pub run_refines :
      (cs : List (Call A)) (r : Registry A)
      → IsReady schema_version migrations positive r
      → ((run cs r).0 ≡ (spec_run cs (holds r)).0)
        × ((s : Scope) (k : Key) → holds (run cs r).1 s k ≡ (spec_run cs (holds r)).1 s k)
  run_refines cs r ready = run_from cs r (holds r) ready (λ s k. refl)
