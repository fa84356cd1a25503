-- ===== src/Base/Dict.antt =====
-- Dicts in insertion order.
use base_line_prox.Base.Equality.{Eq, ◌==◌, if◌then◌else◌, contains, Distinct}
use base_line_prox.Base.Lists.{length}
use Prim.Native.Nat.{suc, ◌≤◌}
use mathlib.Core.Path.{◌≡◌, refl}
use mathlib.Core.Bool.{Bool, true, false, ◌||◌}
use mathlib.Core.Option.{Option, none, some}
use mathlib.Core.List.{List, [], ◌∷◌}
use native.Mathlib.Omega.{arith}

abbrev pub Dict {ℓ κ} : Type ℓ → Type κ → Type (ℓ ⊔ κ)
Dict K V = List (K × V)

module _ {ℓ κ} {K : Type ℓ} {V : Type κ} where
  abbrev pub values : Dict K V → List V
  values [] = []
  values ((k, v) ∷ d) = v ∷ values d

  abbrev pub keys : Dict K V → List K
  keys [] = []
  keys ((k, v) ∷ d) = k ∷ keys d

  -- deletes the entries whose value fails the test
  abbrev pub keep_values : (V → Bool) → Dict K V → Dict K V
  keep_values p [] = []
  keep_values p ((k, v) ∷ d) = let rest = keep_values p d in if p v then (k, v) ∷ rest else rest

  -- the first entry whose value passes the test, as a `for` over `d.items()` that returns
  abbrev pub find_entry : (V → Bool) → Dict K V → Option (K × V)
  find_entry p [] = none
  find_entry p ((k, v) ∷ d) = let rest = find_entry p d in if p v then some (k, v) else rest

  pub length-keep_values-le : (p : V → Bool) (d : Dict K V) → length (keep_values p d) ≤ length d
  length-keep_values-le p [] = omega arith
  length-keep_values-le p ((k, v) ∷ d) = ground (arith, length-keep_values-le p d)

module _ {ℓ κ} {K : Type ℓ} {V : Type κ} ⦃e : Eq K⦄ where
  -- `d.get(k)`
  unfoldable pub lookup : K → Dict K V → Option V
  lookup k [] = none
  lookup k ((j, v) ∷ d) = if k == j then some v else lookup k d

  -- `k in d`
  abbrev pub has_key : K → Dict K V → Bool
  has_key k d = elim (lookup k d) [ none ↦ false | some v ↦ true ]

  -- `d[k] = v`
  unfoldable pub insert : K → V → Dict K V → Dict K V
  insert k v [] = (k, v) ∷ []
  insert k v ((j, w) ∷ d) = if k == j then (k, v) ∷ d else (j, w) ∷ insert k v d

  -- `d.pop(k, None)`. Every entry of the key goes; a real dict has at most one.
  unfoldable pub erase : K → Dict K V → Dict K V
  erase k [] = []
  erase k ((j, w) ∷ d) = let rest = erase k d in if k == j then rest else (j, w) ∷ rest

  pub lookup-insert :
      (j k : K) (v : V) (d : Dict K V)
      → lookup j (insert k v d) ≡ (if j == k then some v else lookup j d)
  unfolding insert lookup
  lookup-insert j k v [] = refl
  lookup-insert j k v (_ ∷ d) = ground (arith, lookup-insert j k v d)

  pub lookup-erase :
      (j k : K) (d : Dict K V) → lookup j (erase k d) ≡ (if j == k then none else lookup j d)
  unfolding erase lookup
  lookup-erase j k [] = ground arith
  lookup-erase j k (_ ∷ d) = ground (arith, lookup-erase j k d)

  pub lookup-keep_values :
      (p : V → Bool) (k : K) (d : Dict K V) (v : V)
      → lookup k (keep_values p d) ≡ some v
      → p v ≡ true
  unfolding lookup
  lookup-keep_values p k [] v h = cc
  lookup-keep_values p k ((j, w) ∷ d) v h = ground (arith, lookup-keep_values p k d v)

  pub keep_values_absent :
      (p : V → Bool) (k : K) (d : Dict K V) → lookup k d ≡ none → lookup k (keep_values p d) ≡ none
  unfolding lookup
  keep_values_absent p k [] h = refl
  keep_values_absent p k ((j, w) ∷ d) h = ground (arith, keep_values_absent p k d)

  pub length-insert-le : (k : K) (v : V) (d : Dict K V) → length (insert k v d) ≤ suc (length d)
  unfolding insert
  length-insert-le k v [] = omega arith
  length-insert-le k v ((j, w) ∷ d) = ground (arith, length-insert-le k v d)

  -- an insertion at a key that is there replaces its value
  pub length-insert_old :
      (k : K) (v w : V) (d : Dict K V) → lookup k d ≡ some w → length (insert k v d) ≡ length d
  unfolding insert lookup
  length-insert_old k v w [] h = cc
  length-insert_old k v w ((j, x) ∷ d) h = ground (arith, length-insert_old k v w d)

  pub length-erase-le : (k : K) (d : Dict K V) → length (erase k d) ≤ length d
  unfolding erase
  length-erase-le k [] = omega arith
  length-erase-le k ((j, x) ∷ d) = ground (arith, length-erase-le k d)

  abbrev pub NodupKeys : Dict K V → Type κ
  NodupKeys [] = Unit
  NodupKeys ((k, _) ∷ d) = (lookup k d ≡ none) × NodupKeys d

  pub contains-keys-insert :
      (j k : K) (v : V) (d : Dict K V)
      → contains (keys (insert k v d)) j ≡ (j == k || contains (keys d) j)
  unfolding insert
  contains-keys-insert j k v [] = refl
  contains-keys-insert j k v ((i, w) ∷ d) = ground (arith, contains-keys-insert j k v d)

  pub keys-lookup : (d : Dict K V) (k : K) → lookup k d ≡ none → contains (keys d) k ≡ false
  unfolding lookup
  keys-lookup [] k q = refl
  keys-lookup ((j, u) ∷ d) k q = ground (arith, keys-lookup d k)

  pub contains-keys :
      (k : K) (t : V) (d : Dict K V) → lookup k d ≡ some t → contains (keys d) k ≡ true
  unfolding lookup
  contains-keys k t [] q = cc
  contains-keys k t ((j, u) ∷ d) q = ground (arith, contains-keys k t d)

  pub keys-Distinct : (d : Dict K V) → NodupKeys d → Distinct (keys d)
  keys-Distinct [] h = tt
  keys-Distinct ((k, v) ∷ d) h = (keys-lookup d k h.0, keys-Distinct d h.1)

  pub NodupKeys-insert : (k : K) (v : V) (d : Dict K V) → NodupKeys d → NodupKeys (insert k v d)
  unfolding insert lookup
  NodupKeys-insert k v [] h = (refl, tt)
  NodupKeys-insert k v ((j, w) ∷ d) h =
      ground (arith, lookup-insert j k v d, NodupKeys-insert k v d h.1)

module _ {ℓ κ μ} {K : Type ℓ} {V : Type κ} ⦃e : Eq K⦄ (P : K → V → Type μ) where
  -- every entry satisfies `P`
  abbrev pub Entries : Dict K V → Type μ
  Entries [] = Unit
  Entries ((k, v) ∷ d) = P k v × Entries d

  pub Entries-insert : (k : K) (v : V) (d : Dict K V) → P k v → Entries d → Entries (insert k v d)
  unfolding insert
  Entries-insert k v [] p h = (p, tt)
  Entries-insert k v ((j, w) ∷ d) p h = ground (arith, Entries-insert k v d p h.1)

  pub Entries-erase : (k : K) (d : Dict K V) → Entries d → Entries (erase k d)
  unfolding erase
  Entries-erase k [] h = tt
  Entries-erase k ((j, w) ∷ d) h = ground (arith, Entries-erase k d h.1)

  pub Entries-keep_values : (p : V → Bool) (d : Dict K V) → Entries d → Entries (keep_values p d)
  Entries-keep_values p [] h = tt
  Entries-keep_values p ((k, v) ∷ d) h = ground (arith, Entries-keep_values p d h.1)

  pub Entries-find_entry :
      (p : V → Bool) (d : Dict K V) (k : K) (v : V)
      → Entries d
      → find_entry p d ≡ some (k, v)
      → P k v × (p v ≡ true)
  Entries-find_entry p [] k v h q = cc
  Entries-find_entry p ((j, w) ∷ d) k v h q = ground (arith, Entries-find_entry p d k v h.1)

  -- of the entry that a lookup finds
  pub Entries-lookup : (k : K) (d : Dict K V) (v : V) → Entries d → lookup k d ≡ some v → P k v
  unfolding lookup
  Entries-lookup k [] v h q = cc
  Entries-lookup k ((j, w) ∷ d) v h q = ground (arith, Entries-lookup k d v h.1)

module _ {ℓ κ μ ν} {K : Type ℓ} {V : Type κ} ⦃e : Eq K⦄ (P : K → V → Type μ)
    (Q : K → V → Type ν) where
  pub Entries-map : ((k : K) (v : V) → P k v → Q k v) → (d : Dict K V) → Entries P d → Entries Q d
  Entries-map f [] h = tt
  Entries-map f ((k, v) ∷ d) h = (f k v h.0, Entries-map f d h.1)

  -- the same, with the key known to be one of the dict's
  pub Entries-map_keys :
      (d : Dict K V)
      → ((k : K) (v : V) → contains (keys d) k ≡ true → P k v → Q k v)
      → Entries P d
      → Entries Q d
  Entries-map_keys [] f h = tt
  Entries-map_keys ((k, v) ∷ d) f h =
      (f k v (ground arith) h.0, Entries-map_keys d (λ j u c. f j u (ground arith)) h.1)
