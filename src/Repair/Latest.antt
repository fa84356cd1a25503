-- ===== src/Repair/Latest.antt =====
-- Lists of closed attempts, the latest first, as `prune_old_backups` of baseline/lib/repair.py sorts them.
use base_line_prox.Base.{
  ℕ, zero, suc, ◌≤◌, ◌≡◌, ◌⊎◌, inl, inr, refl, sym, subst, ◌∙◌, true, false, ◌||◌, List, [], ◌∷◌,
  ◌==◌, codes_eq, nat_eq, leb, Distinct, arith, contains, take, drop, length, All, Bool-cases,
}
use base_line_prox.Base.Dict.{keys}
use base_line_prox.Interfaces.Data.{Text}
use base_line_prox.Repair.Attempts.{insert_latest, latest_first}

abbrev pub Closed : Type 0
Closed = List (Text × ℕ)

abbrev pub In : Text × ℕ → Closed → Type 0
In x [] = ⊥
In x (y ∷ ys) = (x ≡ y) ⊎ In x ys

abbrev pub IsLatest : Closed → Type 0
IsLatest [] = Unit
IsLatest (x ∷ xs) = All (λ y. y.1 ≤ x.1) xs × IsLatest xs

pub All-insert_latest :
    (P : Text × ℕ → Type 0) (x : Text × ℕ) (xs : Closed)
    → P x
    → All P xs
    → All P (insert_latest x xs)
All-insert_latest P x [] h k = (h, tt)
All-insert_latest P x (y ∷ ys) h k = ground (arith, All-insert_latest P x ys h k.1)

pub All-latest_first : (P : Text × ℕ → Type 0) (xs : Closed) → All P xs → All P (latest_first xs)
unfolding latest_first
All-latest_first P [] h = tt
All-latest_first P (x ∷ xs) h =
    All-insert_latest P x (latest_first xs) h.0 (All-latest_first P xs h.1)

pub All-le : (m n : ℕ) (xs : Closed) → m ≤ n → All (λ y. y.1 ≤ m) xs → All (λ y. y.1 ≤ n) xs
All-le m n [] h k = tt
All-le m n (x ∷ xs) h k = (omega (arith, k.0), All-le m n xs h k.1)

pub insert_latest-IsLatest :
    (x : Text × ℕ) (xs : Closed) → IsLatest xs → IsLatest (insert_latest x xs)
insert_latest-IsLatest x [] h = (tt, tt)
insert_latest-IsLatest x (y ∷ ys) h = elim (Bool-cases (leb y.1 x.1)) [
  | inl q ↦ rw q ((ground arith, All-le y.1 x.1 ys (ground arith) h.0), h)
  | inr q ↦
      rw q (
        All-insert_latest (λ z. z.1 ≤ y.1) x ys (ground arith) h.0,
        insert_latest-IsLatest x ys h.1,
      )
]

pub latest_first-IsLatest : (xs : Closed) → IsLatest (latest_first xs)
unfolding latest_first
latest_first-IsLatest [] = tt
latest_first-IsLatest (x ∷ xs) =
    insert_latest-IsLatest x (latest_first xs) (latest_first-IsLatest xs)

pub All-In : (m : ℕ) (xs : Closed) (x : Text × ℕ) → All (λ y. y.1 ≤ m) xs → In x xs → x.1 ≤ m
All-In m (y ∷ ys) x h (inl q) = rw q h.0
All-In m (y ∷ ys) x h (inr i) = All-In m ys x h.1 i
All-In m [] x h i = absurd i

pub All-drop :
    (n : ℕ) (xs : Closed) (x : Text × ℕ) {m : ℕ}
    → All (λ y. y.1 ≤ m) xs
    → In x (drop n xs)
    → x.1 ≤ m
All-drop zero xs x {m} h i = All-In m xs x h i
All-drop (suc n) [] x h i = absurd i
All-drop (suc n) (y ∷ ys) x {m} h i = All-drop n ys x h.1 i

-- what stands behind the first ones is not later than they are
pub take-later :
    (n : ℕ) (xs : Closed) (x : Text × ℕ)
    → IsLatest xs
    → In x (drop n xs)
    → (length (take n xs) ≡ n) × All (λ y. x.1 ≤ y.1) (take n xs)
take-later zero xs x h i = (refl, tt)
take-later (suc n) [] x h i = absurd i
take-later (suc n) (y ∷ ys) x h i =
    let rest = take-later n ys x h.1 i in (omega (arith, rest.0), (All-drop n ys x h.0 i, rest.1))

pub All-take : (P : Text × ℕ → Type 0) (n : ℕ) (xs : Closed) → All P xs → All P (take n xs)
All-take P zero xs h = tt
All-take P (suc n) [] h = tt
All-take P (suc n) (x ∷ xs) h = (h.0, All-take P n xs h.1)

pub In-drop :
    (P : Text × ℕ → Type 0) (n : ℕ) (xs : Closed) (x : Text × ℕ) → All P xs → In x (drop n xs) → P x
In-drop P zero (y ∷ ys) x h (inl q) = subst P (sym q) h.0
In-drop P zero (y ∷ ys) x h (inr i) = In-drop P zero ys x h.1 i
In-drop P zero [] x h i = absurd i
In-drop P (suc n) [] x h i = absurd i
In-drop P (suc n) (y ∷ ys) x h i = In-drop P n ys x h.1 i

pub keys-insert_latest :
    (x : Text × ℕ) (xs : Closed) (k : Text)
    → contains (keys (insert_latest x xs)) k ≡ (k == x.0 || contains (keys xs) k)
keys-insert_latest x [] k = refl
keys-insert_latest x (y ∷ ys) k = ground (arith, keys-insert_latest x ys k)

pub keys-latest_first :
    (xs : Closed) (k : Text) → contains (keys (latest_first xs)) k ≡ contains (keys xs) k
unfolding latest_first
keys-latest_first [] k = refl
keys-latest_first (x ∷ xs) k =
    ground (arith, keys-insert_latest x (latest_first xs) k, keys-latest_first xs k)

pub Distinct-insert_latest :
    (x : Text × ℕ) (xs : Closed)
    → contains (keys xs) x.0 ≡ false
    → Distinct (keys xs)
    → Distinct (keys (insert_latest x xs))
Distinct-insert_latest x [] h k = (refl, tt)
Distinct-insert_latest x (y ∷ ys) h k =
    ground (arith, Distinct-insert_latest x ys (ground arith) k.1, keys-insert_latest x ys y.0)

pub Distinct-latest_first : (xs : Closed) → Distinct (keys xs) → Distinct (keys (latest_first xs))
unfolding latest_first
Distinct-latest_first [] h = tt
Distinct-latest_first (x ∷ xs) h =
    Distinct-insert_latest x (latest_first xs) (keys-latest_first xs x.0 ∙ h.0)
      (Distinct-latest_first xs h.1)

-- the first ones and the rest have no key in common
pub keys-take :
    (n : ℕ) (xs : Closed) (k : Text)
    → contains (keys (take n xs)) k ≡ true
    → contains (keys xs) k ≡ true
keys-take zero xs k h = absurd (cc h)
keys-take (suc n) [] k h = h
keys-take (suc n) (x ∷ xs) k h = ground (arith, keys-take n xs k)

pub keys-drop :
    (n : ℕ) (xs : Closed) (k : Text)
    → contains (keys (drop n xs)) k ≡ true
    → contains (keys xs) k ≡ true
keys-drop zero xs k h = h
keys-drop (suc n) [] k h = h
keys-drop (suc n) (x ∷ xs) k h = ground (arith, keys-drop n xs k h)

pub Distinct-take : (n : ℕ) (xs : Closed) → Distinct (keys xs) → Distinct (keys (take n xs))
Distinct-take zero xs h = tt
Distinct-take (suc n) [] h = tt
Distinct-take (suc n) (x ∷ xs) h = (ground (arith, keys-take n xs x.0), Distinct-take n xs h.1)

pub All-disjoint :
    (n : ℕ) (xs : Closed)
    → Distinct (keys xs)
    → All (λ x. contains (keys (drop n xs)) x.0 ≡ false) (take n xs)
All-disjoint zero xs h = tt
All-disjoint (suc n) [] h = tt
All-disjoint (suc n) (x ∷ xs) h = (ground (arith, keys-drop n xs x.0), All-disjoint n xs h.1)
