-- ===== src/Interfaces/Closure.antt =====
-- `hash_closure` of baseline/lib/ifnet_config.py: one text for all files, in the order of their paths,
-- which is then hashed. The bytes of a text stand for its code points.
use base_line_prox.Base.{
  ◌≡◌, ◌≢◌, refl, sym, ap, ◌∙◌, subst, true, false, Option, none, some, List, [], ◌∷◌, ◌++◌,
  codes_eq, nat_eq, arith, All, contains, Option-cases, Bool-cases, inl, inr,
}
use base_line_prox.Base.Dict.{Dict, lookup, keys, contains-keys, Entries, Entries-lookup}
use base_line_prox.Base.Sorting.{sort_texts, All-sort_texts, contains-sort_texts}
use base_line_prox.Interfaces.Data.{Text}

abbrev or_empty : Option Text → Text
or_empty none = []
or_empty (some text) = text

-- what a path's file holds, or empty where there is none
abbrev pub content : Text → Dict Text Text → Text
content path files = or_empty (lookup path files)

pub content_of :
    (path text : Text) (files : Dict Text Text)
    → lookup path files ≡ some text
    → content path files ≡ text
content_of path text files q = ap or_empty q

pub content_absent :
    (path : Text) (files : Dict Text Text) → lookup path files ≡ none → content path files ≡ []
content_absent path files q = ap or_empty q

-- what the hash is updated with, for each path
abbrev closure_from : (Text → Text) → List Text → Text
closure_from f [] = []
closure_from f (path ∷ paths) = path ++ 0 ∷ (f path ++ 0 ∷ closure_from f paths)

unfoldable pub closure_text : Dict Text Text → Text
unfolding sort_texts
closure_text files = closure_from (λ path. content path files) (sort_texts (keys files))

-- no NUL is in it
abbrev pub IsPlain : Text → Type 0
IsPlain = All (λ c. c ≢ 0)

abbrev pub IsPlainFile : Text → Text → Type 0
IsPlainFile path text = IsPlain path × IsPlain text

cut : (s t x y : Text) → IsPlain s → IsPlain t → s ++ 0 ∷ x ≡ t ++ 0 ∷ y → (s ≡ t) × (x ≡ y)
cut [] [] x y h k q = ground arith
cut [] (c ∷ t) x y h k q = absurd (ground arith)
cut (c ∷ s) [] x y h k q = absurd (ground arith)
cut (c ∷ s) (d ∷ t) x y h k q =
    let rest = cut s t x y h.1 k.1 (ground arith) in (ground arith, rest.1)

closure_from_same :
    (f g : Text → Text) (ks js : List Text)
    → ((k : Text) → IsPlain (f k))
    → ((k : Text) → IsPlain (g k))
    → All IsPlain ks
    → All IsPlain js
    → closure_from f ks ≡ closure_from g js
    → (ks ≡ js) × All (λ k. f k ≡ g k) ks
closure_from_same f g [] [] pf pg h i q = (refl, tt)
closure_from_same f g [] ([] ∷ js) pf pg h i q = absurd (ground arith)
closure_from_same f g [] ((c ∷ j) ∷ js) pf pg h i q = absurd (ground arith)
closure_from_same f g ([] ∷ ks) [] pf pg h i q = absurd (ground arith)
closure_from_same f g ((c ∷ k) ∷ ks) [] pf pg h i q = absurd (ground arith)
closure_from_same f g (k ∷ ks) (j ∷ js) pf pg h i q =
    let first = cut k j (f k ++ 0 ∷ closure_from f ks) (g j ++ 0 ∷ closure_from g js) h.0 i.0 q in
    let second = cut (f k) (g j) (closure_from f ks) (closure_from g js) (pf k) (pg j) first.1 in
    let rest = closure_from_same f g ks js pf pg h.1 i.1 second.1 in
    (ground arith, (second.0 ∙ ap g (sym first.0), rest.1))

All-contains :
    (P : Text → Type 0) (xs : List Text) (x : Text) → All P xs → contains xs x ≡ true → P x
All-contains P [] x h q = absurd (cc q)
All-contains P (y ∷ xs) x h q = ground (arith, All-contains P xs x h.1)

All-keys : (d : Dict Text Text) → Entries IsPlainFile d → All IsPlain (keys d)
All-keys [] h = tt
All-keys ((k, t) ∷ d) h = (h.0.0, All-keys d h.1)

content-IsPlain : (d : Dict Text Text) → Entries IsPlainFile d → (k : Text) → IsPlain (content k d)
content-IsPlain d h k = elim (Option-cases (lookup k d)) [
  | inl q ↦ subst (λ o. IsPlain (or_empty o)) (sym q) tt
  | inr (t, q) ↦ subst (λ o. IsPlain (or_empty o)) (sym q) (Entries-lookup IsPlainFile k d t h q).1
]

absent :
    (d : Dict Text Text) (k : Text) → contains (sort_texts (keys d)) k ≡ false → content k d ≡ []
absent d k h = elim (Option-cases (lookup k d)) [
  | inl q ↦ content_absent k d q
  | inr (t, q) ↦ absurd (cc (h, contains-sort_texts (keys d) k, contains-keys k t d q))
]

module _ (d e : Dict Text Text) (pd : Entries IsPlainFile d) (pe : Entries IsPlainFile e) where
  same_paths :
      closure_text d ≡ closure_text e
      → (sort_texts (keys d) ≡ sort_texts (keys e))
        × All (λ k. content k d ≡ content k e) (sort_texts (keys d))
  unfolding closure_text
  same_paths q =
      closure_from_same (λ path. content path d) (λ path. content path e) (sort_texts (keys d))
        (sort_texts (keys e)) (content-IsPlain d pd) (content-IsPlain e pe)
        (All-sort_texts IsPlain (keys d) (All-keys d pd))
        (All-sort_texts IsPlain (keys e) (All-keys e pe)) q

  pub closure_text-keys :
      closure_text d ≡ closure_text e → (k : Text) → contains (keys d) k ≡ contains (keys e) k
  closure_text-keys q k =
      sym (contains-sort_texts (keys d) k)
      ∙ ap (λ ks. contains ks k) (same_paths q).0
      ∙ contains-sort_texts (keys e) k

-- Two sets of files with the same text to hash hold the same at every path, as long as no path and no
-- file has a NUL: no change of a file, and no file that comes or goes with some text in it, is missed.
pub closure_text_same :
    (d e : Dict Text Text)
    → Entries IsPlainFile d
    → Entries IsPlainFile e
    → closure_text d ≡ closure_text e
    → (k : Text) → content k d ≡ content k e
closure_text_same d e pd pe q k =
    let same = same_paths d e pd pe q in
    elim (Bool-cases (contains (sort_texts (keys d)) k)) [
      | inl h ↦ All-contains (λ k. content k d ≡ content k e) (sort_texts (keys d)) k same.1 h
      | inr h ↦ absent d k h ∙ sym (absent e k (rw same.0 at h))
    ]
