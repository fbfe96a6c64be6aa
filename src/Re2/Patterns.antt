-- ===== src/Re2/Patterns.antt =====
-- About `checkRE2CompatiblePatterns` (re2.go), against the places where a pattern can stand.
use star_car.Prelude.{
  ◌≡◌, refl, ap, ◌∙◌, subst, inl, inr, Bool-cases, Option-cases, true, false, ◌||◌, String, none,
  List, [], ◌∷◌, ◌++◌, ◌==◌, eq_iff, eq_refl, Result, ok, err, or_fail, All, is_empty, arith,
}
use star_car.Json.{Json, text, obj, arr, Items, cons, Fields, field, keys}
use star_car.Fold.Record.{contains}
use star_car.Re2.{
  PatternFailure, pattern_value, pattern_keys, find_patterns, field_patterns, item_patterns,
  PatternTools, pattern_failures, read_document, check_files, check_re2_compatible_patterns,
}

-- A text that JSON Schema compiles as a regular expression, at any depth of a document.
module _ {F : Type 0} (s : String) where
  mutual
    pub data Occurs : Json F → Type 0 where
      in_object : {fs : Fields F} → OccursField fs → Occurs (obj fs)
      in_array : {xs : Items F} → OccursItem xs → Occurs (arr xs)

    pub data OccursField : Fields F → Type 0 where
      as_pattern : {rest : Fields F} → OccursField (field "pattern" (text s) rest)
      as_key :
          {pp rest : Fields F}
          → contains (keys pp) s ≡ true
          → OccursField (field "patternProperties" (obj pp) rest)
      in_value :
          {k : String} {v : Json F} {rest : Fields F} → Occurs v → OccursField (field k v rest)
      in_rest :
          {k : String} {v : Json F} {rest : Fields F}
          → OccursField rest
          → OccursField (field k v rest)

    pub data OccursItem : Items F → Type 0 where
      here : {v : Json F} {rest : Items F} → Occurs v → OccursItem (cons v rest)
      further : {v : Json F} {rest : Items F} → OccursItem rest → OccursItem (cons v rest)

contains-append :
    (xs ys : List String) (s : String) → contains (xs ++ ys) s ≡ (contains xs s || contains ys s)
unfolding contains
contains-append [] ys s = refl
contains-append (x ∷ xs) ys s = ground (arith, contains-append xs ys s)

contains-left :
    (xs ys : List String) (s : String) → contains xs s ≡ true → contains (xs ++ ys) s ≡ true
contains-left xs ys s h = ground (arith, contains-append xs ys s)

contains-right :
    (xs ys : List String) (s : String) → contains ys s ≡ true → contains (xs ++ ys) s ≡ true
contains-right xs ys s h = ground (arith, contains-append xs ys s)

module _ {F : Type 0} (s : String) where
  mutual
    unfolding find_patterns field_patterns item_patterns pattern_value pattern_keys contains

    find_patterns-Occurs : {v : Json F} → Occurs s v → contains (find_patterns v) s ≡ true
    find_patterns-Occurs (in_object o) = field_patterns-Occurs o
    find_patterns-Occurs (in_array o) = item_patterns-Occurs o

    field_patterns-Occurs :
        {fs : Fields F} → OccursField s fs → contains (field_patterns fs) s ≡ true
    field_patterns-Occurs (as_pattern {rest = rest}) = rw (eq_refl s) refl
    field_patterns-Occurs (as_key {pp = pp} {rest = rest} h) =
        contains-left (keys pp) (find_patterns (obj pp) ++ field_patterns rest) s h
    field_patterns-Occurs (in_value {k = k} {v = v} {rest = rest} o) =
        contains-right (pattern_value k v) _ s (
          contains-right (pattern_keys k v) _ s
            (contains-left (find_patterns v) (field_patterns rest) s (find_patterns-Occurs o)))
    field_patterns-Occurs (in_rest {k = k} {v = v} {rest = rest} o) =
        contains-right (pattern_value k v) _ s (
          contains-right (pattern_keys k v) _ s
            (contains-right (find_patterns v) (field_patterns rest) s (field_patterns-Occurs o)))

    item_patterns-Occurs : {xs : Items F} → OccursItem s xs → contains (item_patterns xs) s ≡ true
    item_patterns-Occurs (here {v = v} {rest = rest} o) =
        contains-left (find_patterns v) (item_patterns rest) s (find_patterns-Occurs o)
    item_patterns-Occurs (further {v = v} {rest = rest} o) =
        contains-right (find_patterns v) (item_patterns rest) s (item_patterns-Occurs o)

pattern_failures-none :
    (t : PatternTools) (path : String) (ps : List String) (s : String)
    → is_empty (pattern_failures t path ps) ≡ true
    → contains ps s ≡ true
    → t.compile s ≡ none
unfolding pattern_failures contains
pattern_failures-none t path [] s h k = cc k
pattern_failures-none t path (p ∷ ps) s h k = elim (Option-cases (t.compile p)) [
  | inr (e, f) ↦ cc (rw (f, is_empty) at h)
  | inl f ↦ elim (Bool-cases (p == s)) [
    | inl q ↦ subst (λ x. t.compile x ≡ none) ((eq_iff p s).0 q) f
    | inr q ↦ pattern_failures-none t path ps s (rw (f, is_empty) at h) (rw (q, contains) at k)
  ]
]

ok-injective : (a b : List PatternFailure) → ok a ≡ ok b → a ≡ b
ok-injective a b h = ap (λ r. elim r [ ok x ↦ x | err e ↦ a ]) h

append-empty : (xs ys : List PatternFailure) → xs ++ ys ≡ [] → (is_empty xs ≡ true) × (ys ≡ [])
append-empty [] ys h = (refl, h)
append-empty (x ∷ xs) ys h = cc h

module _ {F : Type 0} (t : PatternTools) (read_file : String → Result (Result (Json F))) where
  -- Each document of a file whose check finds nothing compiles, pattern by pattern.
  abbrev pub Compiles : String → Type 0
  Compiles path =
      (doc : Json F) × (read_file path ≡ ok (ok doc))
      × ((s : String) → Occurs s doc → t.compile s ≡ none)

  check_files-Compiles :
      (paths : List String) → check_files t read_file paths ≡ ok [] → All Compiles paths
  unfolding check_files
  check_files-Compiles [] h = tt
  check_files-Compiles (path ∷ paths) h =
      of_results (read_file path) (check_files t read_file paths) refl refl h
        (check_files-Compiles paths)
    where
      of_results :
          (r : Result (Result (Json F))) (q : Result (List PatternFailure))
          → read_file path ≡ r
          → check_files t read_file paths ≡ q
          → or_fail
              (read_document t read_file path r)
              (λ e. e)
              (λ doc.
                or_fail q
                  (λ e. e)
                  (λ failures. ok (pattern_failures t path (find_patterns doc) ++ failures)))
            ≡ ok []
          → (check_files t read_file paths ≡ ok [] → All Compiles paths)
          → Compiles path × All Compiles paths
      of_results (err e) q f g h ih = cc h
      of_results (ok (err e)) q f g h ih = cc h
      of_results (ok (ok doc)) (err e) f g h ih = cc h
      of_results (ok (ok doc)) (ok fs) f g h ih =
          let (nothing, rest) =
            append-empty (pattern_failures t path (find_patterns doc)) fs (ok-injective _ [] h) in
          (
            (
              doc,
              f,
              λ s o.
                  pattern_failures-none t path (find_patterns doc) s nothing
                    (find_patterns-Occurs s o),
            ),
            ih (g ∙ ap ok rest),
          )

  -- If the check of the schemas succeeds with no failure, it was given at least one file, every
  -- file was read and decoded, and every text that stands at any depth of one under "pattern", or
  -- as a key under "patternProperties", compiles.
  pub check_re2_compatible_patterns-Compiles :
      (root : String) (matches : Result (List String))
      → check_re2_compatible_patterns t read_file root matches ≡ ok []
      → (paths : List String) × (matches ≡ ok paths) × (is_empty paths ≡ false) × All Compiles paths
  unfolding check_re2_compatible_patterns
  check_re2_compatible_patterns-Compiles root (err e) h = cc h
  check_re2_compatible_patterns-Compiles root (ok paths) h = elim (Bool-cases (is_empty paths)) [
    | inl e ↦ cc (rw e at h)
    | inr e ↦ (paths, refl, e, check_files-Compiles paths (rw e at h))
  ]
