-- ===== src/Re2.antt =====
-- board/re2.go: the check that every regular expression of the schemas is one for RE2.
use star_car.Prelude.{
  String, Option, none, some, List, [], ◌∷◌, ◌++◌, ◌==◌, Result, ok, err, or_fail, is_empty, sprint,
  if◌then◌else◌,
}
use star_car.Json.{Json, obj, arr, Items, nil, cons, Fields, end, field, keys, as_text, as_obj}
use star_car.Platform.{Platform}
pub mod Patterns

pub record PatternFailure : Type 0 where
  pub schema_file : String
  pub pattern_text : String
  pub error_text : String

module _ {F : Type 0} where
  -- The value under "pattern", if it is a text.
  unfoldable pub pattern_value : String → Json F → List String
  pattern_value k v =
      if k == "pattern" then elim (as_text v) [ none ↦ [] | some s ↦ s ∷ [] ] else []

  -- The keys of the object under "patternProperties".
  unfoldable pub pattern_keys : String → Json F → List String
  unfolding keys
  pattern_keys k v =
      if k == "patternProperties" then elim (as_obj v) [ none ↦ [] | some pp ↦ keys pp ] else []

  -- `findPatterns`, giving what it appends.
  unfoldable mutual
    unfolding pattern_value pattern_keys

    pub find_patterns : Json F → List String
    find_patterns (obj fs) = field_patterns fs
    find_patterns (arr xs) = item_patterns xs
    find_patterns _ = []

    pub field_patterns : Fields F → List String
    field_patterns end = []
    field_patterns (field k v rest) =
        pattern_value k v ++ (pattern_keys k v ++ (find_patterns v ++ field_patterns rest))

    pub item_patterns : Items F → List String
    item_patterns nil = []
    item_patterns (cons v rest) = find_patterns v ++ item_patterns rest

-- `filepath.Base`, and the error of `regexp.Compile` if it gives one.
pub record PatternTools : Type 0 where
  pub base : String → String
  pub compile : String → Option String

-- The patterns of one file that do not compile.
unfoldable pub pattern_failures : PatternTools → String → List String → List PatternFailure
pattern_failures t path [] = []
pattern_failures t path (p ∷ ps) =
    let rest = pattern_failures t path ps in
    elim (t.compile p) [
      | none ↦ rest
      | some e ↦ record { schema_file = t.base path; pattern_text = p; error_text = e } ∷ rest
    ]

module _ {F : Type 0} (t : PatternTools) (read_file : String → Result (Result (Json F))) where
  -- A file's decoded document.
  unfoldable pub read_document : String → Result (Result (Json F)) → Result (Json F)
  read_document path (err e) = err (sprint ("reading " ∷ path ∷ ": " ∷ e ∷ []))
  read_document path (ok (err e)) = err (sprint ("parsing " ∷ path ∷ " as JSON: " ∷ e ∷ []))
  read_document path (ok (ok doc)) = ok doc

  -- The loop over the files; the first error ends it.
  unfoldable pub check_files : List String → Result (List PatternFailure)
  unfolding read_document pattern_failures find_patterns
  check_files [] = ok []
  check_files (path ∷ paths) =
      let rest = check_files paths in
      or_fail (read_document path (read_file path)) (λ e. e)
        λ doc.
          or_fail rest (λ e. e)
            λ failures. ok (pattern_failures t path (find_patterns doc) ++ failures)

  -- The files that `filepath.Glob` matches under the root; it is an error if there are none.
  unfoldable pub check_re2_compatible_patterns :
      String → Result (List String) → Result (List PatternFailure)
  unfolding check_files
  check_re2_compatible_patterns root (err e) =
      err (sprint ("globbing " ∷ root ∷ "/*.schema.json: " ∷ e ∷ []))
  check_re2_compatible_patterns root (ok matches) =
      if is_empty matches
      then err (
          sprint (
            "no *.schema.json files found under " ∷ root
            ∷ " - the probe would vacuously pass with nothing to check" ∷ []))
      else check_files matches
