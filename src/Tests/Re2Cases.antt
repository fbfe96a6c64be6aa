-- ===== src/Tests/Re2Cases.antt =====
-- The check of the patterns, at a schema with one under `$defs`.
use star_car.Prelude.{
  ◌≡◌, refl, false, String, none, some, List, [], ◌∷◌, ◌==◌, Result, ok, is_empty, All,
  if◌then◌else◌,
}
use star_car.Json.{Json, text, obj, field, end}
use star_car.Re2.{PatternTools, check_re2_compatible_patterns}
use star_car.Re2.Patterns.{Compiles, check_re2_compatible_patterns-Compiles}
use star_car.Prelude.Int.{ℤ}

abbrev tools : PatternTools
tools = record {
  base = λ path. path;
  compile = λ p. if p == "(?=a)" then some "invalid or unsupported Perl syntax" else none;
}

abbrev schema : Json ℤ
schema = obj (
    field "$defs"
      (obj (
        field "at" (obj (field "pattern" (text "^[0-9]+$") end))
          (field "patternProperties" (obj (field "^x-" (obj end) end)) end)))
      end)

abbrev read_file : String → Result (Result (Json ℤ))
read_file path = ok (ok schema)

checked : check_re2_compatible_patterns tools read_file "schema" (ok ("a.schema.json" ∷ [])) ≡ ok []
unfolding check_re2_compatible_patterns
checked = refl

check_re2_compatible_patterns-Compiles_example :
    (paths : List String) × (ok ("a.schema.json" ∷ []) ≡ ok paths)
    × (is_empty paths ≡ false)
    × All (Compiles tools read_file) paths
check_re2_compatible_patterns-Compiles_example =
    check_re2_compatible_patterns-Compiles tools read_file "schema" (ok ("a.schema.json" ∷ []))
      checked
