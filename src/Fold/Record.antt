-- ===== src/Fold/Record.antt =====
-- fold.go: a decoded record, its typed reads, and the recognition vocabulary.
use star_car.Prelude.{Bool, true, false, String, Option, List, [], ◌∷◌, ◌==◌, if◌then◌else◌}
use mathlib.Core.Option
use star_car.Json.{Fields, read, as_text, as_num, lookup}
use star_car.Platform.{Platform}

module _ ⦃p : Platform⦄ where
  -- `map[string]any`
  abbrev pub Record : Type 0
  Record = Fields p.Float

  unfoldable pub str : Record → String → Option String
  unfolding lookup
  str r key = read as_text r key

  unfoldable pub number : Record → String → Option p.Float
  unfolding lookup
  number r key = read as_num r key

  -- `s, _ := r.str(key)`
  unfoldable pub str_or_empty : Record → String → String
  unfolding str
  str_or_empty r key = Option.get_or (str r key) ""

-- Some value of the list is the target.
unfoldable pub contains : List String → String → Bool
contains [] target = false
contains (v ∷ values) target = if v == target then true else contains values target

pub record Vocab : Type 0 where
  pub kinds : List String
  pub outcomes : List String

unfoldable pub has_kind : Vocab → String → Bool
unfolding contains
has_kind v k = contains v.kinds k

unfoldable pub has_outcome : Vocab → String → Bool
unfolding contains
has_outcome v o = contains v.outcomes o
