-- ===== src/Fold/Budget.antt =====
-- About the budget of an open dispatch (algorithm.go): which one applies, and when it is exceeded.
use star_car.Prelude.{◌≡◌, refl, Bool, false, String, Option, none, some}
use star_car.Prelude.Int.{ℤ}
use star_car.Json.{Json, null, bool, num, text, arr, obj, as_num, lookup}
use star_car.Platform.{Platform}
use star_car.Fold.Record.{Record}

module _ ⦃p : Platform⦄ where
  abbrev pub over_budget : ℤ → Option (p.Float × String) → Bool
  over_budget elapsed none = false
  over_budget elapsed (some (budget, source)) = p.gtb (p.of_int64 elapsed) budget

  -- The time elapsed exceeds the budget that applies, if one does.
  abbrev pub exceeds : ℤ → Option p.Float → Bool
  exceeds elapsed none = false
  exceeds elapsed (some budget) = p.gtb (p.of_int64 elapsed) budget

  -- A duration in seconds, rounded down.
  abbrev pub whole_seconds : ℤ → ℤ
  whole_seconds d = p.floor_int64 (p.seconds d)

  -- The record's own budget if that is a number, and else the default.
  abbrev pub own_or : Option (Json p.Float) → Option p.Float → Option p.Float
  own_or (some (num b)) default_budget = some b
  own_or _ default_budget = default_budget

  abbrev pub applicable : Record → Option p.Float → Option p.Float
  applicable w default_budget = own_or (lookup w "budget") default_budget

  over_budget-default :
      (d : Option p.Float) (elapsed : ℤ)
      → over_budget elapsed (elim d [ none ↦ none | some b ↦ some (b, "default") ])
        ≡ exceeds elapsed d
  over_budget-default none elapsed = refl
  over_budget-default (some b) elapsed = refl

  abbrev pub own_number : Option (Json p.Float) → Option p.Float
  own_number o = elim o [ none ↦ none | some v ↦ as_num v ]

  pub over_budget-own :
      (o : Option (Json p.Float)) (d : Option p.Float) (elapsed : ℤ)
      → over_budget elapsed (elim (own_number o) [
        | some b ↦ some (b, "record")
        | none ↦ elim d [ none ↦ none | some b ↦ some (b, "default") ]
      ])
        ≡ exceeds elapsed (own_or o d)
  over_budget-own (some (num b)) d elapsed = refl
  over_budget-own none d elapsed = over_budget-default d elapsed
  over_budget-own (some null) d elapsed = over_budget-default d elapsed
  over_budget-own (some (bool b)) d elapsed = over_budget-default d elapsed
  over_budget-own (some (text t)) d elapsed = over_budget-default d elapsed
  over_budget-own (some (arr xs)) d elapsed = over_budget-default d elapsed
  over_budget-own (some (obj fs)) d elapsed = over_budget-default d elapsed
