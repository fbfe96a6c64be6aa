-- ===== src/Fold/Entry.antt =====
-- fold.go and output.go: the fold's result, and the key set that an entry is marshalled with.
use star_car.Prelude.{String, Option, List}
use star_car.Prelude.Int.{ℤ}
use star_car.Json.{Json}
use star_car.Platform.{Platform}

pub record DispatchSupersededItem : Type 0 where
  pub kind : String
  pub at : String

pub record IntentSupersededItem : Type 0 where
  pub at : String

module _ ⦃p : Platform⦄ where
  pub record DispatchEntry : Type 0 where
    pub subject : String
    pub state : String
    pub at : String
    pub superseded : List DispatchSupersededItem
    pub winner_kind : String
    pub outcome : String
    pub spend : Json p.Float
    pub elapsed_seconds : ℤ
    pub budget_seconds : Option p.Float
    pub budget_source : String

pub record IntentEntry : Type 0 where
  pub subject : String
  pub at : String
  pub superseded : List IntentSupersededItem

module _ ⦃p : Platform⦄ where
  pub record Output : Type 0 where
    pub tier : String
    pub generated_at : String
    pub faults : List String
    pub discoveries : List String
    pub dispatches : List DispatchEntry
    pub intents : List IntentEntry
