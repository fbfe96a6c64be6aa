-- ===== src/Assemble/Types.antt =====
-- types.go: the wire surfaces that assembly derives.
use star_car.Prelude.{String, List}
use star_car.Json.{Fields}
use star_car.Platform.{Platform}
use star_car.Fold.Entry.{DispatchSupersededItem}
use star_car.Store.Types.{BoardCondition}

-- One member of a manifest, joined to the entry of its dispatch.
pub record TrainCar : Type 0 where
  pub subject : String
  pub role : String
  pub gate : String
  pub state : String
  pub at : String
  pub outcome : String
  pub superseded : List DispatchSupersededItem

pub record Train : Type 0 where
  pub id : String
  pub title : String
  pub cars : List TrainCar
  pub declared_not_observed : List String

pub record Gate : Type 0 where
  pub name : String
  pub subject : String
  pub outcome : String
  pub at : String

module _ ⦃p : Platform⦄ where
  -- The three payloads and the conditions that assembly raised. (In Go each payload is a struct
  -- of one list.)
  pub record Assembled : Type 0 where
    pub trains : List Train
    pub gates : List Gate
    pub dispatches : List (Fields p.Float)
    pub conditions : List BoardCondition
