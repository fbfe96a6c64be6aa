-- ===== src/Server/Snapshot.antt =====
-- snapshot.go and laneregistry.go: the snapshot as it goes over the wire, and the lanes.
use star_car.Prelude.{ℕ, Bool, String, Option, List, [], ◌∷◌}
use star_car.Prelude.Int.{ℤ}
use star_car.Json.{Fields}
use star_car.Platform.{Platform}
use star_car.Store.Types.{BoardCondition}
use star_car.Assemble.Types.{Train, Gate}
use star_car.Assemble.BoardDefs.{Vocabularies}

pub record FreshnessReason : Type 0 where
  pub code : String
  pub detail : String

pub record Freshness : Type 0 where
  pub kind : String
  pub as_of : Option String
  pub age_bucket_ms : Option ℤ
  pub reason : Option FreshnessReason
  pub last_good_as_of : Option String

pub record WireConfig : Type 0 where
  pub poll_ms : ℤ
  pub heartbeat_ms : ℤ
  pub staleness_ms : ℤ
  pub store_path_display : String
  pub lane_count : ℕ
  pub demo_mode : Bool

module _ ⦃p : Platform⦄ where
  -- What a lane's `any` holds: one of assembly's three payloads.
  pub data LaneData : Type 0 where
    dispatches_data : List (Fields p.Float) → LaneData
    gates_data : List Gate → LaneData
    trains_data : List Train → LaneData

  pub record Lane : Type 0 where
    pub id : String
    pub title : String
    pub position : String
    pub freshness : Freshness
    pub payload : Option LaneData

  -- A wire condition has the fields of the store's, which `toWireCondition` copies.
  pub record Snapshot : Type 0 where
    pub seq : ℕ
    pub as_of : Option String
    pub config : WireConfig
    pub vocabularies : Vocabularies
    pub board : List BoardCondition
    pub lanes : List Lane

pub record LaneSpec : Type 0 where
  pub id : String
  pub title : String
  pub position : String

abbrev pub lane_registry : List LaneSpec
lane_registry =
    record { id = "dispatches"; title = "Dispatches"; position = "live" }
    ∷ record { id = "gates"; title = "Gates"; position = "live" }
    ∷ record { id = "trains"; title = "Trains"; position = "live" }
    ∷ record { id = "freight"; title = "Freight"; position = "dark" }
    ∷ record { id = "fuel"; title = "Fuel"; position = "bagged" }
    ∷ []
