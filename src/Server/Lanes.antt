-- ===== src/Server/Lanes.antt =====
-- poll.go: the server's state, and the loop of `buildSnapshot` over the lane registry.
use mathlib.Core.List.{foldl}
use star_car.Prelude.{ℕ, String, Option, none, some, List, [], ◌∷◌, ◌++◌, ◌==◌, if◌then◌else◌}
use star_car.Platform.{Platform}
use star_car.Time.Parse.{Time}
use star_car.Fold.Record.{Vocab}
use star_car.Store.Types.{BoardCondition, Adapter, ScanResult}
use star_car.Assemble.Types.{Assembled}
use star_car.Server.Config.{Config}
use star_car.Server.Snapshot.{
  Freshness, LaneData, dispatches_data, gates_data, trains_data, Lane, LaneSpec, Snapshot,
  lane_registry,
}
use star_car.Server.Freshness.{not_applicable}

module _ ⦃p : Platform⦄ where
  -- The fields of `Server` that a poll reads or writes. `last_good_as_of` is the one entry, under
  -- "live", of the map of that name.
  pub record Server : Type 0 where
    pub cfg : Config
    pub adapter : Adapter
    pub seq : ℕ
    pub last_snapshot : Snapshot
    pub last_compare : String
    pub last_poll_at : Option Time
    pub last_good_as_of : Option String
    pub last_good_lane_data : List (String × LaneData)
    pub vocab : Vocab
    pub vocab_load_condition : Option BoardCondition
    pub default_budget : Option p.Float
    pub default_budget_condition : Option BoardCondition

  -- `s.lastGoodLaneData[id]`
  unfoldable pub find_data : List (String × LaneData) → String → Option LaneData
  find_data [] id = none
  find_data ((k, d) ∷ rest) id = if k == id then some d else find_data rest id

  -- `s.lastGoodLaneData[id] = d`
  unfoldable pub set_data : String → LaneData → List (String × LaneData) → List (String × LaneData)
  set_data id d [] = (id, d) ∷ []
  set_data id d ((k, old) ∷ rest) = if k == id then (k, d) ∷ rest else (k, old) ∷ set_data id d rest

  -- What a snapshot is built from: nothing yet, the error of a scan, or what one has found.
  pub data PollInput : Type 0 where
    not_polled : PollInput
    scan_failed : String → PollInput
    scan_done : ScanResult → PollInput

  -- The switch on the lane's id.
  unfoldable pub lane_data : String → Assembled → Option LaneData
  lane_data id a =
      if id == "dispatches"
      then some (dispatches_data a.dispatches)
      else if id == "gates"
      then some (gates_data a.gates)
      else if id == "trains"
      then some (trains_data a.trains)
      else none

  -- What the lanes are filled from: assembly's result, the last good data, or nothing.
  pub data LaneSource : Type 0 where
    no_data : LaneSource
    last_good : LaneSource
    current : Assembled → LaneSource

  -- The payload of a live lane.
  unfoldable pub live_payload : LaneSource → String → List (String × LaneData) → Option LaneData
  unfolding lane_data find_data
  live_payload no_data id store = none
  live_payload last_good id store = find_data store id
  live_payload (current a) id store = lane_data id a

  -- The last good data after a live lane.
  unfoldable pub keep_payload :
      LaneSource → String → List (String × LaneData) → List (String × LaneData)
  unfolding lane_data set_data
  keep_payload no_data id store = store
  keep_payload last_good id store = store
  keep_payload (current a) id store = elim (lane_data id a) [
    | none ↦ store
    | some d ↦ set_data id d store
  ]

  unfoldable pub build_lane : Freshness → LaneSource → LaneSpec → List (String × LaneData) → Lane
  unfolding live_payload
  build_lane live source spec store =
      if spec.position == "live"
      then record {
        id = spec.id;
        title = spec.title;
        position = spec.position;
        freshness = live;
        payload = live_payload source spec.id store;
      }
      else record {
        id = spec.id;
        title = spec.title;
        position = spec.position;
        freshness = not_applicable;
        payload = none;
      }

  -- One round of the loop: the lanes so far, and the last good data.
  unfoldable pub add_lane :
      Freshness
      → LaneSource
      → List Lane × List (String × LaneData)
      → LaneSpec
      → List Lane × List (String × LaneData)
  unfolding build_lane keep_payload
  add_lane live source (lanes, store) spec = (
    lanes ++ build_lane live source spec store ∷ [],
    if spec.position == "live" then keep_payload source spec.id store else store,
  )

  unfoldable pub build_lanes :
      Freshness → LaneSource → List (String × LaneData) → List Lane × List (String × LaneData)
  unfolding add_lane
  build_lanes live source store = foldl (add_lane live source) ([], store) lane_registry
