-- ===== src/Server/Completeness.antt =====
-- About `buildSnapshot` (poll.go): that it returns, and the lanes of a snapshot.
use mathlib.Core.Option.{some-injective}
use star_car.Prelude.{◌≡◌, refl, sym, ◌∙◌, subst, String, some, List, map, ◌==◌, if◌then◌else◌}
use star_car.Platform.{Platform}
use star_car.Time.Parse.{Time}
use star_car.Fold.Contract.{fold-total}
use star_car.Store.Types.{StoreRecord}
use star_car.Server.Snapshot.{Freshness, LaneData, Lane, LaneSpec, Snapshot, lane_registry}
use star_car.Server.Freshness.{not_applicable}
use star_car.Server.Lanes.{
  Server, PollInput, not_polled, scan_failed, scan_done, LaneSource, build_lane, add_lane,
  build_lanes,
}
use star_car.Server.Build.{
  Host, LivePart, budget_options, live_part, live_of_output, finish_snapshot, build_snapshot,
}

module _ ⦃p : Platform⦄ where
  -- The build returns: there is a live part whatever the scan has found.
  pub live_part-total :
      (s : Server) (input : PollInput) (now : Time)
      → (live : LivePart) × (live_part s input now ≡ some live)
  unfolding live_part
  live_part-total s not_polled now = (_, refl)
  live_part-total s (scan_failed e) now = (_, refl)
  live_part-total s (scan_done result) now =
      let (out, ran) =
        fold-total (map (λ (r : StoreRecord). r.fields) result.records) s.vocab now
          (budget_options s.default_budget) in
      (live_of_output s result now out, rw ran refl)

  pub build_snapshot-total :
      (host : Host) (s : Server) (input : PollInput) (now : Time)
      → (live : LivePart) × (live_part s input now ≡ some live)
        × (build_snapshot host s input now ≡ some (finish_snapshot host s live))
  unfolding build_snapshot
  build_snapshot-total host s input now =
      let (live, ran) = live_part-total s input now in (live, ran, rw ran refl)

  -- A lane without its payload, and the registry's lane with its freshness.
  pub record Frame : Type 0 where
    pub id : String
    pub title : String
    pub position : String
    pub freshness : Freshness

  abbrev pub frame_of : Lane → Frame
  frame_of l = record { id = l.id; title = l.title; position = l.position; freshness = l.freshness }

  abbrev pub expected_frame : Freshness → LaneSpec → Frame
  expected_frame live spec = record {
    id = spec.id;
    title = spec.title;
    position = spec.position;
    freshness = if spec.position == "live" then live else not_applicable;
  }

  pub build_lanes-frames :
      (live : Freshness) (source : LaneSource) (store : List (String × LaneData))
      → map frame_of (build_lanes live source store).0 ≡ map (expected_frame live) lane_registry
  unfolding build_lanes add_lane build_lane
  build_lanes-frames live source store = refl

  -- Every snapshot that is built, before the first poll, after a failed scan and after a good one,
  -- has exactly the registry's lanes, in order and with their titles and positions. All live lanes
  -- share one freshness, and the others are "not-applicable".
  pub build_snapshot-frames :
      (host : Host) (s : Server) (input : PollInput) (now : Time) (snap : Snapshot) (after : Server)
      → build_snapshot host s input now ≡ some (snap, after)
      → (live : Freshness) × (map frame_of snap.lanes ≡ map (expected_frame live) lane_registry)
  unfolding finish_snapshot
  build_snapshot-frames host s input now snap after h =
      let (live, found, ran) = build_snapshot-total host s input now in
      let e : finish_snapshot host s live ≡ (snap, after) = some-injective _ _ (sym ran ∙ h) in
      (
        live.freshness,
        subst
            (λ (x : Snapshot × Server).
              map frame_of (x.0).lanes ≡ map (expected_frame live.freshness) lane_registry)
            e (build_lanes-frames live.freshness live.source s.last_good_lane_data),
      )
