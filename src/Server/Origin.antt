-- ===== src/Server/Origin.antt =====
-- About `buildSnapshot` (poll.go): which scan the payloads and the freshness of a snapshot, and the
-- last good data of the server, come from.
use mathlib.Core.Option.{some-injective}
use star_car.Prelude.{◌≡◌, refl, sym, ◌∙◌, subst, String, Option, none, some, Result, ok, err, List}
use star_car.Prelude.{map}
use star_car.Server.Freshness.{never_polled, compute_live_freshness}
use star_car.Server.Snapshot.{Lane, Freshness, lane_registry}
use star_car.Time.Format.{format_rfc3339}
use star_car.Server.Retained.{failed_freshness}
use star_car.Server.Completeness.{frame_of, expected_frame}
use star_car.Platform.{Platform}
use star_car.Time.Parse.{Time}
use star_car.Fold.Record.{Vocab}
use star_car.Fold.Entry.{Output}
use star_car.Fold.Algorithm.{fold}
use star_car.Fold.Contract.{fold-total}
use star_car.Store.Types.{Adapter, ScanResult, Disk}
use star_car.Store.Scan.{scan}
use star_car.Assemble.Build.{assemble}
use star_car.Assemble.Surfaces.{Reencodes}
use star_car.Server.Config.{Config}
use star_car.Server.Snapshot.{LaneData, Snapshot, dispatches_data, gates_data, trains_data}
use star_car.Server.Lanes.{
  Server, find_data, build_lanes, add_lane, build_lane, live_payload, keep_payload, lane_data,
}
use star_car.Server.Build.{
  Host, budget_options, live_of_output, live_part, finish_snapshot, build_snapshot,
}
use star_car.Server.Poll.{input_of}
use star_car.Server.Polling.{first_part}
use star_car.Server.Retained.{failed_part, find-set_three}
use star_car.Server.Rows.{payload_of, record_fields, Renders, assemble-Renders}

module _ ⦃p : Platform⦄ where
  -- What a server scans and folds with, which no poll changes.
  pub record Sources : Type 0 where
    pub adapter : Adapter
    pub cfg : Config
    pub vocab : Vocab
    pub budget : Option p.Float

  abbrev pub sources_of : Server → Sources
  sources_of s = record {
    adapter = s.adapter;
    cfg = s.cfg;
    vocab = s.vocab;
    budget = s.default_budget;
  }

  -- The payloads of the three live lanes are missing and no scan has been good, or they are all
  -- what a single successful scan gives, and `good` is the time of that scan.
  pub data Origin (src : Sources) (good : Option String) (payload : String → Option LaneData)
      : Type 0 where
    from_nothing :
        good ≡ none
        → payload "dispatches" ≡ none
        → payload "gates" ≡ none
        → payload "trains" ≡ none
        → Origin src good payload
    from_scan :
        (disk : Disk) (now : Time) (result : ScanResult) (out : Output)
        → scan src.adapter disk src.cfg.store_path now ≡ ok result
        → good ≡ some (format_rfc3339 now)
        → Renders src.vocab src.budget result now out payload
        → Origin src good payload

  abbrev pub lane_payload : List Lane → String → Option LaneData
  lane_payload lanes id = payload_of id lanes

  -- The lanes are the registry's, and the live ones have this freshness.
  abbrev pub HasFreshness : List Lane → Freshness → Type 0
  HasFreshness lanes f = map frame_of lanes ≡ map (expected_frame f) lane_registry

  -- What lanes show: nothing before the first poll, a successful scan with the
  -- freshness of its own records, or after a failed scan what the last good one gave, and when.
  pub data Displays (src : Sources) (lanes : List Lane) : Type 0 where
    not_yet :
        HasFreshness lanes never_polled → Origin src none (lane_payload lanes) → Displays src lanes
    of_scan :
        (disk : Disk) (now : Time) (result : ScanResult) (out : Output)
        → scan src.adapter disk src.cfg.store_path now ≡ ok result
        → HasFreshness lanes
            (compute_live_freshness result.records now src.cfg.staleness_ms (format_rfc3339 now))
        → Renders src.vocab src.budget result now out (lane_payload lanes)
        → Displays src lanes
    of_failure :
        (disk : Disk) (now : Time) (e : String) (good : Option String)
        → scan src.adapter disk src.cfg.store_path now ≡ err e
        → HasFreshness lanes (failed_freshness e good)
        → Origin src good (lane_payload lanes)
        → Displays src lanes

  abbrev pub FromStore : Sources → Server → Type 0
  FromStore src s = Origin src s.last_good_as_of (find_data s.last_good_lane_data)

  Origin-agrees :
      (src : Sources) (good : Option String) (f g : String → Option LaneData)
      → g "dispatches" ≡ f "dispatches"
      → g "gates" ≡ f "gates"
      → g "trains" ≡ f "trains"
      → Origin src good f
      → Origin src good g
  Origin-agrees src good f g d e t (from_nothing n x y z) = from_nothing n (d ∙ x) (e ∙ y) (t ∙ z)
  Origin-agrees src good f g d e t (from_scan disk now result out found at r) =
      from_scan disk now result out found at (record {
        ran = r.ran;
        dispatches = d ∙ r.dispatches;
        gates = e ∙ r.gates;
        trains = t ∙ r.trains;
        row_at = r.row_at;
        ascending = r.ascending;
      })

  -- What a build keeps.
  abbrev pub Built : Server → Snapshot × Server → Type 0
  Built s (snap, after) =
      (sources_of after ≡ sources_of s)
      × (after.last_snapshot ≡ s.last_snapshot)
      × Displays (sources_of s) snap.lanes
      × FromStore (sources_of s) after

  module _ (host : Host) (s : Server) where
    failed-Built :
        (disk : Disk) (now : Time) (e : String)
        → FromStore (sources_of s) s
        → scan s.adapter disk s.cfg.store_path now ≡ err e
        → Built s (finish_snapshot host s (failed_part s e))
    unfolding finish_snapshot build_lanes add_lane build_lane live_payload keep_payload
    failed-Built disk now e h found = (
      refl,
      refl,
      of_failure disk now e s.last_good_as_of found refl (
          Origin-agrees (sources_of s) s.last_good_as_of (find_data s.last_good_lane_data) _ refl
            refl refl h),
      h,
    )

    scanned-Built :
        (disk : Disk) (now : Time) (result : ScanResult) (out : Output)
        → Reencodes
        → scan s.adapter disk s.cfg.store_path now ≡ ok result
        → fold (record_fields result.records) s.vocab now (budget_options s.default_budget)
          ≡ some out
        → Built s (finish_snapshot host s (live_of_output s result now out))
    unfolding finish_snapshot live_of_output build_lanes add_lane build_lane live_payload
        keep_payload lane_data
    scanned-Built disk now result out r found ran =
        let a = assemble result.records out in
        let d = dispatches_data a.dispatches in
        let g = gates_data a.gates in
        let t = trains_data a.trains in
        let old = s.last_good_lane_data in
        (
          refl,
          refl,
          of_scan disk now result out found refl
              (assemble-Renders s.vocab s.default_budget result now out _ r ran refl refl refl),
          from_scan disk now result out found refl (
              assemble-Renders s.vocab s.default_budget result now out _ r ran
                (find-set_three "dispatches" d g t old) (find-set_three "gates" d g t old)
                (find-set_three "trains" d g t old)),
        )

    build-Built :
        (disk : Disk) (now : Time) (r : Result ScanResult) (made : Snapshot × Server)
        → Reencodes
        → FromStore (sources_of s) s
        → scan s.adapter disk s.cfg.store_path now ≡ r
        → build_snapshot host s (input_of r) now ≡ some made
        → Built s made
    unfolding build_snapshot live_part input_of
    build-Built disk now (err e) made h k found ran =
        subst (Built s) (some-injective _ _ ran) (failed-Built disk now e k found)
    build-Built disk now (ok result) made h k found ran =
        let (out, folded) =
          fold-total (record_fields result.records) s.vocab now (budget_options s.default_budget) in
        let same : some (finish_snapshot host s (live_of_output s result now out)) ≡ some made =
          sym (rw folded refl) ∙ ran in
        subst (Built s) (some-injective _ _ same) (scanned-Built disk now result out h found folded)

    -- A poll's build, whatever its scan gives.
    pub build_snapshot-Built :
        (disk : Disk) (now : Time) (made : Snapshot × Server)
        → Reencodes
        → FromStore (sources_of s) s
        → build_snapshot host s (input_of (scan s.adapter disk s.cfg.store_path now)) now
          ≡ some made
        → Built s made
    build_snapshot-Built disk now made h k = build-Built disk now _ made h k refl

    -- The first build.
    pub first-Built :
        FromStore (sources_of s) s → Built s (finish_snapshot host s (first_part host))
    unfolding finish_snapshot build_lanes add_lane build_lane live_payload keep_payload
    first-Built h = (refl, refl, not_yet refl (from_nothing refl refl refl refl), h)
