-- ===== src/Server/Retained.antt =====
-- About `buildSnapshot` (poll.go): failed scans, and the last good data.
use mathlib.Core.Option.{some-injective}
use star_car.Prelude.{
  ◌≡◌, refl, sym, ap, ◌∙◌, subst, String, Option, none, some, List, [], ◌∷◌, map, ◌==◌, eq_iff,
  arith, if◌then◌else◌,
}
use star_car.Platform.{Platform}
use star_car.Time.Parse.{Time}
use star_car.Time.Format.{format_rfc3339}
use star_car.Fold.Contract.{fold-total}
use star_car.Store.Types.{StoreRecord, ScanResult}
use star_car.Assemble.Types.{Assembled}
use star_car.Assemble.Build.{assemble}
use star_car.Fold.Entry.{Output}
use star_car.Server.Snapshot.{
  Freshness, LaneData, Lane, Snapshot, lane_registry, dispatches_data, gates_data, trains_data,
}
use star_car.Server.Completeness.{frame_of, expected_frame, build_lanes-frames}
use star_car.Server.Freshness.{never_polled}
use star_car.Server.Lanes.{
  Server, find_data, set_data, scan_failed, scan_done, last_good, current, lane_data, live_payload,
  keep_payload, build_lane, add_lane, build_lanes,
}
use star_car.Server.Build.{
  Host, LivePart, budget_options, live_part, live_of_output, finish_snapshot, build_snapshot,
}

module _ ⦃p : Platform⦄ where
  find-set_data :
      (id k : String) (d : LaneData) (store : List (String × LaneData))
      → find_data (set_data id d store) k ≡ (if id == k then some d else find_data store k)
  unfolding find_data set_data
  find-set_data id k d [] = refl
  find-set_data id k d ((j, old) ∷ rest) =
      ground (arith, eq_iff id k, eq_iff j id, eq_iff j k, find-set_data id k d rest)

  abbrev pub payloads : List Lane → List (Option LaneData)
  payloads = map (λ l. l.payload)

  -- Each of the three payloads, in the store that the lanes of a good scan leave behind.
  pub find-set_three :
      (k : String) (d g t : LaneData) (store : List (String × LaneData))
      → find_data (set_data "trains" t (set_data "gates" g (set_data "dispatches" d store))) k ≡ (
          if "trains" == k
          then some t
          else if "gates" == k
          then some g
          else if "dispatches" == k
          then some d
          else find_data store k)
  find-set_three k d g t store =
      rw
        (
          find-set_data "trains" k t (set_data "gates" g (set_data "dispatches" d store)),
          find-set_data "gates" k g (set_data "dispatches" d store),
          find-set_data "dispatches" k d store,
        )
        refl

  build_lanes-last_good :
      (live failed : Freshness) (a : Assembled) (store : List (String × LaneData))
      → payloads (build_lanes failed last_good (build_lanes live (current a) store).1).0
        ≡ payloads (build_lanes live (current a) store).0
  unfolding build_lanes add_lane build_lane live_payload keep_payload lane_data
  build_lanes-last_good live failed a store =
      let d = dispatches_data a.dispatches in
      let g = gates_data a.gates in
      let t = trains_data a.trains in
      rw
        (
          find-set_three "dispatches" d g t store,
          find-set_three "gates" d g t store,
          find-set_three "trains" d g t store,
        )
        refl

  pub build_lanes-failed_store :
      (failed : Freshness) (store : List (String × LaneData))
      → (build_lanes failed last_good store).1 ≡ store
  unfolding build_lanes add_lane keep_payload
  build_lanes-failed_store failed store = refl

  -- The live lanes' freshness after a scan that failed.
  abbrev pub failed_freshness : String → Option String → Freshness
  failed_freshness e last = record never_polled {
    kind = "failed";
    reason = some (record { code = "store-unreadable"; detail = e });
    last_good_as_of = last;
  }

  -- What a failed scan takes over from the good one before it.
  abbrev pub Retained : String → Time → Snapshot × Server → Snapshot × Server → Type 0
  Retained e now (snap, good) (failed, after) =
      (payloads failed.lanes ≡ payloads snap.lanes)
      × (map frame_of failed.lanes
          ≡ map (expected_frame (failed_freshness e (some (format_rfc3339 now)))) lane_registry)
      × (after ≡ good)

  abbrev pub failed_part : Server → String → LivePart
  failed_part s e = record {
    conditions = [];
    freshness = failed_freshness e s.last_good_as_of;
    source = last_good;
    new_last_good = none;
  }

  retained :
      (host : Host) (s : Server) (result : ScanResult) (now : Time) (e : String) (out : Output)
      → let one = finish_snapshot host s (live_of_output s result now out) in
        Retained e now one (finish_snapshot host one.1 (failed_part one.1 e))
  unfolding finish_snapshot live_of_output
  retained host s result now e out =
      let one = finish_snapshot host s (live_of_output s result now out) in
      let a = assemble result.records out in
      let live = (live_of_output s result now out).freshness in
      let text = some (format_rfc3339 now) in
      (
        build_lanes-last_good live (failed_freshness e text) a s.last_good_lane_data,
        build_lanes-frames (failed_freshness e text) last_good (one.1).last_good_lane_data,
        ap (λ x. record (one.1) { last_good_lane_data = x })
            (build_lanes-failed_store (failed_freshness e text) (one.1).last_good_lane_data),
      )

  -- A snapshot built after a failed scan, from the server that the build of a good scan has left,
  -- shows in every lane the payload of that good scan's snapshot. Its live lanes are "failed",
  -- with the scan's error as the reason and the time of the good scan as the last good one, and
  -- the server's last good data stay as they were.
  pub build_snapshot-Retained :
      (host : Host) (s : Server) (result : ScanResult) (now later : Time) (e : String)
      (snap failed : Snapshot) (good after : Server)
      → build_snapshot host s (scan_done result) now ≡ some (snap, good)
      → build_snapshot host good (scan_failed e) later ≡ some (failed, after)
      → Retained e now (snap, good) (failed, after)
  unfolding build_snapshot live_part
  build_snapshot-Retained host s result now later e snap failed good after h k =
      let (out, ran) =
        fold-total (map (λ (r : StoreRecord). r.fields) result.records) s.vocab now
          (budget_options s.default_budget) in
      let built : build_snapshot host s (scan_done result) now
          ≡ some (finish_snapshot host s (live_of_output s result now out)) =
        rw ran refl in
      let one : finish_snapshot host s (live_of_output s result now out) ≡ (snap, good) =
        some-injective _ _ (sym built ∙ h) in
      let two : finish_snapshot host good (failed_part good e) ≡ (failed, after) =
        some-injective _ _ k in
      subst (Retained e now (snap, good)) two (
        subst
          (λ (x : Snapshot × Server).
            Retained e now x (finish_snapshot host x.1 (failed_part x.1 e)))
          one (retained host s result now e out))
