-- ===== src/Server/Build.antt =====
-- poll.go: `buildSnapshot`.
use star_car.Prelude.{
  String, Option, none, some, ◌>>=◌, List, [], ◌∷◌, ◌++◌, map, Result, length, option_list,
}
use star_car.Platform.{Platform}
use star_car.Time.Parse.{Time}
use star_car.Time.Format.{format_rfc3339}
use star_car.Fold.Entry.{Output}
use star_car.Fold.Algorithm.{FoldOptions, fold, with_default_budget_seconds}
use star_car.Store.Types.{BoardCondition, StoreRecord, ScanResult}
use star_car.Assemble.Build.{needs_attention, assemble}
use star_car.Assemble.BoardDefs.{RawVocabularies, load_vocabularies}
use star_car.Server.Display.{PathTools, store_path_display}
use star_car.Server.Snapshot.{Freshness, Snapshot, lane_registry}
use star_car.Server.Freshness.{never_polled, compute_live_freshness}
use star_car.Server.Lanes.{
  Server, PollInput, not_polled, scan_failed, scan_done, LaneSource, no_data, last_good, current,
  build_lanes,
}

module _ ⦃p : Platform⦄ where
  -- The process's surroundings, as they are while a snapshot is built.
  pub record Host : Type 0 where
    pub board_defs : String → Result (Result RawVocabularies)
    pub tools : PathTools
    pub cwd : String
    pub home : String
    -- `json.Marshal` of a snapshot
    pub marshal : Snapshot → String

  -- What the three branches on the scan give.
  pub record LivePart : Type 0 where
    pub conditions : List BoardCondition
    pub freshness : Freshness
    pub source : LaneSource
    pub new_last_good : Option String

  unfoldable pub budget_options : Option p.Float → List (FoldOptions → FoldOptions)
  budget_options none = []
  budget_options (some seconds) = with_default_budget_seconds seconds ∷ []

  -- The branch of a scan that has succeeded, once its records are folded.
  unfoldable pub live_of_output : Server → ScanResult → Time → Output → LivePart
  unfolding compute_live_freshness format_rfc3339
  live_of_output s result now out =
      let assembled = assemble result.records out in
      record {
        conditions =
            result.conditions
            ++ map (needs_attention "fold-fault") out.faults
            ++ map (needs_attention "discovery") out.discoveries
            ++ assembled.conditions;
        freshness =
            compute_live_freshness result.records now s.cfg.staleness_ms (format_rfc3339 now);
        source = current assembled;
        new_last_good = some (format_rfc3339 now);
      }

  -- The branches on the scan. `none` is a panic of the fold.
  unfoldable pub live_part : Server → PollInput → Time → Option LivePart
  unfolding budget_options live_of_output
  live_part s not_polled now =
      some (record {
        conditions = [];
        freshness = never_polled;
        source = no_data;
        new_last_good = none;
      })
  live_part s (scan_failed e) now = some (record {
    conditions = [];
    freshness = record never_polled {
      kind = "failed";
      reason = some (record { code = "store-unreadable"; detail = e });
      last_good_as_of = s.last_good_as_of;
    };
    source = last_good;
    new_last_good = none;
  })
  live_part s (scan_done result) now = do
    out ←
        fold (map (λ (r : StoreRecord). r.fields) result.records) s.vocab now
          (budget_options s.default_budget)
    some (live_of_output s result now out)

  abbrev or_last_good : Option String → Option String → Option String
  or_last_good none old = old
  or_last_good (some text) old = some text

  -- The snapshot from the branch's part, and the server with what the build writes into it.
  unfoldable pub finish_snapshot : Host → Server → LivePart → Snapshot × Server
  unfolding build_lanes store_path_display load_vocabularies
  finish_snapshot host s live =
      let (vocabularies, vocab_conditions) =
        load_vocabularies s.cfg.board_defs_path (host.board_defs s.cfg.board_defs_path) in
      let (lanes, lane_store) = build_lanes live.freshness live.source s.last_good_lane_data in
      (
        record {
          seq = 0;
          as_of = none;
          config = record {
            poll_ms = s.cfg.poll_ms;
            heartbeat_ms = s.cfg.heartbeat_ms;
            staleness_ms = s.cfg.staleness_ms;
            store_path_display = store_path_display host.tools s.cfg.store_path host.cwd host.home;
            lane_count = length lane_registry;
            demo_mode = s.cfg.demo_mode;
          };
          vocabularies = vocabularies;
          board =
              vocab_conditions
              ++ option_list s.vocab_load_condition
              ++ option_list s.default_budget_condition
              ++ live.conditions;
          lanes = lanes;
        },
        record s {
          last_good_as_of = or_last_good live.new_last_good s.last_good_as_of;
          last_good_lane_data = lane_store;
        },
      )

  unfoldable pub build_snapshot : Host → Server → PollInput → Time → Option (Snapshot × Server)
  unfolding live_part finish_snapshot
  build_snapshot host s input now = do
    live ← live_part s input now
    some (finish_snapshot host s live)
