-- ===== src/Tests/ServerCases.antt =====
-- The server's theorems at concrete inputs.
use star_car.Prelude.{
  ℕ, ◌+◌, ◌*◌, ◌≤◌, ◌<◌, ◌≡◌, refl, Bool, false, String, none, some, List, [], ◌∷◌, map, sprint,
  join, err, if◌then◌else◌,
}
use star_car.Prelude.Int.{pos, leb_ℤ}
use star_car.Time.Parse.{unix_epoch, sub_time, parse_rfc3339}
use star_car.Fold.Entry.{Output}
use star_car.Store.Types.{Disk, ScanResult, StoreRecord}
use star_car.Store.Scan.{scan}
use star_car.Server.Snapshot.{Freshness, Snapshot, lane_registry}
use star_car.Server.Freshness.{newest_at, compute_live_freshness, milliseconds, stale}
use star_car.Server.Lanes.{Server, scan_failed, scan_done, last_good}
use star_car.Server.Build.{LivePart, live_of_output, live_part, finish_snapshot, build_snapshot}
use star_car.Server.Strip.{must_marshal_stripped}
use star_car.Prelude.{join}
use star_car.Paths.{has_prefix}
use star_car.Server.Again.{later_host}
use star_car.Server.Display.{store_path_display, collapse_home}
use star_car.Server.Steady.{poll_once-steady}
use star_car.Server.Retained.{failed_part}
use star_car.Server.Poll.{compare_and_set, input_of, poll_once}
use star_car.Server.Completeness.{frame_of, expected_frame, build_snapshot-frames}
use star_car.Server.Retained.{Retained, build_snapshot-Retained}
use star_car.Server.Polling.{IsCurrent, IsPolled, poll_once-IsPolled}
use star_car.Server.Ages.{IsNewest, compute_live_freshness-IsNewest, stale-bucket}
use star_car.Tests.Board.{tools, now, host, adapter, disk, server}
use star_car.Tests.Sample.{sample_platform, basic}
use star_car.Tests.FoldRuns.{run_fold}

abbrev found : ScanResult
found = record { records = []; quarantined = []; conditions = [] }

abbrev output : Output
output = record {
  tier = "tier-1-only";
  generated_at = "1970-01-01T00:01:00Z";
  faults = [];
  discoveries = [];
  dispatches = [];
  intents = [];
}

abbrev one : Snapshot × Server
one = finish_snapshot host server (live_of_output server found now output)

built : build_snapshot host server (scan_done found) now ≡ some one
unfolding build_snapshot live_part run_fold
built = refl

abbrev failed_after : Server → LivePart
failed_after s = record {
  conditions = [];
  freshness = record {
    kind = "failed";
    as_of = none;
    age_bucket_ms = none;
    reason = some (record { code = "store-unreadable"; detail = "gone" });
    last_good_as_of = s.last_good_as_of;
  };
  source = last_good;
  new_last_good = none;
}

abbrev two : Snapshot × Server
two = finish_snapshot host one.1 (failed_after one.1)

failed : build_snapshot host one.1 (scan_failed "gone") now ≡ some two
unfolding build_snapshot live_part
failed = refl

build_snapshot-frames_example :
    (live : Freshness) × (map frame_of (one.0).lanes ≡ map (expected_frame live) lane_registry)
build_snapshot-frames_example =
    build_snapshot-frames host server (scan_done found) now one.0 one.1 built

build_snapshot-Retained_example : Retained "gone" now one two
build_snapshot-Retained_example =
    build_snapshot-Retained host server found now now "gone" one.0 two.0 one.1 two.1 built failed

abbrev standing : Server
standing = record server { last_compare = "" }

is_current : IsCurrent host standing
unfolding must_marshal_stripped join
is_current = record { basis = refl; number = refl }

poll_once-IsPolled_example :
    (snap : Snapshot) × (changed : Bool) × (after : Server) × (candidate : Snapshot)
    × (built : Server) × (poll_once host disk standing now ≡ some ((snap, changed), after))
    × (build_snapshot host standing (input_of (scan adapter disk standing.cfg.store_path now)) now
        ≡ some (candidate, built))
    × IsPolled host now candidate snap changed standing after
poll_once-IsPolled_example = poll_once-IsPolled host disk standing now is_current

abbrev aged : List StoreRecord
aged =
    record { path = "a"; fields = basic "a" "dispatched" "1970-01-01T00:00:07Z" }
    ∷ record { path = "b"; fields = basic "b" "dispatched" "1970-01-01T00:00:03Z" }
    ∷ []

newest : newest_at aged ≡ some (unix_epoch + 7_000_000_000)
unfolding newest_at parse_rfc3339 run_fold
newest = refl

compute_live_freshness-IsNewest_example :
    IsNewest aged (unix_epoch + 7_000_000_000)
    × ((compute_live_freshness aged now (pos 15000) "1970-01-01T00:01:00Z").kind ≡ (
        if leb_ℤ (milliseconds (sub_time now (unix_epoch + 7_000_000_000))) (pos 15000)
        then "fresh"
        else "stale"))
compute_live_freshness-IsNewest_example =
    compute_live_freshness-IsNewest aged now (pos 15000) "1970-01-01T00:01:00Z"
      (unix_epoch + 7_000_000_000) newest

stale-bucket_example :
    (b : ℕ) × ((stale (pos 53000) "1970-01-01T00:01:00Z").age_bucket_ms ≡ some (pos (b * 5000)))
    × (b * 5000 ≤ 53000)
    × (53000 < b * 5000 + 5000)
stale-bucket_example = stale-bucket 53000 "1970-01-01T00:01:00Z"

abbrev gone : Disk
gone = record disk { stat = λ path. err "gone" }

abbrev missing : String
missing = "store:  is missing or unreadable: gone"

unreadable : scan adapter gone "" now ≡ err missing
unfolding scan sprint
unreadable = refl

abbrev polled : (Snapshot × Bool) × Server
polled =
    compare_and_set host now (finish_snapshot host server (failed_part server missing)).0 server

polling : poll_once host gone server now ≡ some polled
unfolding poll_once build_snapshot live_part input_of scan sprint
polling = refl

unreadable_later :
    scan polled.1.adapter gone polled.1.cfg.store_path (now + 1_000_000_000) ≡ err missing
unfolding compare_and_set scan sprint join finish_snapshot
unreadable_later = refl

-- At the second poll another home directory is set.
unchanged_display :
    store_path_display tools polled.1.cfg.store_path host.cwd "/home/b"
    ≡ store_path_display tools polled.1.cfg.store_path host.cwd host.home
unfolding compare_and_set finish_snapshot join sprint scan store_path_display collapse_home
    has_prefix
unchanged_display = refl

poll_once-steady_example :
    poll_once
      (later_host host host.board_defs host.cwd "/home/b")
      gone
      polled.1
      (now + 1_000_000_000)
    ≡ some (((polled.0).0, false), record (polled.1) { last_poll_at = some (now + 1_000_000_000) })
poll_once-steady_example =
    poll_once-steady host host.board_defs host.cwd "/home/b" gone gone server now
      (now + 1_000_000_000) missing (polled.0).0 (polled.0).1 polled.1 unreadable polling
      unreadable_later refl unchanged_display
