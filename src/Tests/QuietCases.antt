-- ===== src/Tests/QuietCases.antt =====
-- Two polls in a row of a store with one record, of a car that has returned.
use star_car.Prelude.{◌+◌, ◌≡◌, refl, Bool, true, false, none, some, [], ◌∷◌, ok, sprint, join}
use star_car.Prelude.Int.{pos, ℤ}
use star_car.Prelude.Sort.{sort_stable}
use star_car.Json.{text, lookup, Fields, field}
use star_car.Time.Parse.{Time, parse_rfc3339, sub_time}
use star_car.Fold.Entry.{Output}
use star_car.Fold.Algorithm.{fold}
use star_car.Store.Types.{Disk, ScanResult, entry}
use star_car.Store.Decode.{unknown_keys}
use star_car.Store.Scan.{scan, scan_paths, collect}
use star_car.Server.Snapshot.{Snapshot}
use star_car.Server.Lanes.{Server}
use star_car.Server.Build.{live_of_output, finish_snapshot, budget_options}
use star_car.Server.Poll.{compare_and_set, poll_once}
use star_car.Server.Strip.{must_marshal_stripped}
use star_car.Server.Rows.{record_fields}
use star_car.Server.Freshness.{compute_live_freshness}
use star_car.Paths.{has_prefix}
use star_car.Server.Again.{later_host}
use star_car.Server.Display.{store_path_display, collapse_home}
use star_car.Server.Quiet.{bare, freshness_of, poll-scanned, poll_once-IsQuiet, IsQuiet}
use star_car.Tests.Board.{tools, host, server, now, adapter}
use star_car.Tests.FoldRuns.{run_fold}
use star_car.Tests.Sample.{sample_platform, basic}

abbrev later : Time
later = now + 2_000_000_000

abbrev returned : Fields ℤ
returned = field "outcome" (text "APPROVE") (basic "a" "returned" "1970-01-01T00:00:30Z")

abbrev disk : Disk
disk = record {
  stat = λ root. ok true;
  walk = λ root. entry "r/a.json" "a.json" false ∷ [];
  read_file = λ path. ok (ok returned);
  rel = λ root path. ok path;
  base = λ path. path;
}

abbrev result : ScanResult
result = record {
  records = record { path = "r/a.json"; fields = returned } ∷ [];
  quarantined = [];
  conditions = [];
}

scanned : scan adapter disk "" now ≡ ok result
unfolding scan scan_paths collect parse_rfc3339 sprint join sort_stable lookup unknown_keys
scanned = refl

scanned_later : scan adapter disk "" later ≡ ok result
unfolding scan scan_paths collect parse_rfc3339 sprint join sort_stable lookup unknown_keys
scanned_later = refl

abbrev out : Output
out = record {
  tier = "tier-1-only";
  generated_at = "1970-01-01T00:01:00Z";
  faults = [];
  discoveries = [];
  dispatches =
      record {
        subject = "a";
        state = "returned";
        at = "1970-01-01T00:00:30Z";
        superseded = [];
        winner_kind = "returned";
        outcome = "APPROVE";
        spend = text "absent";
        elapsed_seconds = pos 0;
        budget_seconds = none;
        budget_source = "";
      }
      ∷ [];
  intents = [];
}

ran :
    fold (record_fields result.records) server.vocab now (budget_options server.default_budget)
    ≡ some out
unfolding run_fold budget_options
ran = refl

abbrev polled : (Snapshot × Bool) × Server
polled =
    let made = finish_snapshot host server (live_of_output server result now out) in
    compare_and_set host now made.0 made.1

polling : poll_once host disk server now ≡ some polled
polling = poll-scanned host disk server result now out scanned ran

scanning_again : scan (polled.1).adapter disk (polled.1).cfg.store_path later ≡ ok result
unfolding compare_and_set finish_snapshot must_marshal_stripped live_of_output join parse_rfc3339
    lookup sub_time
scanning_again = scanned_later

fresh_both :
    bare (freshness_of host server result later) ≡ bare (freshness_of host server result now)
unfolding compute_live_freshness parse_rfc3339 lookup sub_time
fresh_both = refl

-- At the second poll another home directory is set.
unchanged_display :
    store_path_display tools polled.1.cfg.store_path host.cwd "/home/b"
    ≡ store_path_display tools polled.1.cfg.store_path host.cwd host.home
unfolding compare_and_set finish_snapshot must_marshal_stripped live_of_output join parse_rfc3339
    lookup sub_time store_path_display collapse_home has_prefix
unchanged_display = refl

poll_once-IsQuiet_example :
    IsQuiet (later_host host host.board_defs host.cwd "/home/b") disk later polled
poll_once-IsQuiet_example =
    poll_once-IsQuiet host host.board_defs host.cwd "/home/b" disk server result now later out ran
      (refl, tt) fresh_both disk (polled.0).0 (polled.0).1 polled.1 scanned polling scanning_again
      refl unchanged_display
