-- ===== src/Tests/PipelineCases.antt =====
-- A poll of a store with one record that is sound.
use star_car.Prelude.{◌≡◌, refl, ap, true, some, none, [], ◌∷◌, join}
use star_car.Prelude.Int.{pos}
use star_car.Json.{null, lookup}
use star_car.Fold.Entry.{Output}
use star_car.Time.Parse.{parse_rfc3339, sub_time}
use star_car.Assemble.Surfaces.{Reencodes}
use star_car.Server.Snapshot.{Snapshot}
use star_car.Server.Lanes.{Server, scan_done}
use star_car.Server.Build.{live_of_output, live_part, finish_snapshot, build_snapshot}
use star_car.Server.Poll.{compare_and_set, input_of, poll_once}
use star_car.Server.Polling.{IsCurrent}
use star_car.Server.Strip.{must_marshal_stripped}
use star_car.Server.Pipeline.{Shows, poll_once-Shows}
use star_car.Tests.Board.{host, server}
use star_car.Tests.StoreCases.{now, adapter, disk, result, scanned}
use star_car.Tests.FoldRuns.{run_fold}
use star_car.Tests.Sample.{sample_platform}

abbrev standing : Server
standing = record server { cfg = record (server.cfg) { store_path = "r" }; adapter = adapter }

is_current : IsCurrent host standing
unfolding must_marshal_stripped join
is_current = record { basis = refl; number = refl }

reencodes : Reencodes
reencodes fs = refl

abbrev out : Output
out = record {
  tier = "tier-1-only";
  generated_at = "1970-01-01T00:00:10Z";
  faults = [];
  discoveries = [];
  dispatches =
      record {
        subject = "a";
        state = "dispatched";
        at = "1970-01-01T00:00:00Z";
        superseded = [];
        winner_kind = "dispatched";
        outcome = "";
        spend = null;
        elapsed_seconds = pos 10;
        budget_seconds = none;
        budget_source = "";
      }
      ∷ [];
  intents = [];
}

abbrev built : Snapshot × Server
built = finish_snapshot host standing (live_of_output standing result now out)

building : build_snapshot host standing (scan_done result) now ≡ some built
unfolding build_snapshot live_part run_fold
building = refl

abbrev settled : Server
settled = (compare_and_set host now built.0 built.1).1

compared : compare_and_set host now built.0 built.1 ≡ ((settled.last_snapshot, true), settled)
unfolding compare_and_set must_marshal_stripped join finish_snapshot parse_rfc3339 live_of_output
    lookup sub_time
compared = refl

polling : poll_once host disk standing now ≡ some ((settled.last_snapshot, true), settled)
unfolding poll_once input_of
polling = rw scanned (rw building (ap some compared))

poll_once-Shows_example :
    (settled.last_snapshot ≡ settled.last_snapshot)
    × Shows host standing result now settled.last_snapshot
poll_once-Shows_example =
    poll_once-Shows reencodes host standing result now disk settled.last_snapshot settled is_current
      scanned polling
