-- ===== src/Tests/SourcesCases.antt =====
-- The running server, once a poll has read a store with one record that is sound.
use star_car.Prelude.{◌≡◌, refl, String, none, some, [], ◌∷◌, ◌==◌, Result, ok, err, if◌then◌else◌}
use star_car.Prelude.Int.{pos}
use star_car.Json.{null}
use star_car.Fold.Entry.{Output}
use star_car.Fold.Loaders.{Files}
use star_car.Store.Types.{Schema}
use star_car.Store.Scan.{new_adapter, scan}
use star_car.Assemble.Surfaces.{Reencodes}
use star_car.Server.Config.{Config, default_config}
use star_car.Server.Snapshot.{Snapshot}
use star_car.Server.Lanes.{Server, scan_done}
use star_car.Server.Build.{live_of_output, live_part, finish_snapshot, build_snapshot}
use star_car.Server.Poll.{start_server, first_snapshot, new_server, compare_and_set, input_of}
use star_car.Server.Polling.{first_part}
use star_car.Server.Strip.{must_marshal_stripped}
use star_car.Server.Origin.{sources_of, Displays}
use star_car.Server.Process.{
  Poll, begun, compared_next, tick_process, poll_after, Process, ticks, polls_on, scans, compares,
  ProcessRuns, starts, then_steps,
}
use star_car.Server.Process.Sources.{ProcessRuns-Displays}
use star_car.Tests.Board.{host}
use star_car.Tests.StoreCases.{now, adapter, disk, result, scanned}
use star_car.Tests.FoldRuns.{run_fold}
use star_car.Tests.Sample.{sample_platform}

abbrev files : Files
files = record {
  read_values = λ path. err "no such file";
  read_budget = λ path. err "no such file";
}

abbrev compile : String → String → Result Schema
compile dir name = ok (
    if name == "starcar-artifact.schema.json"
    then adapter.artifact_schema
    else adapter.manifest_schema)

abbrev cfg : Config
cfg = record default_config { store_path = "r" }

abbrev blank : Server
blank = start_server host.tools files cfg adapter

abbrev first : Snapshot × Server
first = finish_snapshot host blank (first_part host)

abbrev started : Server
started = record (first.1) {
  last_snapshot = first.0;
  last_compare = must_marshal_stripped host first.0;
}

start : new_server host files compile cfg ≡ ok (some started)
unfolding new_server new_adapter first_snapshot
start = refl

abbrev out : Output
out = record {
  tier = "tier-1-only";
  generated_at = "1970-01-01T00:00:10Z";
  faults = "vocabulary: valid but empty: kinds.json, outcomes.json" ∷ [];
  discoveries = [];
  dispatches =
      record {
        subject = "a";
        state = "dispatched";
        at = "1970-01-01T00:00:00Z";
        superseded = [];
        winner_kind = "dispatched";
        outcome = "";
        spend = null;
        elapsed_seconds = pos 10;
        budget_seconds = none;
        budget_source = "";
      }
      ∷ [];
  intents = [];
}

abbrev built : Snapshot × Server
built = finish_snapshot host started (live_of_output started result now out)

building : build_snapshot host started (scan_done result) now ≡ some built
unfolding build_snapshot live_part run_fold start_server finish_snapshot
building = refl

abbrev settled : Server
settled = (compare_and_set host now built.0 built.1).1

abbrev Runs : Process → Type 0
Runs = ProcessRuns host (λ snap. ok (host.marshal snap)) files compile cfg

abbrev with_poll : Server → Poll → Process
with_poll s poll = record { server = s; poll_in_flight = 1; polls = poll ∷ []; connections = [] }

scanning :
    build_snapshot host started
      (input_of (scan started.adapter disk started.cfg.store_path now))
      now
    ≡ some built
unfolding input_of start_server finish_snapshot
scanning = rw scanned building

polling : Runs (with_poll started (begun now))
unfolding tick_process
polling = then_steps (starts started start) (ticks now)

comparing : Runs (with_poll built.1 (compared_next now built.0))
comparing = then_steps polling (
    polls_on [] [] (begun now) (compared_next now built.0) built.1 [] refl
      (scans disk host.board_defs now built.0 built.1 scanning))

polled : Runs (with_poll settled (poll_after (compare_and_set host now built.0 built.1).0))
polled =
    then_steps comparing
      (polls_on [] [] (compared_next now built.0) _ settled [] refl (compares now built.0))

reencodes : Reencodes
reencodes fs = refl

ProcessRuns-Displays_example :
    (settled.cfg ≡ cfg)
    × (new_adapter compile cfg.schema_dir ≡ ok settled.adapter)
    × Displays (sources_of settled) settled.last_snapshot.lanes
ProcessRuns-Displays_example =
    ProcessRuns-Displays reencodes host (λ snap. ok (host.marshal snap)) files compile cfg
      (with_poll settled (poll_after (compare_and_set host now built.0 built.1).0)) polled
