-- ===== src/Tests/Board.antt =====
-- A server and its surroundings, for runs.
use star_car.Prelude.{◌+◌, true, false, none, [], map, ◌==◌, join, ok, err, if◌then◌else◌}
use star_car.Prelude.Int.{pos}
use star_car.Paths.{has_prefix}
use star_car.Time.Parse.{Time, unix_epoch}
use star_car.Store.Types.{Adapter, Disk}
use star_car.Server.Config.{default_config}
use star_car.Server.Display.{PathTools}
use star_car.Server.Snapshot.{Freshness}
use star_car.Server.Lanes.{Server}
use star_car.Server.Build.{Host}
use star_car.Tests.Sample.{sample_platform}
use star_car.Tests.FoldRuns.{vocab}

abbrev pub now : Time
now = unix_epoch + 60_000_000_000

abbrev pub tools : PathTools
tools = record {
  rel =
      λ base target. if has_prefix target "/repo/" then ok "artifacts" else err "no relative path";
  base = λ path. "artifacts";
  dir = λ path. "/repo";
  join_path = λ a b. a;
  stat = λ path. ok (path == "/repo");
}

abbrev pub host : Host
host = record {
  board_defs = λ path. err "no such file";
  tools = tools;
  cwd = "/repo";
  home = "/home/a";
  marshal = λ snap. join "," (map (λ (l : Freshness). l.kind) (map (λ l. l.freshness) snap.lanes));
}

abbrev pub adapter : Adapter
adapter = record { artifact_schema = λ fs. none; manifest_schema = λ fs. none }

abbrev pub disk : Disk
disk = record {
  stat = λ path. ok true;
  walk = λ path. [];
  read_file = λ path. err "no such file";
  rel = λ root path. ok path;
  base = λ path. path;
}

abbrev pub server : Server
server = record {
  cfg = default_config;
  adapter = adapter;
  seq = 0;
  last_snapshot = record {
    seq = 0;
    as_of = none;
    config = record {
      poll_ms = pos 0;
      heartbeat_ms = pos 0;
      staleness_ms = pos 0;
      store_path_display = "";
      lane_count = 0;
      demo_mode = false;
    };
    vocabularies = record { positions = []; outcomes = []; roles = []; liveness = [] };
    board = [];
    lanes = [];
  };
  last_compare = "";
  last_poll_at = none;
  last_good_as_of = none;
  last_good_lane_data = [];
  vocab = vocab;
  vocab_load_condition = none;
  default_budget = none;
  default_budget_condition = none;
}
