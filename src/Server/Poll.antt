-- ===== src/Server/Poll.antt =====
-- poll.go: `NewServer`, `PollOnce` and what reads their result.
use star_car.Prelude.{
  ℕ, ◌+◌, ◌%◌, ◌^◌, Bool, true, false, String, Option, none, some, ◌>>=◌, [], ◌==◌, Result, ok, err,
  or_fail, if◌then◌else◌,
}
use Prim.Native.String
use star_car.Platform.{Platform}
use star_car.Time.Parse.{Time}
use star_car.Time.Format.{format_rfc3339}
use star_car.Fold.Record.{Vocab}
use star_car.Fold.Loaders.{Files, load_vocab, load_default_budget}
use star_car.Store.Types.{BoardCondition, Adapter, Schema, Disk, ScanResult}
use star_car.Store.Scan.{new_adapter, scan}
use star_car.Assemble.Build.{needs_attention}
use star_car.Prelude.Int.{pos}
use star_car.Assemble.BoardDefs.{no_vocabularies}
use star_car.Server.Config.{Config}
use star_car.Server.Display.{PathTools}
use star_car.Server.Snapshot.{Snapshot}
use star_car.Server.Lanes.{Server, PollInput, not_polled, scan_failed, scan_done}
use star_car.Server.Build.{Host, build_snapshot}
use star_car.Server.Strip.{must_marshal_stripped}

-- `n++` of an int of 64 bits, read without its sign.
unfoldable pub increment : ℕ → ℕ
increment n = (n + 1) % 2 ^ 64

module _ ⦃p : Platform⦄ where
  unfoldable pub input_of : Result ScanResult → PollInput
  input_of (ok result) = scan_done result
  input_of (err e) = scan_failed e

  -- The branches on whether the candidate is what stands already.
  unfoldable pub settle : Host → Time → Snapshot → Server → Bool → (Snapshot × Bool) × Server
  unfolding must_marshal_stripped increment
  settle host now candidate s true =
      ((s.last_snapshot, false), record s { last_poll_at = some now })
  settle host now candidate s false =
      let snap = record candidate { seq = increment s.seq; as_of = some (format_rfc3339 now) } in
      (
        (snap, true),
        record s {
          last_poll_at = some now;
          seq = increment s.seq;
          last_snapshot = snap;
          last_compare = must_marshal_stripped host snap;
        },
      )

  -- The rest of a poll under the mutex: the candidate against the last comparison basis.
  unfoldable pub compare_and_set : Host → Time → Snapshot → Server → (Snapshot × Bool) × Server
  unfolding settle must_marshal_stripped
  compare_and_set host now candidate s =
      settle host now candidate s (must_marshal_stripped host candidate == s.last_compare)

  -- `PollOnce`; `none` is a panic.
  unfoldable pub poll_once : Host → Disk → Server → Time → Option ((Snapshot × Bool) × Server)
  unfolding input_of build_snapshot compare_and_set
  poll_once host disk s now = do
    (candidate, built) ←
        build_snapshot host s (input_of (scan s.adapter disk s.cfg.store_path now)) now
    some (compare_and_set host now candidate built)

  abbrev pub current_snapshot : Server → Snapshot
  current_snapshot s = s.last_snapshot

  abbrev empty_snapshot : Snapshot
  empty_snapshot = record {
    seq = 0;
    as_of = none;
    config = record {
      poll_ms = pos 0;
      heartbeat_ms = pos 0;
      staleness_ms = pos 0;
      store_path_display = "";
      lane_count = 0;
      demo_mode = false;
    };
    vocabularies = no_vocabularies;
    board = [];
    lanes = [];
  }

  unfoldable pub vocab_or_empty : Result Vocab → Vocab
  vocab_or_empty (ok vocab) = vocab
  vocab_or_empty (err e) = record { kinds = []; outcomes = [] }

  unfoldable pub failure : {A : Type 0} → String → String → Result A → Option BoardCondition
  failure code prefix (ok a) = none
  failure code prefix (err e) = some (needs_attention code (String.◌++◌ prefix e))

  -- The budget is read only where a path is set.
  unfoldable pub budget_result : Files → String → Option (Result p.Float)
  unfolding load_default_budget
  budget_result files path = if path == "" then none else some (load_default_budget files path)

  unfoldable pub budget_value : Option (Result p.Float) → Option p.Float
  budget_value (some (ok budget)) = some budget
  budget_value _ = none

  unfoldable pub budget_failure : Option (Result p.Float) → Option BoardCondition
  unfolding failure
  budget_failure none = none
  budget_failure (some r) =
      failure "shop-default-budget-unreadable" "could not load the shop-default dispatch budget: " r

  -- The server before its first snapshot.
  unfoldable pub start_server : PathTools → Files → Config → Adapter → Server
  unfolding load_vocab vocab_or_empty failure budget_result budget_value budget_failure
  start_server t files cfg adapter =
      let dir = if cfg.schema_dir == "" then "" else t.join_path cfg.schema_dir "vocab" in
      let vocab = load_vocab files t.join_path dir in
      let budget = budget_result files cfg.defaults_path in
      record {
        cfg = cfg;
        adapter = adapter;
        seq = 0;
        last_snapshot = empty_snapshot;
        last_compare = "";
        last_poll_at = none;
        last_good_as_of = none;
        last_good_lane_data = [];
        vocab = vocab_or_empty vocab;
        vocab_load_condition =
            failure "recognition-vocabulary-unreadable"
              "could not load the kind/outcome recognition vocabulary: " vocab;
        default_budget = budget_value budget;
        default_budget_condition = budget_failure budget;
      }

  -- The first snapshot, which the clock has no part in.
  unfoldable pub first_snapshot : Host → Server → Option Server
  unfolding build_snapshot must_marshal_stripped
  first_snapshot host s = do
    (snap, built) ← build_snapshot host s not_polled 0
    some (record built { last_snapshot = snap; last_compare = must_marshal_stripped host snap })

  -- `NewServer`; the inner `none` is a panic.
  unfoldable pub new_server :
      Host → Files → (String → String → Result Schema) → Config → Result (Option Server)
  unfolding new_adapter start_server first_snapshot
  new_server host files compile cfg =
      or_fail (new_adapter compile cfg.schema_dir) (λ e. e)
        λ adapter. ok (first_snapshot host (start_server host.tools files cfg adapter))
