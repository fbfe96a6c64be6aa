-- ===== src/Tests/RunCases.antt =====
-- The theorems on `run`, `main`, the handlers and the frames at concrete inputs.
use star_car.Prelude.{
  ℕ, ◌≡◌, refl, inl, inr, true, false, String, Option, none, some, List, [], ◌∷◌, ◌++◌, ◌==◌,
  Result, ok, Bool-cases, eq_iff, sprint, if◌then◌else◌,
}
use Prim.Native.String
use star_car.Server.Config.{default_config, apply_env_overrides}
use star_car.Server.Display.{PathTools, resolve_paths}
use star_car.Server.Connections.{StreamEvent, frame, heartbeat}
use star_car.Server.Frames.Reader.{written_text, events_of, read_events, is_one_line}
use star_car.Server.Frames.RoundTrip.{read_events-written_text}
use star_car.Server.Run.{
  serving, returned, awaiting, shutting, RunState, begin_run, cancels, requests, shuts_down,
  serve_closed, RunReaches, at_start, then_runs, main_config,
}
use star_car.Server.Run.Shutdown.{CutsOff, RunReaches-returned, RunReaches-closes}
use star_car.Server.Run.Defaults.{JoinIsFull, IsConfigured, main_config-IsConfigured}
use star_car.Tests.Board.{tools}
use star_car.Tests.Sample.{sample_platform}

abbrev listen : String → Result String
listen address = ok address

abbrev begun : RunState
begun = begin_run {A = ℕ} (ok 0) listen default_config

abbrev busy : RunState
busy = record {
  main = serving;
  watcher = awaiting;
  cancelled = true;
  accepting = true;
  in_flight = 1;
  looping = true;
  ready = some "127.0.0.1:n";
}

cancelled_busy : RunReaches begun busy
unfolding begin_run sprint
cancelled_busy = then_runs (then_runs at_start (requests refl)) cancels

RunReaches-closes_example :
    (t : RunState) × RunReaches busy t × CutsOff busy t × (t.accepting ≡ false)
RunReaches-closes_example =
    RunReaches-closes {A = ℕ} (ok 0) listen default_config busy cancelled_busy refl refl refl

abbrev closed : RunState
closed = record busy { main = returned none; watcher = shutting; accepting = false }

closing : RunReaches begun closed
closing = then_runs (then_runs cancelled_busy (shuts_down refl refl)) (serve_closed refl refl)

RunReaches-returned_example :
    (closed.accepting ≡ false) × (◌≡◌ {A = Option String} none none → closed.cancelled ≡ true)
RunReaches-returned_example =
    RunReaches-returned {A = ℕ} (ok 0) listen default_config closed none closing refl

-- Path tools whose `Join` puts a slash between its parts.
abbrev slashed : PathTools
slashed = record tools { join_path = λ a b. String.◌∷◌ "/" b }

join_is_full : JoinIsFull slashed
join_is_full a b h = elim (Bool-cases (String.◌∷◌ "/" b == "")) [
  | inl e ↦
      let same : String.◌∷◌ "/" b ≡ "" = (eq_iff (String.◌∷◌ "/" b) "").0 e in absurd (cc same)
  | inr e ↦ e
]

abbrev env : String → Option String
env key = if key == "STARCAR_STORE_PATH" then some "/data/store" else none

main_config-IsConfigured_example :
    IsConfigured env (resolve_paths slashed "/repo" (apply_env_overrides default_config env))
unfolding main_config
main_config-IsConfigured_example =
    main_config-IsConfigured slashed env "/repo"
      (resolve_paths slashed "/repo" (apply_env_overrides default_config env)) join_is_full refl

abbrev events : List StreamEvent
events = frame "{}" ∷ heartbeat ∷ frame "[1]" ∷ []

read_events-written_text_example :
    read_events (String.◌++◌ (written_text events) "event: yard\ndata: cu")
    ≡ events_of events ++ read_events "event: yard\ndata: cu"
unfolding is_one_line
read_events-written_text_example =
    read_events-written_text events "event: yard\ndata: cu" (refl, (refl, tt))
