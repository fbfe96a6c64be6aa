-- ===== src/Server/Run.antt =====
-- main.go: `main` and `run`, the listener, the poll loop and the watcher of the context. What
-- `net/http` does of itself is given as steps: `Serve` returns an error of its own, or
-- ErrServerClosed once `Shutdown` has been called, which closes the listener first.
pub mod Shutdown
pub mod Defaults
use star_car.Prelude.{
  ℕ, suc, ◌≡◌, ◌≢◌, Bool, true, false, String, Option, none, some, List, [], ◌∷◌, Result, ok, err,
  sprint,
}
use star_car.Prelude.Int.{ℤ, pos, negsuc}
use star_car.Platform.{Platform}
use star_car.Server.Config.{Config, default_config, apply_env_overrides}
use star_car.Server.Display.{PathTools, resolve_paths}

-- Where `run` stands: in `Serve`, or returned with an error or `nil`.
pub data Main : Type 0 where
  serving : Main
  returned : Option String → Main

-- The goroutine that waits for the context and calls `Shutdown`.
pub data Watcher : Type 0 where
  absent awaiting shutting shut gave_up : Watcher

-- `Shutdown` has been called.
abbrev pub has_begun : Watcher → Bool
has_begun shutting = true
has_begun shut = true
has_begun gave_up = true
has_begun _ = false

pub record RunState : Type 0 where
  pub main : Main
  pub watcher : Watcher
  pub cancelled : Bool
  -- whether the listener takes connections
  pub accepting : Bool
  -- the requests that are being handled
  pub in_flight : ℕ
  -- whether `RunPollLoop` runs
  pub looping : Bool
  -- what was sent on `ready`
  pub ready : Option String

-- `run` ends before it serves.
abbrev pub failed_start : String → Bool → RunState
failed_start e looping = record {
  main = returned (some e);
  watcher = absent;
  cancelled = false;
  accepting = false;
  in_flight = 0;
  looping = looping;
  ready = none;
}

-- After `net.Listen`; the poll loop has been started before it.
unfoldable pub after_listen : Result String → RunState
after_listen (err e) = failed_start e true
after_listen (ok address) = record {
  main = serving;
  watcher = awaiting;
  cancelled = false;
  accepting = true;
  in_flight = 0;
  looping = true;
  ready = some address;
}

module _ ⦃p : Platform⦄ where
  -- `strconv.Itoa`
  unfoldable pub itoa : ℤ → String
  itoa (pos n) = p.decimal n
  itoa (negsuc n) = sprint ("-" ∷ p.decimal (suc n) ∷ [])

  unfoldable pub address_of : Config → String
  unfolding itoa
  address_of cfg = sprint (cfg.host ∷ ":" ∷ itoa cfg.port ∷ [])

  -- `run` up to `Serve`, from what `NewServer` and `net.Listen` give.
  unfoldable pub begin_run : {A : Type 0} → Result A → (String → Result String) → Config → RunState
  unfolding after_listen address_of
  begin_run (err e) listen cfg = failed_start e false
  begin_run (ok server) listen cfg = after_listen (listen (address_of cfg))

-- One step of `run`, of its goroutines, of the context or of a client.
pub data RunStep (s : RunState) : RunState → Type 0 where
  cancels : RunStep s (record s { cancelled = true })
  leaves_loop : s.cancelled ≡ true → RunStep s (record s { looping = false })
  requests : s.accepting ≡ true → RunStep s (record s { in_flight = suc s.in_flight })
  responds : (n : ℕ) → s.in_flight ≡ suc n → RunStep s (record s { in_flight = n })
  shuts_down :
      s.watcher ≡ awaiting
      → s.cancelled ≡ true
      → RunStep s (record s { watcher = shutting; accepting = false })
  -- `Shutdown` returns nil once no request is in flight, or an error when the grace period is over.
  has_drained : s.watcher ≡ shutting → s.in_flight ≡ 0 → RunStep s (record s { watcher = shut })
  gives_up : s.watcher ≡ shutting → RunStep s (record s { watcher = gave_up })
  serve_closed :
      s.main ≡ serving → has_begun s.watcher ≡ true → RunStep s (record s { main = returned none })
  serve_fails :
      (e : String)
      → s.main ≡ serving
      → s.watcher ≡ awaiting
      → RunStep s (record s { main = returned (some e); accepting = false })

pub data RunReaches (start : RunState) : RunState → Type 0 where
  at_start : RunReaches start start
  then_runs : {s t : RunState} → RunReaches start s → RunStep s t → RunReaches start t

-- The configuration that `main` runs with; `cwd` is what `os.Getwd` gives.
unfoldable pub main_config : PathTools → (String → Option String) → Result String → Result Config
unfolding apply_env_overrides resolve_paths
main_config t env (err e) = err e
main_config t env (ok cwd) = ok (resolve_paths t cwd (apply_env_overrides default_config env))
