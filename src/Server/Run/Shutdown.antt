-- ===== src/Server/Run/Shutdown.antt =====
-- About `run` (main.go) and the cancellation of its context.
use star_car.Prelude.{
  ◌≡◌, refl, ap, ◌∙◌, ◌⊎◌, inl, inr, Bool, true, false, String, Option, none, Result, ok, err,
  arith,
}
use star_car.Platform.{Platform}
use star_car.Server.Config.{Config}
use star_car.Server.Run.{
  Main, serving, returned, awaiting, RunState, after_listen, begin_run, RunStep, cancels,
  leaves_loop, requests, responds, shuts_down, has_drained, gives_up, shutting, Watcher, absent,
  shut, gave_up, serve_closed, has_begun, serve_fails, RunReaches, at_start, then_runs,
}

abbrev is_serving : Main → Bool
is_serving serving = true
is_serving (returned e) = false

abbrev is_clean : Main → Bool
is_clean (returned none) = true
is_clean _ = false

-- What holds throughout `run`.
record IsOrderly (s : RunState) : Type 0 where
  told : has_begun s.watcher ≡ true → (s.cancelled ≡ true) × (s.accepting ≡ false)
  clean : is_clean s.main ≡ true → has_begun s.watcher ≡ true
  closed : is_serving s.main ≡ false → s.accepting ≡ false
  watched : is_serving s.main ≡ true → (s.watcher ≡ awaiting) ⊎ (has_begun s.watcher ≡ true)

after_listen-IsOrderly : (r : Result String) → IsOrderly (after_listen r)
unfolding after_listen
after_listen-IsOrderly (err e) = record {
  told = λ h. cc h;
  clean = λ h. cc h;
  closed = λ h. refl;
  watched = λ h. cc h;
}
after_listen-IsOrderly (ok address) = record {
  told = λ h. cc h;
  clean = λ h. cc h;
  closed = λ h. cc h;
  watched = λ h. inl refl;
}

step-IsOrderly : {s t : RunState} → RunStep s t → IsOrderly s → IsOrderly t
step-IsOrderly cancels h = ground arith
step-IsOrderly (leaves_loop e) h = ground arith
step-IsOrderly (requests e) h = ground arith
step-IsOrderly (responds n e) h = ground arith
step-IsOrderly (shuts_down w c) h = record {
  told = λ b. (c, refl);
  clean = λ b. refl;
  closed = λ b. refl;
  watched = λ b. inr refl;
}
step-IsOrderly (has_drained w n) h = record {
  told = λ b. h.told (ap has_begun w);
  clean = λ b. refl;
  closed = h.closed;
  watched = λ b. inr refl;
}
step-IsOrderly (gives_up w) h = record {
  told = λ b. h.told (ap has_begun w);
  clean = λ b. refl;
  closed = h.closed;
  watched = λ b. inr refl;
}
step-IsOrderly (serve_closed m b) h = record {
  told = h.told;
  clean = λ x. b;
  closed = λ x. (h.told b).1;
  watched = λ x. cc x;
}
step-IsOrderly (serve_fails e m w) h = record {
  told = λ b. absurd (cc (w, b));
  clean = λ x. cc x;
  closed = λ x. refl;
  watched = λ x. cc x;
}

reaches-IsOrderly : {start s : RunState} → RunReaches start s → IsOrderly start → IsOrderly s
reaches-IsOrderly at_start h = h
reaches-IsOrderly (then_runs r st) h = step-IsOrderly st (reaches-IsOrderly r h)

-- `Shutdown` has not returned, or not even been called.
abbrev pub is_unfinished : Watcher → Bool
is_unfinished awaiting = true
is_unfinished shutting = true
is_unfinished _ = false

-- The run has returned nil while `Shutdown` still waits for the requests in flight, none of which
-- has been answered.
abbrev pub CutsOff : RunState → RunState → Type 0
CutsOff s t = (t.main ≡ returned none) × (t.watcher ≡ shutting) × (t.in_flight ≡ s.in_flight)

closes_from :
    (s : RunState) (w : Watcher)
    → s.watcher ≡ w
    → is_unfinished w ≡ true
    → s.main ≡ serving
    → s.cancelled ≡ true
    → (t : RunState) × RunReaches s t × CutsOff s t
closes_from s awaiting e u m c =
    (_, then_runs (then_runs at_start (shuts_down e c)) (serve_closed m refl), (refl, refl, refl))
closes_from s shutting e u m c =
    (_, then_runs at_start (serve_closed m (ap has_begun e)), (refl, e, refl))
closes_from s absent e u m c = cc u
closes_from s shut e u m c = cc u
closes_from s gave_up e u m c = cc u

module _ ⦃p : Platform⦄ {A : Type 0} where
  begin_run-IsOrderly :
      (server : Result A) (listen : String → Result String) (cfg : Config)
      → IsOrderly (begin_run server listen cfg)
  unfolding begin_run
  begin_run-IsOrderly (err e) listen cfg = record {
    told = λ h. cc h;
    clean = λ h. cc h;
    closed = λ h. refl;
    watched = λ h. cc h;
  }
  begin_run-IsOrderly (ok server) listen cfg = after_listen-IsOrderly _

  -- Whenever run has returned, the listener takes no connections, and if it has returned nil, the
  -- context is cancelled.
  pub RunReaches-returned :
      (server : Result A) (listen : String → Result String) (cfg : Config) (s : RunState)
      (e : Option String)
      → RunReaches (begin_run server listen cfg) s
      → s.main ≡ returned e
      → (s.accepting ≡ false) × (e ≡ none → s.cancelled ≡ true)
  RunReaches-returned server listen cfg s e r m =
      let h = reaches-IsOrderly r (begin_run-IsOrderly server listen cfg) in
      (
        h.closed (ap is_serving m),
        λ n. (h.told (h.clean (ap is_clean m ∙ ap (λ x. is_clean (returned x)) n))).0,
      )

  -- From every state of run in which it serves, the context is cancelled and Shutdown has not
  -- returned, run can return nil while Shutdown still waits, with as many requests in flight as
  -- before, and with the listener closed.
  pub RunReaches-closes :
      (server : Result A) (listen : String → Result String) (cfg : Config) (s : RunState)
      → RunReaches (begin_run server listen cfg) s
      → s.main ≡ serving
      → s.cancelled ≡ true
      → is_unfinished s.watcher ≡ true
      → (t : RunState) × RunReaches s t × CutsOff s t × (t.accepting ≡ false)
  RunReaches-closes server listen cfg s r m c u =
      let (t, runs, cut) = closes_from s s.watcher refl u m c in
      let kept =
        reaches-IsOrderly runs (reaches-IsOrderly r (begin_run-IsOrderly server listen cfg)) in
      (t, runs, cut, kept.closed (ap is_serving cut.0))
