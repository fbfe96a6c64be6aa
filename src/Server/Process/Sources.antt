-- ===== src/Server/Process/Sources.antt =====
-- About the running server (poll.go): which scan the lanes of its current snapshot come from.
use star_car.Prelude.{
  ℕ, ◌≡◌, refl, sym, ap, ◌∙◌, subst, Bool, true, false, String, some, List, Result, ok, err, All,
  All-replace, All-middle, All-removed,
}
use star_car.Platform.{Platform}
use star_car.Time.Parse.{Time}
use star_car.Fold.Loaders.{Files}
use star_car.Store.Types.{Schema, Adapter}
use star_car.Store.Scan.{new_adapter}
use star_car.Assemble.Surfaces.{Reencodes}
use star_car.Server.Config.{Config}
use star_car.Server.Snapshot.{Snapshot}
use star_car.Server.Lanes.{Server}
use star_car.Server.Build.{Host, finish_snapshot}
use star_car.Server.Connections.{Connection}
use star_car.Server.Poll.{settle, compare_and_set, start_server, first_snapshot, new_server}
use star_car.Server.Strip.{must_marshal_stripped}
use star_car.Server.Polling.{first_part}
use star_car.Server.Origin.{
  Sources, sources_of, from_nothing, Displays, FromStore, Built, build_snapshot-Built, first-Built,
}
use star_car.Server.Process.{
  Poll, compared_next, ending, poll_after, poll_of_marshalled, Process, begin_poll, tick_process,
  PollMove, scans, compares, marshals_change, serves, has_served, ProcessStep, ticks, polls_on,
  ends_poll, accepts, streams, ProcessRuns, starts, then_steps,
}

module _ ⦃p : Platform⦄ (h : Reencodes) (host : Host) (marshal : Snapshot → Result String) where
  -- The candidate of a poll is to come from a scan too.
  abbrev FromPoll : Sources → Poll → Type 0
  FromPoll src (compared_next now candidate) = Displays src candidate.lanes
  FromPoll src _ = Unit

  -- What holds of a server.
  record IsRooted (src : Sources) (s : Server) : Type 0 where
    same : sources_of s ≡ src
    shown : Displays src s.last_snapshot.lanes
    stored : FromStore src s

  settle-IsRooted :
      (src : Sources) (now : Time) (candidate : Snapshot) (s : Server) (b : Bool)
      → Displays src candidate.lanes
      → IsRooted src s
      → IsRooted src (settle host now candidate s b).1
  unfolding settle
  settle-IsRooted src now candidate s true c k = record {
    same = k.same;
    shown = k.shown;
    stored = k.stored;
  }
  settle-IsRooted src now candidate s false c k = record {
    same = k.same;
    shown = c;
    stored = k.stored;
  }

  poll_after-FromPoll : (src : Sources) (r : Snapshot × Bool) → FromPoll src (poll_after r)
  unfolding poll_after
  poll_after-FromPoll src (snap, true) = tt
  poll_after-FromPoll src (snap, false) = tt

  marshalled-FromPoll : (src : Sources) (m : Result String) → FromPoll src (poll_of_marshalled m)
  unfolding poll_of_marshalled
  marshalled-FromPoll src (ok text) = tt
  marshalled-FromPoll src (err e) = tt

  scans-IsRooted :
      (src : Sources) (s built : Server) (candidate : Snapshot)
      → IsRooted src s
      → Built s (candidate, built)
      → IsRooted src built × Displays src candidate.lanes
  scans-IsRooted src s built candidate k (e, old, lanes, stored) = (
    record {
      same = e ∙ k.same;
      shown = subst (λ (x : Snapshot). Displays src x.lanes) (sym old) k.shown;
      stored = subst (λ x. FromStore x built) k.same stored;
    },
    subst (λ x. Displays x candidate.lanes) k.same lanes,
  )

  PollMove-IsRooted :
      (src : Sources) {s t : Server} {cs ds : List Connection} {poll after : Poll}
      → PollMove host marshal s cs poll t ds after
      → IsRooted src s
      → FromPoll src poll
      → IsRooted src t × FromPoll src after
  unfolding compare_and_set
  PollMove-IsRooted src {s = s} (scans disk board_defs now candidate built e) k f =
      scans-IsRooted src s built candidate k (
        build_snapshot-Built (record host { board_defs = board_defs }) s disk now (candidate, built)
          h (subst (λ x. FromStore x s) (sym k.same) k.stored) e)
  PollMove-IsRooted src {s = s} (compares now candidate) k f =
      (settle-IsRooted src now candidate s _ f k, poll_after-FromPoll src _)
  PollMove-IsRooted src (marshals_change snap) k f = (k, marshalled-FromPoll src (marshal snap))
  PollMove-IsRooted src (serves text xs ys c d e i ran) k f = (k, tt)
  PollMove-IsRooted src (has_served text idle_all) k f = (k, tt)

  -- What holds of the running server.
  record HoldsSources (src : Sources) (q : Process) : Type 0 where
    rooted : IsRooted src q.server
    candidates : All (FromPoll src) q.polls

  begins-HoldsSources :
      (src : Sources) (now : Time) (q : Process) (r : Bool × ℕ)
      → HoldsSources src q
      → HoldsSources src (begin_poll now r q)
  unfolding begin_poll
  begins-HoldsSources src now q (true, flag) k = record {
    rooted = k.rooted;
    candidates = (tt, k.candidates);
  }
  begins-HoldsSources src now q (false, flag) k = record {
    rooted = k.rooted;
    candidates = k.candidates;
  }

  step-HoldsSources :
      (src : Sources) {q r : Process}
      → ProcessStep host marshal q r
      → HoldsSources src q
      → HoldsSources src r
  unfolding tick_process
  step-HoldsSources src {q = q} (ticks now) k = begins-HoldsSources src now q _ k
  step-HoldsSources src {q = q} (polls_on xs ys poll after s cs e mv) k =
      let all = subst (All (FromPoll src)) e k.candidates in
      let (rooted, f) = PollMove-IsRooted src mv k.rooted (All-middle _ xs ys poll all) in
      record { rooted = rooted; candidates = All-replace _ xs ys poll after (λ x. f) all }
  step-HoldsSources src {q = q} (ends_poll xs ys e) k = record {
    rooted = k.rooted;
    candidates = All-removed _ xs ys ending (subst (All (FromPoll src)) e k.candidates);
  }
  step-HoldsSources src accepts k = record { rooted = k.rooted; candidates = k.candidates }
  step-HoldsSources src (streams xs ys c d e mv) k = record {
    rooted = k.rooted;
    candidates = k.candidates;
  }

  module _ (files : Files) (compile : String → String → Result Schema) (cfg : Config) where
    abbrev IsSourced : Server → Type 0
    IsSourced s =
        IsRooted (sources_of s) s
        × (s.cfg ≡ cfg)
        × (new_adapter compile cfg.schema_dir ≡ ok s.adapter)

    starts-IsSourced :
        (s : Server) (r : Result Adapter)
        → new_adapter compile cfg.schema_dir ≡ r
        → new_server host files compile cfg ≡ ok (some s)
        → IsSourced s
    unfolding new_server start_server first_snapshot finish_snapshot
    starts-IsSourced s (err e) k ran =
        let failed : new_server host files compile cfg ≡ err e = rw k refl in
        absurd (cc (failed, ran))
    starts-IsSourced s (ok a) k ran =
        let first = start_server host.tools files cfg a in
        let (same, old, shown, stored) =
          first-Built host first (from_nothing refl refl refl refl) in
        let (snap, built) = finish_snapshot host first (first_part host) in
        let t : Server = record built {
          last_snapshot = snap;
          last_compare = must_marshal_stripped host snap;
        } in
        let made : new_server host files compile cfg ≡ ok (some t) = rw k refl in
        let alike : ok (some t) ≡ ok (some s) = sym made ∙ ran in
        let it : t ≡ s = cc alike in
        subst IsSourced it (record { same = refl; shown = shown; stored = stored }, refl, k)

    new_server-IsSourced :
        (s : Server) → new_server host files compile cfg ≡ ok (some s) → IsSourced s
    new_server-IsSourced s = starts-IsSourced s (new_adapter compile cfg.schema_dir) refl

    runs-HoldsSources :
        {q : Process}
        → ProcessRuns host marshal files compile cfg q
        → (s : Server) × (new_server host files compile cfg ≡ ok (some s))
          × HoldsSources (sources_of s) q
    runs-HoldsSources (starts s e) =
        (s, e, record { rooted = (new_server-IsSourced s e).0; candidates = tt })
    runs-HoldsSources (then_steps r st) =
        let (s, e, k) = runs-HoldsSources r in (s, e, step-HoldsSources (sources_of s) st k)

    -- Suppose a map of decoded values is marshalled and decoded to itself. In every state of the
    -- running server its configuration is the one that it was started with, its adapter is the
    -- compiled one, and the current snapshot has the registry's lanes, of which the live ones show
    -- one of three things: "never-polled" and nothing; what assembly is specified to make of the
    -- fold of one successful scan of that store, with the freshness of that scan's records at its
    -- time; or "failed" with the error of a scan that failed, and with nothing and no last good
    -- time, or all three with what one successful scan gave and the time of that very scan as the
    -- last good one.
    pub ProcessRuns-Displays :
        (q : Process)
        → ProcessRuns host marshal files compile cfg q
        → (q.server.cfg ≡ cfg)
          × (new_adapter compile cfg.schema_dir ≡ ok q.server.adapter)
          × Displays (sources_of q.server) q.server.last_snapshot.lanes
    ProcessRuns-Displays q r =
        let (s, e, k) = runs-HoldsSources r in
        let (first, c, a) = new_server-IsSourced s e in
        (
          ap (λ (x : Sources). x.cfg) k.rooted.same ∙ c,
          a ∙ ap (λ (x : Sources). ok x.adapter) (sym k.rooted.same),
          subst (λ x. Displays x q.server.last_snapshot.lanes) (sym k.rooted.same) k.rooted.shown,
        )
