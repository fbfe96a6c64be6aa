-- ===== src/Server/Process/Invariant.antt =====
-- About the running server: what holds in every state of it.
use mathlib.Core.Option.{some-injective}
use star_car.Prelude.{
  ◌≡◌, refl, sym, ◌∙◌, subst, Bool, true, false, String, some, List, Result, ok, err, All, All-imp,
  All-map, All-both, All-replace,
}
use star_car.Platform.{Platform}
use star_car.Time.Parse.{Time}
use star_car.Assemble.BoardDefs.{RawVocabularies}
use star_car.Server.Strip.{must_marshal_stripped}
use star_car.Server.Snapshot.{Snapshot}
use star_car.Server.Lanes.{Server, PollInput}
use star_car.Server.Build.{Host, build_snapshot, finish_snapshot}
use star_car.Server.Poll.{compare_and_set, settle}
use star_car.Server.Completeness.{build_snapshot-total}
use star_car.Server.Polling.{IsCurrent, finish-IsCurrent, compare_and_set-IsPolled}
use star_car.Server.Connections.{Connection, is_idle, give_turn, broadcast_at}
use star_car.Server.Process.{
  Poll, begun, compared_next, announcing, broadcasting, poll_after, poll_of_marshalled, turns_of,
  PollMove, scans, compares, marshals_change, serves, has_served,
}
use star_car.Server.Process.Known.{Fits}
use star_car.Server.Process.Turns.{served}
use star_car.Server.Process.Phases.{announced-Fits, unmarshalled-Fits, served-Fits, give_turn-Fits}

module _ ⦃p : Platform⦄ (host : Host) (marshal : Snapshot → Result String) where
  -- A change has been made current, and its broadcast has not begun; one has.
  abbrev pub is_announced : Poll → Bool
  is_announced (announcing snap) = true
  is_announced _ = false

  abbrev pub is_busy : Poll → Bool
  is_busy (broadcasting text) = true
  is_busy _ = false

  -- What a poll is about to broadcast is the current snapshot.
  abbrev pub Tells : Snapshot → Poll → Type 0
  Tells current (announcing snap) = snap ≡ current
  Tells current (broadcasting text) = marshal current ≡ ok text
  Tells current _ = Unit

  abbrev pub AllFit : Snapshot → Bool → Bool → List Connection → Type 0
  AllFit current announced busy = All (Fits (marshal current) announced busy)

  -- What holds beside a poll.
  pub record IsKept (s : Server) (cs : List Connection) (poll : Poll) : Type 0 where
    pub current : IsCurrent host s
    pub tells : Tells s.last_snapshot poll
    pub clients : AllFit s.last_snapshot (is_announced poll) (is_busy poll) cs

  -- The vocabularies' file has no part in what is current.
  IsCurrent-around :
      (board_defs other : String → Result (Result RawVocabularies)) (s : Server)
      → IsCurrent (record host { board_defs = board_defs }) s
      → IsCurrent (record host { board_defs = other }) s
  unfolding must_marshal_stripped
  IsCurrent-around board_defs other s h = record { basis = h.basis; number = h.number }

  scans-IsKept :
      (board_defs : String → Result (Result RawVocabularies)) (s built : Server)
      (cs : List Connection) (now : Time) (candidate : Snapshot) (input : PollInput)
      → build_snapshot (record host { board_defs = board_defs }) s input now
        ≡ some (candidate, built)
      → IsKept s cs (begun now)
      → IsKept built cs (compared_next now candidate)
  unfolding finish_snapshot
  scans-IsKept board_defs s built cs now candidate input e h =
      let around = record host { board_defs = board_defs } in
      let (live, found, ran) = build_snapshot-total around s input now in
      let same : finish_snapshot around s live ≡ (candidate, built) =
        some-injective _ _ (sym ran ∙ e) in
      subst (λ (x : Snapshot × Server). IsKept x.1 cs (compared_next now candidate)) same
        (record {
          current = IsCurrent-around board_defs host.board_defs _ (
              finish-IsCurrent around s live
                (IsCurrent-around host.board_defs board_defs s h.current));
          tells = tt;
          clients = h.clients;
        })

  settles-IsKept :
      (now : Time) (s : Server) (cs : List Connection) (candidate : Snapshot) (b : Bool)
      → IsCurrent host (settle host now candidate s b).1
      → AllFit s.last_snapshot false false cs
      → IsKept (settle host now candidate s b).1 cs (poll_after (settle host now candidate s b).0)
  unfolding settle poll_after
  settles-IsKept now s cs candidate true c h = record { current = c; tells = tt; clients = h }
  settles-IsKept now s cs candidate false c h = record {
    current = c;
    tells = refl;
    clients = All-imp (λ c f. announced-Fits _ _ c f) cs h;
  }

  compares-IsKept :
      (s : Server) (cs : List Connection) (now : Time) (candidate : Snapshot)
      → IsKept s cs (compared_next now candidate)
      → IsKept
          (compare_and_set host now candidate s).1
          cs
          (poll_after (compare_and_set host now candidate s).0)
  unfolding compare_and_set
  compares-IsKept s cs now candidate h =
      settles-IsKept now s cs candidate _
        (compare_and_set-IsPolled host now candidate s h.current).current h.clients

  marshals-IsKept :
      (s : Server) (cs : List Connection) (m : Result String)
      → marshal s.last_snapshot ≡ m
      → IsCurrent host s
      → AllFit s.last_snapshot true false cs
      → IsKept s (turns_of m cs) (poll_of_marshalled m)
  unfolding turns_of poll_of_marshalled
  marshals-IsKept s cs (ok text) e c h = record {
    current = c;
    tells = e;
    clients = All-map _ _ give_turn (give_turn-Fits (marshal s.last_snapshot)) cs h;
  }
  marshals-IsKept s cs (err x) e c h = record {
    current = c;
    tells = tt;
    clients = All-imp (λ c f. unmarshalled-Fits _ x c e f) cs h;
  }

  -- One operation of the broadcast at a client that fits.
  serves-Fits :
      (current : Snapshot) (text : String) (c d : Connection)
      → marshal current ≡ ok text
      → is_idle c.turn ≡ false
      → broadcast_at text c.turn c ≡ some d
      → Fits (marshal current) false true c
      → Fits (marshal current) false true d
  serves-Fits current text c d m i ran h =
      let (e, found, fits, less) = served text c m h (h.due i) i in
      subst (Fits (marshal current) false true) (some-injective e d (sym found ∙ ran)) fits

  pub PollMove-IsKept :
      {s t : Server} {cs ds : List Connection} {poll after : Poll}
      → PollMove host marshal s cs poll t ds after
      → IsKept s cs poll
      → IsKept t ds after
  PollMove-IsKept {s = s} {cs = cs} (scans disk board_defs now candidate built e) h =
      scans-IsKept board_defs s built cs now candidate _ e h
  PollMove-IsKept {s = s} {cs = cs} (compares now candidate) h =
      compares-IsKept s cs now candidate h
  PollMove-IsKept {s = s} {cs = cs} (marshals_change snap) h =
      subst (λ x. IsKept s (turns_of (marshal x) cs) (poll_of_marshalled (marshal x))) (sym h.tells)
        (marshals-IsKept s cs (marshal s.last_snapshot) refl h.current h.clients)
  PollMove-IsKept {s = s} (serves text xs ys c d e i ran) h = record {
    current = h.current;
    tells = h.tells;
    clients =
        All-replace _ xs ys c d (serves-Fits s.last_snapshot text c d h.tells i ran)
          (subst (AllFit s.last_snapshot false true) e h.clients);
  }
  PollMove-IsKept {cs = cs} (has_served text idle_all) h = record {
    current = h.current;
    tells = tt;
    clients = All-both _ _ _ (served-Fits _) cs h.clients idle_all;
  }
