-- ===== src/Server/Process.antt =====
-- The running server: `RunPollLoop` (poll.go), the goroutines of its polls and the handlers of its
-- clients (handlers.go, sse.go), which take their steps in any order.
pub mod Known
pub mod Handling
pub mod Turns
pub mod Phases
pub mod Invariant
pub mod Starts
pub mod Runs
pub mod Sources
pub mod Delivered
pub mod Measure
pub mod Progress
use star_car.Prelude.{
  ℕ, ◌≡◌, Bool, true, false, String, some, List, [], ◌∷◌, ◌++◌, map, Result, ok, err, All,
}
use star_car.Platform.{Platform}
use star_car.Time.Parse.{Time}
use star_car.Fold.Loaders.{Files}
use star_car.Store.Types.{Schema, Disk}
use star_car.Store.Scan.{scan}
use star_car.Assemble.BoardDefs.{RawVocabularies}
use star_car.Server.Config.{Config}
use star_car.Server.Snapshot.{Snapshot}
use star_car.Server.Lanes.{Server}
use star_car.Server.Build.{Host, build_snapshot}
use star_car.Server.Poll.{input_of, compare_and_set, new_server}
use star_car.Server.Guard.{try_begin_poll, end_poll}
use star_car.Server.Connections.{
  Connection, new_connection, is_idle, StreamMove, give_turn, broadcast_at,
}

module _ ⦃p : Platform⦄ where
  -- How far the goroutine of a poll has come: the scan and the build of the candidate, the
  -- comparison under the mutex, the marshalling of a change, the broadcast under the registry's
  -- mutex, and the deferred `EndPoll`.
  pub data Poll : Type 0 where
    begun : Time → Poll
    compared_next : Time → Snapshot → Poll
    announcing : Snapshot → Poll
    broadcasting : String → Poll
    ending : Poll

  pub record Process : Type 0 where
    pub server : Server
    pub poll_in_flight : ℕ
    pub polls : List Poll
    pub connections : List Connection

  -- What follows `PollOnce`.
  unfoldable pub poll_after : Snapshot × Bool → Poll
  poll_after (snap, true) = announcing snap
  poll_after (snap, false) = ending

  unfoldable pub poll_of_marshalled : Result String → Poll
  poll_of_marshalled (ok text) = broadcasting text
  poll_of_marshalled (err e) = ending

  unfoldable pub turns_of : Result String → List Connection → List Connection
  unfolding give_turn
  turns_of (ok text) cs = map give_turn cs
  turns_of (err e) cs = cs

  unfoldable pub is_free : List Poll → Bool
  is_free [] = true
  is_free (broadcasting text ∷ polls) = false
  is_free (poll ∷ polls) = is_free polls

  unfoldable pub begin_poll : Time → Bool × ℕ → Process → Process
  begin_poll now (true, flag) q = record q { poll_in_flight = flag; polls = begun now ∷ q.polls }
  begin_poll now (false, flag) q = record q { poll_in_flight = flag }

  -- A tick of the loop; one that finds a poll in flight is skipped.
  unfoldable pub tick_process : Time → Process → Process
  unfolding begin_poll try_begin_poll
  tick_process now q = begin_poll now (try_begin_poll q.poll_in_flight) q

  module _ (host : Host) (marshal : Snapshot → Result String) where
    -- One operation of a poll's goroutine: the server, the clients and the goroutine before and
    -- after it. The disk, and the file of the vocabularies on it, are as they are found then.
    pub data PollMove (s : Server) (cs : List Connection)
        : Poll → Server → List Connection → Poll → Type 0 where
      scans :
          (disk : Disk) (board_defs : String → Result (Result RawVocabularies)) (now : Time)
          (candidate : Snapshot) (built : Server)
          → build_snapshot
              (record host { board_defs = board_defs })
              s
              (input_of (scan s.adapter disk s.cfg.store_path now))
              now
            ≡ some (candidate, built)
          → PollMove s cs (begun now) built cs (compared_next now candidate)
      compares :
          (now : Time) (candidate : Snapshot)
          → PollMove s cs
              (compared_next now candidate)
              (compare_and_set host now candidate s).1
              cs
              (poll_after (compare_and_set host now candidate s).0)
      marshals_change :
          (snap : Snapshot)
          → PollMove s cs
              (announcing snap)
              s
              (turns_of (marshal snap) cs)
              (poll_of_marshalled (marshal snap))
      serves :
          (text : String) (xs ys : List Connection) (c d : Connection)
          → cs ≡ xs ++ c ∷ ys
          → is_idle c.turn ≡ false
          → broadcast_at text c.turn c ≡ some d
          → PollMove s cs (broadcasting text) s (xs ++ d ∷ ys) (broadcasting text)
      has_served :
          (text : String)
          → All (λ c. is_idle c.turn ≡ true) cs
          → PollMove s cs (broadcasting text) s cs ending

    pub data ProcessStep (q : Process) : Process → Type 0 where
      ticks : (now : Time) → ProcessStep q (tick_process now q)
      polls_on :
          (xs ys : List Poll) (poll after : Poll) (s : Server) (cs : List Connection)
          → q.polls ≡ xs ++ poll ∷ ys
          → PollMove q.server q.connections poll s cs after
          → ProcessStep q (record q { server = s; connections = cs; polls = xs ++ after ∷ ys })
      ends_poll :
          (xs ys : List Poll)
          → q.polls ≡ xs ++ ending ∷ ys
          → ProcessStep q
              (record q { poll_in_flight = end_poll q.poll_in_flight; polls = xs ++ ys })
      accepts : ProcessStep q (record q { connections = q.connections ++ new_connection ∷ [] })
      streams :
          (xs ys : List Connection) (c d : Connection)
          → q.connections ≡ xs ++ c ∷ ys
          → StreamMove (marshal q.server.last_snapshot) (is_free q.polls) c d
          → ProcessStep q (record q { connections = xs ++ d ∷ ys })

    -- What can be reached from `NewServer`'s server.
    pub data ProcessRuns (files : Files) (compile : String → String → Result Schema) (cfg : Config)
        : Process → Type 0 where
      starts :
          (s : Server)
          → new_server host files compile cfg ≡ ok (some s)
          → ProcessRuns files compile cfg
              (record { server = s; poll_in_flight = 0; polls = []; connections = [] })
      then_steps :
          {q r : Process}
          → ProcessRuns files compile cfg q
          → ProcessStep q r
          → ProcessRuns files compile cfg r
