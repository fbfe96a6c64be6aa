-- ===== src/Tests/ProcessCases.antt =====
-- The running server's theorems at a concrete run: a client connects, is greeted, and a poll
-- whose scan fails is broadcast to it.
use star_car.Prelude.{
  ◌⊎◌, subst, ◌≡◌, ◌≤◌, refl, true, false, String, none, some, [], ◌∷◌, ok, err, Result, join,
  sprint, length,
}
use star_car.Fold.Loaders.{Files}
use star_car.Store.Types.{Schema, Disk}
use star_car.Store.Scan.{new_adapter, scan}
use star_car.Server.Config.{default_config}
use star_car.Server.Snapshot.{Snapshot}
use star_car.Server.Lanes.{Server}
use star_car.Server.Build.{finish_snapshot, build_snapshot, live_part}
use star_car.Server.Poll.{start_server, first_snapshot, new_server, compare_and_set, input_of}
use star_car.Server.Strip.{must_marshal_stripped}
use star_car.Server.Polling.{IsCurrent, first_part}
use star_car.Server.Retained.{failed_part}
use star_car.Server.Clients.{new_client}
use star_car.Server.Connections.{
  Connection, new_connection, frame, registered, greeting, waiting, sending, stage_of_initial,
  registers, marshals, greets, broadcast_at,
}
use star_car.Server.Process.{
  Poll, begun, compared_next, announcing, broadcasting, ending, poll_after, poll_of_marshalled,
  turns_of, is_free, tick_process, Process, ticks, polls_on, accepts, streams, scans, ProcessStep,
  compares, marshals_change, ProcessRuns, starts, then_steps,
}
use star_car.Server.Process.Known.{last_frame, IsLast}
use star_car.Server.Process.Starts.{IsStarted, new_server-IsStarted}
use star_car.Server.Process.Delivered.{
  ProcessRuns-last_frame, ProcessRuns-IsLast, ProcessRuns-IsCurrent, ProcessRuns-broadcast_at,
}
use star_car.Server.Process.Progress.{ProcessRuns-Moves, Moves, Continues}
use star_car.Tests.Board.{now, host, adapter, disk}
use star_car.Tests.Sample.{sample_platform}

abbrev files : Files
files = record {
  read_values = λ path. err "no such file";
  read_budget = λ path. err "no such file";
}

abbrev compile : String → String → Result Schema
compile dir name = ok (λ fields. none)

abbrev marshal : Snapshot → Result String
marshal snap = ok (host.marshal snap)

abbrev blank : Server
blank = start_server host.tools files default_config adapter

abbrev first : Snapshot × Server
first = finish_snapshot host blank (first_part host)

abbrev started : Server
started = record (first.1) {
  last_snapshot = first.0;
  last_compare = must_marshal_stripped host first.0;
}

start : new_server host files compile default_config ≡ ok (some started)
unfolding new_server new_adapter first_snapshot
start = refl

abbrev Runs : Process → Type 0
Runs = ProcessRuns host marshal files compile default_config

abbrev quiet : Process
quiet = record { server = started; poll_in_flight = 0; polls = []; connections = [] }

abbrev with_client : Connection → Process
with_client c = record quiet { connections = c ∷ [] }

abbrev joined : Connection
joined = record new_connection { stage = registered; channel = new_client }

abbrev greeted : Connection
greeted = record joined { stage = greeting (host.marshal first.0) }

abbrev served_client : Connection
served_client = record joined { stage = waiting; written = frame (host.marshal first.0) ∷ [] }

greeting_ready : Runs (with_client greeted)
unfolding is_free stage_of_initial
greeting_ready =
    then_steps
      (then_steps (then_steps (starts started start) accepts)
        (streams [] [] new_connection joined refl (registers new_connection refl refl)))
      (streams [] [] joined greeted refl (marshals joined refl))

greeting_sent : Runs (with_client served_client)
unfolding is_free
greeting_sent =
    then_steps greeting_ready
      (streams [] [] greeted served_client refl (greets greeted (host.marshal first.0) refl))

ProcessRuns-last_frame_example : last_frame served_client.written ≡ some (host.marshal first.0)
ProcessRuns-last_frame_example =
    ProcessRuns-last_frame host marshal files compile default_config (with_client served_client) []
      [] served_client (host.marshal first.0) greeting_sent refl tt refl refl refl refl refl

ProcessRuns-IsLast_example : IsLast (host.marshal first.0) (greeting (host.marshal first.0)) none []
ProcessRuns-IsLast_example =
    ProcessRuns-IsLast host marshal files compile default_config (with_client greeted) [] [] greeted
      (host.marshal first.0) greeting_ready refl tt refl refl refl

abbrev missing : String
missing = "store:  is missing or unreadable: gone"

abbrev gone : Disk
gone = record disk { stat = λ path. err "gone" }

abbrev built : Snapshot × Server
built = finish_snapshot host started (failed_part started missing)

scanned :
    build_snapshot host started
      (input_of (scan started.adapter gone started.cfg.store_path now))
      now
    ≡ some built
unfolding build_snapshot live_part input_of scan sprint start_server
scanned = refl

abbrev with_poll : Server → Connection → Poll → Process
with_poll s c poll = record {
  server = s;
  poll_in_flight = 1;
  polls = poll ∷ [];
  connections = c ∷ [];
}

abbrev settled : Server
settled = (compare_and_set host now built.0 built.1).1

abbrev due : Connection
due = record served_client { turn = sending }

announced :
    poll_after (compare_and_set host now built.0 built.1).0 ≡ announcing settled.last_snapshot
unfolding compare_and_set must_marshal_stripped join poll_after finish_snapshot
announced = refl

polling : Runs (with_poll started served_client (begun now))
unfolding tick_process
polling = then_steps greeting_sent (ticks now)

comparing : Runs (with_poll built.1 served_client (compared_next now built.0))
comparing = then_steps polling (
    polls_on [] [] (begun now) (compared_next now built.0) built.1 (served_client ∷ []) refl
      (scans gone host.board_defs now built.0 built.1 scanned))

announcing_it : Runs (with_poll settled served_client (announcing settled.last_snapshot))
announcing_it =
    subst (λ poll. Runs (with_poll settled served_client poll)) announced
      (then_steps comparing (
        polls_on [] [] (compared_next now built.0) _ settled (served_client ∷ []) refl
          (compares now built.0)))

abbrev news : String
news = host.marshal settled.last_snapshot

broadcast_begun : Runs (with_poll settled due (broadcasting news))
unfolding turns_of poll_of_marshalled
broadcast_begun = then_steps announcing_it (
    polls_on [] [] (announcing settled.last_snapshot) (broadcasting news) settled (due ∷ []) refl
      (marshals_change settled.last_snapshot))

ProcessRuns-IsCurrent_example :
    let q = with_poll settled due (broadcasting news) in
    (length q.polls ≤ 1) × (q.poll_in_flight ≡ length q.polls) × IsCurrent host q.server
ProcessRuns-IsCurrent_example =
    ProcessRuns-IsCurrent host marshal files compile default_config
      (with_poll settled due (broadcasting news)) broadcast_begun

ProcessRuns-broadcast_at_example :
    (due.channel.listed ≡ true)
    × (due.channel.closed ≡ false)
    × (marshal settled.last_snapshot ≡ ok news)
    × ((d : Connection) × (broadcast_at news due.turn due ≡ some d))
ProcessRuns-broadcast_at_example =
    ProcessRuns-broadcast_at host marshal files compile default_config
      (with_poll settled due (broadcasting news)) [] [] news [] [] due broadcast_begun refl refl
      refl

ProcessRuns-Moves_example :
    let q = with_poll settled due (broadcasting news) in
    let poll : Poll = broadcasting news in
    ((poll ≡ ending) ⊎ Moves host marshal q poll)
    × ((r : Process) → ProcessStep host marshal q r → Continues host marshal q poll r)
ProcessRuns-Moves_example =
    ProcessRuns-Moves host marshal files compile default_config
      (with_poll settled due (broadcasting news)) [] [] (broadcasting news) disk broadcast_begun
      refl

new_server-IsStarted_example : IsStarted host files compile default_config (ok adapter)
unfolding new_adapter
new_server-IsStarted_example = new_server-IsStarted host files compile default_config
