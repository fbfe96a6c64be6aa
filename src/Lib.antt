-- ===== src/Lib.antt =====
-- The yard board's Go server, board/.
--
-- The board is the one reader of an artifact store, a directory of JSON records. The parts:
--  - board/store scans the directory: every file becomes a record or is quarantined with a
--    reason, and board conditions disclose what the scan met.
--  - board/fold folds the records into one dispatch entry and one intent entry for each subject.
--  - board/assemble joins the fold's entries and the raw manifests to the wire's trains, gates and
--    dispatches, and loads the presentational vocabularies.
--  - board/server polls: it scans, folds, assembles, builds a snapshot of all lanes, and compares
--    it with the one that stands. A changed snapshot is broadcast to the connected clients.
--  - board/re2.go checks that the patterns of the schemas are ones that Go's regexp compiles.
--
-- Which file models which part:
--  - Json: decoded JSON, and the type assertions on it. An object is a list of its fields; the
--    first field of a name is the one that a lookup gives.
--  - Platform: float64 and the texts of formatting verbs and of errors of the Go library, which
--    are parameters.
--  - Time/Parse and Time/Format: `time.Parse` and `Format` with time.RFC3339. An instant is a
--    number of nanoseconds, counted from two days before the year 0, which no instant that can be
--    parsed lies before.
--  - Paths: `filepath.Ext`.
--  - Fold/Record, Fold/Entry: board/fold/fold.go and output.go. Fold/Winner and Fold/Groups:
--    the parts of board/fold/algorithm.go, with `foldDispatchSubject` as fold_dispatch_subject and
--    `foldIntentSubject` as fold_intent_subject. Fold/Algorithm: `Fold` as fold. `none` stands for
--    a panic.
--  - Store/Types, Store/Decode, Store/Reading, Store/Scan: board/store/store.go, with `readOne` as
--    read_one and `Scan` as scan. The file system is a record of functions, Disk; the two compiled
--    schemas are functions that give an error's text or accept.
--  - Fold/Loaders: board/fold/loaders.go.
--  - Assemble/Types, Assemble/Wire, Assemble/Manifest, Assemble/Joining, Assemble/Build:
--    board/assemble/types.go and assemble.go, with `DispatchEntry.MarshalJSON` as entry_fields and
--    `Assemble` as assemble. Assemble/Expected says without state what assembly should give.
--    Assemble/BoardDefs: board/assemble/boarddefs.go.
--  - Server/Config, Server/Display: board/server/config.go, storepath.go, reporoot.go, and of
--    main.go the paths that it fills in.
--  - Server/Snapshot, Server/Freshness, Server/Lanes, Server/Build, Server/Strip, Server/Poll:
--    board/server/snapshot.go, laneregistry.go and poll.go, with `buildSnapshot` as
--    build_snapshot and `PollOnce` as poll_once. Server is the record of the fields that these
--    read and write, and each function gives the server after it.
--  - Server/Guard: `TryBeginPoll`, `EndPoll` and the ticks of `RunPollLoop` as steps of a relation.
--  - Server/Process: the running server, that is `RunPollLoop`, the goroutines of its polls and the
--    handlers of its clients, as one relation of steps in any order. A poll's goroutine scans and
--    builds, compares under the mutex, marshals, and broadcasts, each as steps of its own; while it
--    broadcasts it holds the mutex of the registry, and each operation on a channel is a step, so
--    that a client may receive at any point of it, also what has just been sent. The disk and the
--    file of the vocabularies are as each poll finds them.
--  - Server/Connections: `handleStream` of board/server/handlers.go as moves between its stages, and
--    the operations of `broadcast` on one client's channel.
--  - Server/Stream: the same order of `handleStream` beside the polls for one client, with snapshots
--    that are their numbers.
--  - Server/Http: the routes and the other responses of board/server/handlers.go.
--  - Server/Frames: the text of the frames of board/server/sse.go. Server/Frames/Reader is a reader
--    of event streams, which the repository leaves to the browser.
--  - Server/Run: `run` and `main` of board/server/main.go, with net/http's `Serve` and `Shutdown` as
--    steps that their documentation allows: `Serve` returns as soon as `Shutdown` is called, and
--    `Shutdown` returns nil only once no request is in flight.
--  - Re2: board/re2.go.
--  - Server/Clients: the channels of the clients of board/server/sse.go, with sends and receives
--    that do not block.
--
-- The other modules hold proofs, and Tests the runs. There is no fuel: every loop of the code that
-- is modelled runs over a list, or is a relation of steps. The number of a snapshot is an int of 64
-- bits, kept modulo 2 ^ 64; durations saturate at the ends of int64.
--
-- Not modelled: log lines and the exit status, the file server of the static files, the hook that
-- tests set in `handleStream`, the probes under scripts/, which print facts about Go's libraries,
-- and the web client. encoding/json, path/filepath, os and the jsonschema package are parameters,
-- with what is relied on as named hypotheses of the theorems that need it. For change detection the
-- encoding of a snapshot is taken to succeed, as the code expects of it; for the clients it may
-- fail, as the code provides for.
pub mod Prelude
pub mod Json
pub mod Platform
pub mod Time
pub mod Fold
pub mod Tests
pub mod Paths
pub mod Store
pub mod Assemble
pub mod Server
pub mod Re2
