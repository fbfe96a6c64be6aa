-- ===== src/Server/Connections.antt =====
-- handlers.go: `handleStream` for one client, as moves between its stages. What the client's
-- channel receives comes from `broadcast`, whose turn at the client is a field of the connection.
use star_car.Prelude.{
  ◌≡◌, Bool, true, false, String, Option, none, some, List, [], ◌∷◌, Result, ok, err, if◌then◌else◌,
}
use star_car.Server.Clients.{Client, new_client, Sent, sent, full, panicked, try_send, try_receive}

-- What has been written to the response, headers aside.
pub data StreamEvent : Type 0 where
  frame : String → StreamEvent
  heartbeat : StreamEvent

-- How far the handler has come. `greeting` holds the first frame's payload, until it is written;
-- `delivering` one that was taken from the channel.
pub data Stage : Type 0 where
  connecting registered waiting leaving unlisted gone : Stage
  greeting delivering : String → Stage

-- Where `broadcast` stands with a client: it has no turn, or its first send, the drain of the stale
-- frame, or its last send comes next.
pub data Turn : Type 0 where
  idle sending draining replacing : Turn

pub record Connection : Type 0 where
  pub stage : Stage
  pub channel : Client
  pub turn : Turn
  -- what was written, the newest first
  pub written : List StreamEvent
  -- whether a write has failed
  pub failed : Bool

-- A request that has arrived; the channel does not exist yet.
abbrev pub new_connection : Connection
new_connection = record {
  stage = connecting;
  channel = record { listed = false; closed = false; buffer = none };
  turn = idle;
  written = [];
  failed = false;
}

abbrev pub is_idle : Turn → Bool
is_idle idle = true
is_idle _ = false

-- The stages between `register` and `unregister`, in which the handler serves the client.
abbrev pub is_active : Stage → Bool
is_active registered = true
is_active waiting = true
is_active (greeting text) = true
is_active (delivering text) = true
is_active _ = false

abbrev pub is_unlisted : Stage → Bool
is_unlisted unlisted = true
is_unlisted _ = false

-- The stage after the marshalling of the first snapshot; an error skips the first frame.
unfoldable pub stage_of_initial : Result String → Stage
stage_of_initial (ok text) = greeting text
stage_of_initial (err e) = waiting

-- One operation of `handleStream`. `current` is the snapshot as `marshalSnapshot` gives it at that
-- moment, and `free` says whether the registry's mutex is free.
pub data StreamMove (current : Result String) (free : Bool) : Connection → Connection → Type 0 where
  -- The response is no `http.Flusher`.
  refused :
      (c : Connection)
      → c.stage ≡ connecting
      → StreamMove current free c (record c { stage = gone })
  registers :
      (c : Connection)
      → c.stage ≡ connecting
      → free ≡ true
      → StreamMove current free c (record c { stage = registered; channel = new_client })
  marshals :
      (c : Connection)
      → c.stage ≡ registered
      → StreamMove current free c (record c { stage = stage_of_initial current })
  greets :
      (c : Connection) (text : String)
      → c.stage ≡ greeting text
      → StreamMove current free c (record c { stage = waiting; written = frame text ∷ c.written })
  -- The error of the first write is not looked at.
  greets_in_vain :
      (c : Connection) (text : String)
      → c.stage ≡ greeting text
      → StreamMove current free c (record c { stage = waiting; failed = true })
  takes :
      (c : Connection) (text : String)
      → c.stage ≡ waiting
      → c.channel.buffer ≡ some text
      → StreamMove current free c
          (record c { stage = delivering text; channel = (try_receive c.channel).1 })
  finds_closed :
      (c : Connection)
      → c.stage ≡ waiting
      → c.channel.closed ≡ true
      → c.channel.buffer ≡ none
      → StreamMove current free c (record c { stage = leaving })
  delivers :
      (c : Connection) (text : String)
      → c.stage ≡ delivering text
      → StreamMove current free c (record c { stage = waiting; written = frame text ∷ c.written })
  delivers_in_vain :
      (c : Connection) (text : String)
      → c.stage ≡ delivering text
      → StreamMove current free c (record c { stage = leaving; failed = true })
  beats :
      (c : Connection)
      → c.stage ≡ waiting
      → StreamMove current free c (record c { written = heartbeat ∷ c.written })
  beats_in_vain :
      (c : Connection)
      → c.stage ≡ waiting
      → StreamMove current free c (record c { stage = leaving; failed = true })
  -- The request's context is done.
  disconnects :
      (c : Connection)
      → c.stage ≡ waiting
      → StreamMove current free c (record c { stage = leaving })
  -- The deferred `unregister`: out of the map under the mutex, then the channel is closed.
  unlists :
      (c : Connection)
      → c.stage ≡ leaving
      → free ≡ true
      → StreamMove current free c
          (record c { stage = unlisted; channel = record (c.channel) { listed = false } })
  closes :
      (c : Connection)
      → c.stage ≡ unlisted
      → StreamMove current free c
          (record c { stage = gone; channel = record (c.channel) { closed = true } })

-- `broadcast` begins: every client that is listed has its turn, in any order.
unfoldable pub give_turn : Connection → Connection
give_turn c = record c { turn = if c.channel.listed then sending else c.turn }

unfoldable pub after_send : Turn → Connection → Sent → Option Connection
after_send next c (sent d) = some (record c { channel = d; turn = idle })
after_send next c full = some (record c { turn = next })
after_send next c panicked = none

-- One operation of `broadcast` on a client's channel; `none` is a panic. A place that is still
-- taken at the last send leaves the frame unsent.
unfoldable pub broadcast_at : String → Turn → Connection → Option Connection
unfolding after_send try_send try_receive
broadcast_at text idle c = some c
broadcast_at text sending c = after_send draining c (try_send text c.channel)
broadcast_at text draining c =
    some (record c { channel = (try_receive c.channel).1; turn = replacing })
broadcast_at text replacing c = after_send idle c (try_send text c.channel)
