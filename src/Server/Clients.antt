-- ===== src/Server/Clients.antt =====
-- sse.go: a client of the registry with its channel, and the operations on it.
use star_car.Prelude.{
  Bool, true, false, String, Option, none, some, List, option_list, if◌then◌else◌,
}

-- A client's channel, of one place. It is `listed` while it is in the registry's map.
pub record Client : Type 0 where
  pub listed : Bool
  pub closed : Bool
  pub buffer : Option String

-- `register`
abbrev pub new_client : Client
new_client = record { listed = true; closed = false; buffer = none }

-- What a send that does not block comes to.
pub data Sent : Type 0 where
  sent : Client → Sent
  full : Sent
  panicked : Sent

unfoldable pub send_into : String → Option String → Client → Sent
send_into frame none c = sent (record c { buffer = some frame })
send_into frame (some old) c = full

-- `case ch <- data`; a send on a closed channel panics.
unfoldable pub try_send : String → Client → Sent
unfolding send_into
try_send frame c = if c.closed then panicked else send_into frame c.buffer c

-- A receive that does not block: what it takes, and the channel after it.
unfoldable pub try_receive : Client → List String × Client
try_receive c = (option_list c.buffer, record c { buffer = none })
