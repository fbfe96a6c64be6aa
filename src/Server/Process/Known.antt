-- ===== src/Server/Process/Known.antt =====
-- About one client of the running server (handlers.go, sse.go): what is true of it, and how the
-- last text that it knows moves on with its handler.
use star_car.Prelude.{
  ◌≡◌, refl, ap, Bool, true, false, String, Option, none, some, List, [], ◌∷◌, Result, ok,
}
use star_car.Server.Connections.{
  StreamEvent, frame, heartbeat, Stage, registered, waiting, greeting, delivering, replacing,
  Connection, new_connection, is_idle, is_active, is_unlisted,
}

-- The last payload that was written.
abbrev pub last_frame : List StreamEvent → Option String
last_frame [] = none
last_frame (frame text ∷ events) = some text
last_frame (heartbeat ∷ events) = last_frame events

-- The text is the last of what the client has been sent, is about to be sent, and finds in its
-- channel; a client that has not read a first snapshot has nothing else in its channel.
abbrev pub IsLast : String → Stage → Option String → List StreamEvent → Type 0
IsLast text registered (some old) written = old ≡ text
IsLast text waiting (some old) written = old ≡ text
IsLast text waiting none written = last_frame written ≡ some text
IsLast text (greeting first) (some old) written = old ≡ text
IsLast text (greeting first) none written = first ≡ text
IsLast text (delivering next) (some old) written = old ≡ text
IsLast text (delivering next) none written = next ≡ text
IsLast text _ _ written = Unit

-- What is true of a client. `current` is the server's snapshot, marshalled; `announced` says that a
-- poll is about to broadcast it, and `busy` that a broadcast is under way.
pub record Fits (current : Result String) (announced busy : Bool) (c : Connection) : Type 0 where
  pub listed : is_active c.stage ≡ true → c.channel.listed ≡ true
  pub taken_out : is_unlisted c.stage ≡ true → c.channel.listed ≡ false
  pub open_channel : c.channel.listed ≡ true → c.channel.closed ≡ false
  pub due : is_idle c.turn ≡ false → c.channel.listed ≡ true
  pub quiet : busy ≡ false → is_idle c.turn ≡ true
  pub drained : c.turn ≡ replacing → c.channel.buffer ≡ none
  pub newest :
      (text : String)
      → current ≡ ok text
      → announced ≡ false
      → is_idle c.turn ≡ true
      → c.failed ≡ false
      → IsLast text c.stage c.channel.buffer c.written

pub new_connection-Fits :
    (current : Result String) (announced busy : Bool) → Fits current announced busy new_connection
new_connection-Fits current announced busy = record {
  listed = λ h. cc h;
  taken_out = λ h. refl;
  open_channel = λ h. refl;
  due = λ h. cc h;
  quiet = λ h. refl;
  drained = λ h. refl;
  newest = λ text e a i f. tt;
}

-- How the last text moves on with the handler, for any content of the channel.
pub IsLast-marshals :
    (text first : String) (b : Option String) (w : List StreamEvent)
    → first ≡ text
    → IsLast text registered b w
    → IsLast text (greeting first) b w
IsLast-marshals text first none w e h = e
IsLast-marshals text first (some old) w e h = h

pub IsLast-greets :
    (text first : String) (b : Option String) (w : List StreamEvent)
    → IsLast text (greeting first) b w
    → IsLast text waiting b (frame first ∷ w)
IsLast-greets text first none w h = ap some h
IsLast-greets text first (some old) w h = h

pub IsLast-delivers :
    (text next : String) (b : Option String) (w : List StreamEvent)
    → IsLast text (delivering next) b w
    → IsLast text waiting b (frame next ∷ w)
IsLast-delivers text next none w h = ap some h
IsLast-delivers text next (some old) w h = h

pub IsLast-beats :
    (text : String) (b : Option String) (w : List StreamEvent)
    → IsLast text waiting b w
    → IsLast text waiting b (heartbeat ∷ w)
IsLast-beats text none w h = h
IsLast-beats text (some old) w h = h
