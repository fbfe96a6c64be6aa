-- ===== src/Server/Frames.antt =====
-- sse.go: the text of the frames; snapshot.go: the name of the event.
pub mod Reader
pub mod RoundTrip
use star_car.Prelude.{◌≡◌, refl, String, [], ◌∷◌, sprint}

abbrev sse_event_name : String
sse_event_name = "yard"

-- What `writeSSEFrame` writes.
unfoldable pub sse_frame : String → String
sse_frame payload = sprint ("event: " ∷ sse_event_name ∷ "\ndata: " ∷ payload ∷ "\n\n" ∷ [])

-- What `writeSSEHeartbeat` writes.
unfoldable pub sse_heartbeat : String
sse_heartbeat = ": heartbeat\n\n"

frame_test : sse_frame "{}" ≡ "event: yard\ndata: {}\n\n"
unfolding sse_frame sprint
frame_test = refl
