-- ===== src/Server/Http.antt =====
-- handlers.go: the routes, and what each handler writes; sse.go and snapshot.go give the frames.
use star_car.Prelude.{
  ℕ, ◌≡◌, refl, Bool, true, false, String, List, [], ◌∷◌, ◌==◌, Result, ok, err, if◌then◌else◌,
}
use Prim.Native.String

-- The handler that `http.ServeMux` picks for a clean path: the pattern "/" takes all others.
pub data Route : Type 0 where
  snapshot_route stream_route wire_schema_route static_route : Route

-- `registerHandlers`
unfoldable pub route : String → Route
route path =
    if path == "/api/snapshot"
    then snapshot_route
    else if path == "/api/stream"
    then stream_route
    else if path == "/schema/yard-snapshot.schema.json"
    then wire_schema_route
    else static_route

pub record Response : Type 0 where
  pub status : ℕ
  pub headers : List (String × String)
  pub body : String

-- `http.Error` with a status of 500.
unfoldable pub internal_error : String → Response
internal_error message = record {
  status = 500;
  headers =
      ("Content-Type", "text/plain; charset=utf-8") ∷ ("X-Content-Type-Options", "nosniff") ∷ [];
  body = String.◌++◌ message "\n";
}

-- `handleSnapshot`, from what `marshalSnapshot` gives of the current snapshot.
unfoldable pub handle_snapshot : Result String → Response
unfolding internal_error
handle_snapshot (ok bytes) = record {
  status = 200;
  headers = ("Content-Type", "application/json") ∷ [];
  body = bytes;
}
handle_snapshot (err e) = internal_error "could not marshal the snapshot"

-- What `handleStream` sends before its first frame, for a response that is a flusher or not.
unfoldable pub stream_head : Bool → Response
unfolding internal_error
stream_head true = record {
  status = 200;
  headers =
      ("Content-Type", "text/event-stream")
      ∷ ("Cache-Control", "no-cache")
      ∷ ("Connection", "keep-alive")
      ∷ [];
  body = "";
}
stream_head false = internal_error "streaming unsupported"

-- The file that `handleWireSchema` serves; `join_path` is `filepath.Join` of two parts.
unfoldable pub wire_schema_path : (String → String → String) → String → String
wire_schema_path join_path schema_dir = join_path schema_dir "yard-snapshot.schema.json"

route_test : route "/api/snapshot/" ≡ static_route
unfolding route
route_test = refl
