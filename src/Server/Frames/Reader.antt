-- ===== src/Server/Frames/Reader.antt =====
-- A reader of event streams, after the format that a browser's EventSource reads, and what it
-- makes of the text that handlers.go and sse.go write.
use Prim.Native.Char.{Char, code}
use Prim.Native.String
use star_car.Prelude.{
  ◌≡◌, refl, Bool, true, false, ◌||◌, String, Option, none, some, List, [], ◌∷◌, ◌++◌, eqb,
  if◌then◌else◌,
}
use star_car.Paths.{has_prefix, trim_prefix}
use star_car.Server.Frames.{sse_frame, sse_heartbeat}
use star_car.Server.Connections.{StreamEvent, frame, heartbeat}

-- The text of what a handler has written, the newest last.
unfoldable pub written_text : List StreamEvent → String
unfolding sse_frame sse_heartbeat
written_text [] = ""
written_text (frame payload ∷ events) = String.◌++◌ (sse_frame payload) (written_text events)
written_text (heartbeat ∷ events) = String.◌++◌ sse_heartbeat (written_text events)

-- The events that a reader should find: the frames, under the name "yard".
abbrev pub events_of : List StreamEvent → List (String × String)
events_of [] = []
events_of (frame payload ∷ events) = ("yard", payload) ∷ events_of events
events_of (heartbeat ∷ events) = events_of events

abbrev pub is_line_end : Char → Bool
is_line_end c = eqb (code c) 10 || eqb (code c) 13

unfoldable pub is_one_line : String → Bool
is_one_line String.[] = true
is_one_line (String.◌∷◌ c s) = let rest = is_one_line s in if is_line_end c then false else rest

unfoldable pub cons_line : Char → List String → List String
cons_line c [] = String.◌∷◌ c String.[] ∷ []
cons_line c (line ∷ lines) = String.◌∷◌ c line ∷ lines

-- The lines of a text, the last of which is not ended.
unfoldable pub lines_of : String → List String
unfolding cons_line
lines_of String.[] = "" ∷ []
lines_of (String.◌∷◌ c s) =
    let rest = lines_of s in if is_line_end c then "" ∷ rest else cons_line c rest

pub data Field : Type 0 where
  blank ignored : Field
  event_name event_data : String → Field

unfoldable pub drop_space : String → String
unfolding has_prefix trim_prefix
drop_space s = if has_prefix s " " then trim_prefix s " " else s

unfoldable pub is_blank : String → Bool
is_blank String.[] = true
is_blank (String.◌∷◌ c s) = false

unfoldable pub field_of : String → Field
unfolding drop_space is_blank has_prefix trim_prefix
field_of line =
    if is_blank line
    then blank
    else if has_prefix line "event:"
    then event_name (drop_space (trim_prefix line "event:"))
    else if has_prefix line "data:"
    then event_data (drop_space (trim_prefix line "data:"))
    else ignored

-- The name and the data of the event that is being read.
pub record Pending : Type 0 where
  pub name : String
  pub content : Option String

abbrev pub nothing_pending : Pending
nothing_pending = record { name = ""; content = none }

unfoldable pub add_data : Option String → String → String
add_data none s = s
add_data (some old) s = String.◌++◌ old (String.◌++◌ "\n" s)

-- An event is handed on at a blank line, if there are data.
unfoldable pub handed_on : Pending → Option String → List (String × String)
handed_on pending none = []
handed_on pending (some text) = (pending.name, text) ∷ []

unfoldable pub read_field : Pending → Field → List (String × String) × Pending
unfolding handed_on add_data
read_field pending blank = (handed_on pending pending.content, nothing_pending)
read_field pending ignored = ([], pending)
read_field pending (event_name s) = ([], record pending { name = s })
read_field pending (event_data s) =
    ([], record pending { content = some (add_data pending.content s) })

unfoldable pub read_lines : Pending → List String → List (String × String)
unfolding read_field field_of
read_lines pending [] = []
read_lines pending (line ∷ []) = []
read_lines pending (line ∷ next ∷ lines) =
    let (found, pending') = read_field pending (field_of line) in
    found ++ read_lines pending' (next ∷ lines)

-- The events of a text, as name and data.
unfoldable pub read_events : String → List (String × String)
unfolding read_lines lines_of
read_events s = read_lines nothing_pending (lines_of s)

reader_test :
    read_events ": hi\n\nevent: yard\ndata: {}\n\ndata:1\ndata:2\n\nevent: yard\ndata: cut"
    ≡ ("yard", "{}") ∷ ("", "1\n2") ∷ []
unfolding read_events
reader_test = refl
