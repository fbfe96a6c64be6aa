-- ===== src/Server/Frames/RoundTrip.antt =====
-- About the text of the frames (sse.go): a reader finds in it what was written.
use Prim.Native.String
use star_car.Prelude.{
  ◌≡◌, refl, sym, ap, ◌∙◌, true, String, List, [], ◌∷◌, ◌++◌, Bool-cases, inl, inr, sprint, arith,
}
use text.Mathlib.TextLemmas.{append_assoc, cons-append, nil-append}
use star_car.Server.Frames.{sse_frame, sse_heartbeat}
use star_car.Server.Connections.{StreamEvent, frame, heartbeat}
use star_car.Server.Frames.Reader.{
  written_text, events_of, is_line_end, is_one_line, lines_of, event_data, field_of,
  nothing_pending, read_lines, read_events,
}

-- A line that is ended stands by itself.
lines-append :
    (s rest : String)
    → is_one_line s ≡ true
    → lines_of (String.◌++◌ s (String.◌∷◌ "\n" rest)) ≡ s ∷ lines_of rest
unfolding lines_of is_one_line
lines-append String.[] rest h = rw nil-append refl
lines-append (String.◌∷◌ c s) rest h = rw cons-append (ground (arith, lines-append s rest))

-- The text ends in a line, if only an empty one.
lines-cons : (s : String) → (line : String) × (lines : List String) × (lines_of s ≡ line ∷ lines)
unfolding lines_of
lines-cons String.[] = ("", [], refl)
lines-cons (String.◌∷◌ c s) =
    let (line, lines, e) = lines-cons s in
    elim (Bool-cases (is_line_end c)) [
      | inl k ↦ ("", lines_of s, rw k refl)
      | inr k ↦ (String.◌∷◌ c line, lines, rw (k, e) refl)
    ]

data_chars :
    (s : String)
    → String.◌++◌ "data: " s
      ≡ String.◌∷◌ "d"
          (String.◌∷◌ "a" (String.◌∷◌ "t" (String.◌∷◌ "a" (String.◌∷◌ ":" (String.◌∷◌ " " s)))))
data_chars s =
    rw (cons-append, cons-append, cons-append, cons-append, cons-append, cons-append, nil-append)
      refl

two_ends : (rest : String) → String.◌++◌ "\n\n" rest ≡ String.◌∷◌ "\n" (String.◌∷◌ "\n" rest)
two_ends rest = rw (cons-append, cons-append, nil-append) refl

frame_shape :
    (payload rest : String)
    → String.◌++◌ (sse_frame payload) rest
      ≡ String.◌++◌ "event: yard" (
          String.◌∷◌ "\n"
            (String.◌++◌ (String.◌++◌ "data: " payload) (String.◌∷◌ "\n" (String.◌∷◌ "\n" rest))))
unfolding sse_frame sprint
frame_shape payload rest = simp append_assoc (
    ap
      (λ t.
        String.◌++◌ "event: " (String.◌++◌ "yard" (String.◌++◌ "\ndata: " (String.◌++◌ payload t))))
      (ap (String.◌++◌ "\n\n") (nil-append rest) ∙ two_ends rest)
    ∙ (sym (append_assoc "event: " "yard" _)
        ∙ ap (String.◌++◌ "event: yard") (cons-append "\n" "data: " _)))

field_of-data : (payload : String) → field_of (String.◌++◌ "data: " payload) ≡ event_data payload
unfolding field_of
field_of-data payload = rw data_chars refl

is_one_line-data :
    (payload : String)
    → is_one_line payload ≡ true
    → is_one_line (String.◌++◌ "data: " payload) ≡ true
unfolding is_one_line
is_one_line-data payload h = rw data_chars h

lines-frame :
    (payload rest : String)
    → is_one_line payload ≡ true
    → lines_of (String.◌++◌ (sse_frame payload) rest)
      ≡ "event: yard" ∷ String.◌++◌ "data: " payload ∷ "" ∷ lines_of rest
unfolding lines_of is_one_line
lines-frame payload rest h =
    ap lines_of (frame_shape payload rest)
    ∙ (lines-append "event: yard"
          (String.◌++◌ (String.◌++◌ "data: " payload) (String.◌∷◌ "\n" (String.◌∷◌ "\n" rest))) refl
        ∙ ap (λ l. "event: yard" ∷ l)
            (lines-append (String.◌++◌ "data: " payload) (String.◌∷◌ "\n" rest)
              (is_one_line-data payload h)))

lines-heartbeat :
    (rest : String) → lines_of (String.◌++◌ sse_heartbeat rest) ≡ ": heartbeat" ∷ "" ∷ lines_of rest
unfolding sse_heartbeat lines_of is_one_line
lines-heartbeat rest =
    ap lines_of
      (append_assoc ": heartbeat" "\n\n" rest ∙ ap (String.◌++◌ ": heartbeat") (two_ends rest))
    ∙ lines-append ": heartbeat" (String.◌∷◌ "\n" rest) refl

read-frame :
    (payload : String) (lines : List String) (rest : String)
    → lines ≡ lines_of rest
    → read_lines nothing_pending ("event: yard" ∷ String.◌++◌ "data: " payload ∷ "" ∷ lines)
      ≡ ("yard", payload) ∷ read_lines nothing_pending lines
unfolding read_lines
read-frame payload [] rest e = let (line, more, k) = lines-cons rest in absurd (cc (e, k))
read-frame payload (line ∷ lines) rest e = rw (field_of-data payload) refl

read-heartbeat :
    (lines : List String) (rest : String)
    → lines ≡ lines_of rest
    → read_lines nothing_pending (": heartbeat" ∷ "" ∷ lines) ≡ read_lines nothing_pending lines
unfolding read_lines
read-heartbeat [] rest e = let (line, more, k) = lines-cons rest in absurd (cc (e, k))
read-heartbeat (line ∷ lines) rest e = refl

abbrev pub AreOneLine : List StreamEvent → Type 0
AreOneLine [] = Unit
AreOneLine (frame payload ∷ events) = (is_one_line payload ≡ true) × AreOneLine events
AreOneLine (heartbeat ∷ events) = AreOneLine events

-- If no payload holds an end of a line, a reader of event streams finds in what a handler writes,
-- whatever follows it, exactly its frames, in order, each under the name "yard" and with its
-- payload; the heartbeats leave no trace.
pub read_events-written_text :
    (events : List StreamEvent) (rest : String)
    → AreOneLine events
    → read_events (String.◌++◌ (written_text events) rest) ≡ events_of events ++ read_events rest
unfolding read_events written_text
read_events-written_text [] rest h = rw nil-append refl
read_events-written_text (frame payload ∷ events) rest (one, h) =
    let after = String.◌++◌ (written_text events) rest in
    ap read_events (append_assoc (sse_frame payload) (written_text events) rest)
    ∙ (ap (read_lines nothing_pending) (lines-frame payload after one)
        ∙ (read-frame payload (lines_of after) after refl
            ∙ ap (λ l. ("yard", payload) ∷ l) (read_events-written_text events rest h)))
read_events-written_text (heartbeat ∷ events) rest h =
    let after = String.◌++◌ (written_text events) rest in
    ap read_events (append_assoc sse_heartbeat (written_text events) rest)
    ∙ (ap (read_lines nothing_pending) (lines-heartbeat after)
        ∙ (read-heartbeat (lines_of after) after refl ∙ read_events-written_text events rest h))
