-- ===== src/A2a/Wire.antt =====
-- a2a/server.go's `sseSink` and `sendEvent`, a2a/protocol.go's encoding of a part, and the loop of
-- a2a/client.go that reads the stream. What encoding/json prints and reads is an argument.
pub mod Carrying
use mathlib.Core.Option
use golm.Common.{
  suc, Option, none, some, List, [], ◌∷◌, ◌++◌, map, Bytes, codes, length, is_empty, if◌then◌else◌,
}
use golm.A2a.{FilePart, Part, Message, TaskStatus, Artifact}
use golm.A2a.Stream.{TaskEvent, status_event, artifact_event}
use golm.A2a.Client.{Item, blank, broken, update, status_update, artifact_update}
use golm.Scanner
use golm.Scanner.{ReadError, eof, line_too_long, event_too_long, Event, Reader, max_event_bytes}
use golm.Scanner.RoundTrip.{frame, scan}

pub record Json : Type 0 where
  -- A JSON-RPC result around the sink's event, by encoding/json; `none` is its error.
  pub encode : TaskEvent → Option Bytes
  -- What the client decodes from the data of an event; what it passes over is `blank`.
  pub decode : Bytes → Item
  -- A text as it comes back: bytes that are no UTF-8 are replaced. And raw JSON, compacted.
  pub text : Bytes → Bytes
  pub raw : Bytes → Bytes

unfoldable pub sent_file : Json → FilePart → FilePart
sent_file j f = record {
  name = j.text f.name;
  mime_type = j.text f.mime_type;
  uri = j.text f.uri;
  content = j.text f.content;
}

-- `Part.MarshalJSON` and `Part.UnmarshalJSON`, one after the other: only one of the three is sent.
unfoldable pub sent_part : Json → Part → Part
unfolding sent_file
sent_part j p = elim p.file [
  | some f ↦ record p { text = []; file = some (sent_file j f); json = [] }
  | none ↦
      if is_empty p.json
      then record p { text = j.text p.text }
      else record p { text = []; json = j.raw p.json }
]

unfoldable pub sent_message : Json → Message → Message
sent_message j m = record m { parts = map (sent_part j) m.parts }

unfoldable pub sent_status : Json → TaskStatus → TaskStatus
unfolding sent_message
sent_status j st = record st { message = Option.map (sent_message j) st.message }

unfoldable pub sent_artifact : Json → Artifact → Artifact
sent_artifact j a = record a { parts = map (sent_part j) a.parts }

unfoldable pub sent_event : Json → TaskEvent → TaskEvent
unfolding sent_status sent_artifact
sent_event j (status_event st last) = status_event (sent_status j st) last
sent_event j (artifact_event a append_chunk last_chunk) =
    artifact_event (sent_artifact j a) append_chunk last_chunk

-- An event as the client's loop knows it.
unfoldable pub item_of : TaskEvent → Item
item_of (status_event st last) = update (status_update st)
item_of (artifact_event a append_chunk last_chunk) =
    update (artifact_update a append_chunk last_chunk)

-- What `sendEvent` has written to the response after these events, each unless it does not encode.
unfoldable pub written : Json → List TaskEvent → Bytes
unfolding frame
written j [] = []
written j (e ∷ es) =
    let rest = written j es in elim (j.encode e) [ none ↦ rest | some b ↦ frame b ++ rest ]

-- An event of the scanner, in the client's loop.
unfoldable pub item_in : Json → Event → Item
item_in j e = if is_empty e.content then blank else j.decode e.content

-- What ends the loop: the end of the stream, or an error of the scanner.
unfoldable pub ending : Option ReadError → List Item
ending none = []
ending (some eof) = []
ending (some (Scanner.broken e)) = broken e ∷ []
ending (some line_too_long) = broken (codes "sse: line exceeds 16777216 bytes") ∷ []
ending (some event_too_long) = broken (codes "sse: event exceeds 16777216 bytes") ∷ []

-- The client's loop over `scanner.Next`. An event takes a byte at least, so these rounds suffice.
unfoldable pub client_items : Json → Reader → List Item
unfolding item_in ending
client_items j r =
    let (es, x) = scan (suc (length r.rest)) max_event_bytes r in map (item_in j) es ++ ending x
