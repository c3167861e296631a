-- ===== src/A2a/Wire/Carrying.antt =====
-- a2a/server.go, internal/sse and a2a/client.go: the events that a server writes come through.
use golm.Common.{
  ℕ, zero, suc, ◌+◌, ◌≤◌, ◌<◌, ◌≡◌, refl, ap, ◌∙◌, Bool, true, false, not, Option, none, some, List,
  [], ◌∷◌, ◌++◌, append-nil, map, map-append, Bytes, length, length-append, is_empty, if_false,
  arith,
}
use golm.A2a.{working, text_part, Artifact, Task}
use golm.A2a.Stream.{
  TaskEvent, status_event, artifact_event, chunk_events, closing_artifact, closing_events,
  stream_events,
}
use golm.A2a.Wire.{
  Json, sent_part, sent_status, sent_artifact, sent_event, item_of, written, item_in, ending,
  client_items,
}
use golm.Scanner.{ReadError, eof, Event, Reader, max_event_bytes}
use golm.Scanner.RoundTrip.{
  frame, frames, OneLine, Fit, scan, scan_by, next_with-frame, next_with-end,
}

-- What a client relies on of encoding/json for an event: it is printed, on one line that is not
-- empty and that the scanner takes, and read as the event with its texts and parts as they are sent.
pub record Carries (j : Json) (e : TaskEvent) : Type 0 where
  pub bytes : Bytes
  pub encoded : j.encode e ≡ some bytes
  pub one_line : OneLine bytes
  pub fits : length bytes + 6 ≤ max_event_bytes
  pub not_empty : is_empty bytes ≡ false
  pub decoded : j.decode bytes ≡ item_of (sent_event j e)

abbrev pub CarriesAll : Json → List TaskEvent → Type 0
CarriesAll j [] = Unit {0}
CarriesAll j (e ∷ es) = Carries j e × CarriesAll j es

data_of : Bytes → Event
data_of p = record { kind = []; content = p; id = []; retry = [] }

-- Any number of rounds beyond that of the frames reads them all.
scan_enough :
    (max n : ℕ) (ps : List Bytes) (r : Reader)
    → r.rest ≡ frames ps
    → r.end ≡ eof
    → Fit max ps
    → length ps < n
    → scan n max r ≡ (map data_of ps, some eof)
unfolding scan scan_by frames data_of
scan_enough max zero ps r e d f l = absurd (omega (arith, l))
scan_enough max (suc n) [] r e d f l = ap (scan_by (scan n max)) (next_with-end max r e d)
scan_enough max (suc n) (p ∷ ps) r e d f l =
    let r' = record r { rest = frames ps; bom_done = true } in
    ap (scan_by (scan n max)) (next_with-frame max r p (frames ps) e f.0.0 f.0.1)
    ∙ ap (λ (q : List Event × Option ReadError). (data_of p ∷ q.0, q.1))
        (scan_enough max n ps r' refl d f.1 (omega (arith, l)))

frame-length : (p more : Bytes) → 1 + length more ≤ length (frame p ++ more)
unfolding frame
frame-length p more =
    omega (arith, length-append p (10 ∷ 10 ∷ []), length-append (p ++ 10 ∷ 10 ∷ []) more)

frames-length : (ps : List Bytes) → length ps ≤ length (frames ps)
unfolding frames
frames-length [] = omega arith
frames-length (p ∷ ps) = omega (arith, frame-length p (frames ps), frames-length ps)

-- The results behind the events.
record Sent (j : Json) (es : List TaskEvent) : Type 0 where
  results : List Bytes
  on_wire : written j es ≡ frames results
  fit : Fit max_event_bytes results
  read : map (item_in j) (map data_of results) ≡ map item_of (map (sent_event j) es)

carried-Sent : (j : Json) (es : List TaskEvent) → CarriesAll j es → Sent j es
unfolding written frames item_in data_of
carried-Sent j [] c = record { results = []; on_wire = refl; fit = tt; read = refl }
carried-Sent j (e ∷ es) (c, cs) =
    let s = carried-Sent j es cs in
    record {
      results = c.bytes ∷ s.results;
      on_wire = rw (c.encoded, written) (ap (λ t. frame c.bytes ++ t) s.on_wire);
      fit = ((c.one_line, c.fits), s.fit);
      read =
          ap (λ i. i ∷ map (item_in j) (map data_of s.results))
            (if_false c.not_empty _ _ ∙ c.decoded)
          ∙ ap (◌∷◌ (item_of (sent_event j e))) s.read;
    }

-- The reader at the client's end of a response.
abbrev pub response : Bytes → Reader
response bs = record { rest = bs; end = eof; bom_done = false }

-- Of events that are carried, the client's loop is handed each, in order, as it is sent.
pub client_items-written :
    (j : Json) (es : List TaskEvent)
    → CarriesAll j es
    → client_items j (response (written j es)) ≡ map item_of (map (sent_event j) es)
unfolding client_items ending
client_items-written j es c =
    let s = carried-Sent j es c in
    let bs = written j es in
    let l : length s.results < suc (length bs) =
      omega (arith, frames-length s.results, ap length s.on_wire) in
    ap (λ (q : List Event × Option ReadError). map (item_in j) q.0 ++ ending q.1)
      (scan_enough max_event_bytes (suc (length bs)) s.results (response bs) s.on_wire refl s.fit l)
    ∙ (append-nil (map (item_in j) (map data_of s.results)) ∙ s.read)

abbrev pub sent_task : Json → Task → Task
sent_task j t = record t {
  status = sent_status j t.status;
  artifacts = map (sent_artifact j) t.artifacts;
}

sent-chunk_events :
    (j : Json) (id : ℕ) (first : Bool) (ts : List Bytes)
    → map (sent_event j) (chunk_events id first ts) ≡ chunk_events id first (map j.text ts)
unfolding chunk_events sent_event sent_artifact sent_part text_part
sent-chunk_events j id first [] = refl
sent-chunk_events j id first (t ∷ ts) =
    ap (λ es. chunk_event ∷ es) (sent-chunk_events j id false ts)
  where
    chunk_event : TaskEvent
    chunk_event =
        artifact_event (record { artifact_id = id; parts = text_part (j.text t) ∷ [] }) (not first)
          false

sent-closing_artifact :
    (j : Json) (outs : List Artifact)
    → map (sent_event j) (closing_artifact outs) ≡ closing_artifact (map (sent_artifact j) outs)
unfolding closing_artifact sent_event
sent-closing_artifact j [] = refl
sent-closing_artifact j (a ∷ as') = refl

sent-closing_events :
    (j : Json) (erred : Bool) (t : Task)
    → map (sent_event j) (closing_events erred t) ≡ closing_events erred (sent_task j t)
unfolding closing_events sent_event
sent-closing_events j true t = refl
sent-closing_events j false t =
    map-append (sent_event j) (closing_artifact t.artifacts) (status_event t.status true ∷ [])
    ∙ ap (λ es. es ++ status_event (sent_status j t.status) true ∷ [])
        (sent-closing_artifact j t.artifacts)

-- The events of a task, as they are sent, are those of what is sent of the task.
pub sent-stream_events :
    (j : Json) (id : ℕ) (now : Bytes) (chunks : List Bytes) (erred : Bool) (t : Task)
    → map (sent_event j) (stream_events id now chunks erred t)
      ≡ stream_events id now (map j.text chunks) erred (sent_task j t)
unfolding stream_events sent_event sent_status
sent-stream_events j id now chunks erred t =
    ap (λ es. status_event (record { state = working; message = none; timestamp = now }) false ∷ es)
      (map-append (sent_event j) (chunk_events id true chunks) (closing_events erred t)
        ∙ (ap (λ es. es ++ map (sent_event j) (closing_events erred t))
              (sent-chunk_events j id true chunks)
            ∙ ap (λ es. chunk_events id true (map j.text chunks) ++ es)
                (sent-closing_events j erred t)))
