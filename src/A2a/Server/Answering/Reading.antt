-- ===== src/A2a/Server/Answering/Reading.antt =====
-- a2a/client.go: the events of a task, read from the first to the last.
use golm.Common.{
  ℕ, ◌≡◌, refl, sym, ap, ◌∙◌, Bool, true, false, not, ◌||◌, Option, none, some, List, [], ◌∷◌, ◌++◌,
  append_assoc, append-nil, map, map-append, Bytes, if◌then◌else◌, is_empty,
}
use golm.A2a.{text_part, Task, Artifact, TaskStatus}
use golm.A2a.Stream.{status_event, chunk_events, closing_artifact, closing_events, stream_events}
use golm.A2a.Client.{
  Assembler, new_assembler, delta, final_text, result, parts_text, CallError, task_failed, Called,
  got, fails, Item, Reading, read_items, send_message_stream, message_text, has_failed,
  status_failure,
}
use golm.A2a.Server.{erred}
use golm.A2a.Wire.{item_of}

unfoldable pub joined : List Bytes → Bytes
joined [] = []
joined (t ∷ ts) = t ++ joined ts

-- The state after chunks that are appended, or the first of which starts an empty text.
unfoldable pub after_chunks : List Bytes → Reading → Reading
unfolding joined
after_chunks ts r = record {
  asm = record (r.asm) {
    full = r.asm.full ++ joined ts;
    saw_delta = r.asm.saw_delta || not (is_empty ts);
  };
  deltas = r.deltas ++ ts;
}

or_false : (b : Bool) → (b || false) ≡ b
or_false true = refl
or_false false = refl

or_true : (b : Bool) → (b || true) ≡ true
or_true true = refl
or_true false = refl

-- The full text, whether the chunk starts it or goes on with it.
begun_text :
    (first : Bool) (full t rest : Bytes)
    → (first ≡ true → full ≡ [])
    → ((if not first then full else []) ++ (t ++ [])) ++ rest ≡ full ++ (t ++ rest)
begun_text true full t rest h = rw (h refl, append-nil t) refl
begun_text false full t rest h = rw (append-nil t) (append_assoc full t rest)

reading_of : Assembler → Bytes → Bool → List Bytes → Reading
reading_of a full saw ts = record { asm = record a { full = full; saw_delta = saw }; deltas = ts }

read_chunks :
    (id : ℕ) (first : Bool) (ts : List Bytes) (more : List Item) (r : Reading)
    → (first ≡ true → r.asm.full ≡ [])
    → read_items (map item_of (chunk_events id first ts) ++ more) r
      ≡ read_items more (after_chunks ts r)
unfolding read_items chunk_events item_of after_chunks joined delta text_part reading_of
read_chunks id first [] more r h = ap (read_items more) (
    sym (
      ap (λ l. reading_of r.asm l (r.asm.saw_delta || false) (r.deltas ++ []))
        (append-nil r.asm.full)
      ∙ (ap (λ b. reading_of r.asm r.asm.full b (r.deltas ++ [])) (or_false r.asm.saw_delta)
          ∙ ap (reading_of r.asm r.asm.full r.asm.saw_delta) (append-nil r.deltas))))
read_chunks id first (t ∷ ts) more r h =
    let r' =
      reading_of r.asm ((if not first then r.asm.full else []) ++ (t ++ [])) true
        (r.deltas ++ (t ++ []) ∷ []) in
    read_chunks id false ts more r' (λ e. cc)
    ∙ ap (read_items more) (
        ap (λ l. reading_of r.asm l true ((r.deltas ++ (t ++ []) ∷ []) ++ ts))
          (begun_text first r.asm.full t (joined ts) h)
        ∙ (ap
              (λ b.
                reading_of r.asm (r.asm.full ++ (t ++ joined ts)) b
                  ((r.deltas ++ (t ++ []) ∷ []) ++ ts))
              (sym (or_true r.asm.saw_delta))
            ∙ ap (reading_of r.asm (r.asm.full ++ (t ++ joined ts)) (r.asm.saw_delta || true)) (
                append_assoc r.deltas ((t ++ []) ∷ []) ts
                ∙ ap (λ x. r.deltas ++ x ∷ ts) (append-nil t))))

-- The text that a client returns: what the handler gave, or the chunks where that is no text.
unfoldable pub preferred : Bytes → List Bytes → Bytes
unfolding joined
preferred text chunks = if is_empty text then joined chunks else text

unfoldable pub start_reading : Reading
start_reading = record { asm = new_assembler; deltas = [] }

-- The client on the events of a task.
unfoldable pub client_reads : ℕ → Bytes → List Bytes → Bool → Task → Called Bytes × List Bytes
client_reads id now chunks erred t =
    send_message_stream (map item_of (stream_events id now chunks erred t))

unfoldable pub concluded : Option CallError × Reading → Called Bytes × List Bytes
concluded (e, r) = (elim e [ none ↦ got (result r.asm) | some x ↦ fails x ], r.deltas)

-- What is left to read after the chunks.
client_reads_close :
    (id : ℕ) (now : Bytes) (chunks : List Bytes) (erred : Bool) (t : Task)
    → client_reads id now chunks erred t
      ≡ concluded
          (read_items (map item_of (closing_events erred t)) (after_chunks chunks start_reading))
unfolding client_reads concluded send_message_stream read_items stream_events start_reading item_of
client_reads_close id now chunks erred t =
    let more = closing_events erred t in
    ap concluded (
      ap (λ l. read_items l start_reading) (map-append item_of (chunk_events id true chunks) more)
      ∙ read_chunks id true chunks (map item_of more) start_reading (λ e. refl))

stop_or_end :
    (e : Option CallError) (r : Reading)
    → ◌≡◌ {A = Option CallError × Reading}
        (elim e [ none ↦ (none, r) | some x ↦ (some x, r) ])
        (e, r)
stop_or_end none r = refl
stop_or_end (some x) r = refl

last_status :
    (st : TaskStatus) (r : Reading)
    → read_items (item_of (status_event st true) ∷ []) r ≡ (status_failure st, r)
unfolding read_items item_of
last_status st r = stop_or_end (status_failure st) r

-- The last artifact is the final text.
unfoldable pub closed_with : List Artifact → Reading → Reading
closed_with [] r = r
closed_with (a ∷ as') r = record r { asm = final_text (parts_text a.parts) r.asm }

closing_reads :
    (outs : List Artifact) (st : TaskStatus) (r : Reading)
    → read_items (map item_of (closing_artifact outs ++ status_event st true ∷ [])) r
      ≡ (status_failure st, closed_with outs r)
unfolding closing_artifact closed_with read_items item_of
closing_reads [] st r = last_status st r
closing_reads (a ∷ as') st r = last_status st (closed_with (a ∷ as') r)

-- What a task's end adds.
unfoldable pub ended_with : Bool → Task → Reading → Reading
ended_with true t r = r
ended_with false t r = closed_with t.artifacts r

pub client_reads_end :
    (id : ℕ) (now : Bytes) (chunks : List Bytes) (erred : Bool) (t : Task)
    → client_reads id now chunks erred t
      ≡ concluded (status_failure t.status, ended_with erred t (after_chunks chunks start_reading))
unfolding closing_events ended_with
client_reads_end id now chunks true t =
    client_reads_close id now chunks true t ∙ ap concluded (last_status t.status _)
client_reads_end id now chunks false t =
    client_reads_close id now chunks false t ∙ ap concluded (closing_reads t.artifacts t.status _)

pub final_or_chunks :
    (text : Bytes) (chunks : List Bytes) (a : Assembler)
    → result (record {
      full = joined chunks;
      final = text;
      saw_delta = not (is_empty chunks);
      saw_final = true;
    })
      ≡ preferred text chunks
unfolding preferred result joined
final_or_chunks [] [] a = refl
final_or_chunks [] (c ∷ cs) a = refl
final_or_chunks (x ∷ text) chunks a = refl

chunks_alone :
    (chunks : List Bytes) → result (after_chunks chunks start_reading).asm ≡ joined chunks
unfolding result after_chunks start_reading joined
chunks_alone [] = refl
chunks_alone (c ∷ cs) = refl

ended-deltas :
    (erred : Bool) (t : Task) (chunks : List Bytes)
    → (ended_with erred t (after_chunks chunks start_reading)).deltas ≡ chunks
unfolding ended_with closed_with after_chunks start_reading
ended-deltas true t chunks = refl
ended-deltas false t chunks =
    elim t.artifacts
      as (λ outs. (closed_with outs (after_chunks chunks start_reading)).deltas ≡ chunks) [
        | [] ↦ refl
        | a ∷ as' ↦ refl
      ]

-- A task that the client finds failed.
pub reads_failure :
    (id : ℕ) (now : Bytes) (chunks : List Bytes) (erred : Bool) (t : Task)
    → has_failed t.status.state ≡ true
    → client_reads id now chunks erred t
      ≡ (fails (task_failed t.status.state (message_text t.status.message)), chunks)
unfolding concluded status_failure
reads_failure id now chunks erred t h =
    client_reads_end id now chunks erred t ∙ rw (h, ended-deltas erred t chunks) refl
