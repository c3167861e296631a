-- ===== src/A2a/Server/Answering.antt =====
-- a2a/client.go: what a client makes of the events of a server's task.
pub mod Reading
use mathlib.Core.Option
use golm.Common.{
  ℕ, ◌≡◌, refl, sym, ap, subst, ◌∙◌, inl, inr, Bool, true, false, not, ◌&&◌, ◌||◌, Bool-cases,
  Option, Option-cases, none, some, List, [], ◌∷◌, ◌++◌, append_assoc, append-nil, map, map-append,
  Bytes, add_int, if◌then◌else◌, if_true, if_false, is_empty, arith,
}
use golm.A2a.{
  TaskState, submitted, working, input_required, auth_required, completed, failed, canceled,
  rejected, other, text_of, texts_of, is_terminal, Part, text_part, Message, Task, Artifact,
  TaskStatus,
}
use golm.A2a.Store.{
  Clockwork, Store, Outcome, gives, errs, Op, start, complete, fail, finish, end, apply_all, settle,
  stamped, failure, write_task,
}
use golm.A2a.Stream.{
  TaskEvent, status_event, artifact_event, chunk_events, closing_artifact, closing_events,
  stream_events,
}
use golm.A2a.Client.{
  Assembler, new_assembler, delta, final_text, result, parts_text, CallError, task_failed, Called,
  got, fails, Item, update, read_item, read_items, send_message_stream, message_text, has_failed,
  status_failure,
}
use golm.A2a.Server.{erred, send_stream}
use golm.A2a.Wire.{
  Json, sent_part, sent_message, sent_status, sent_artifact, item_of, written, client_items,
}
use golm.A2a.Wire.Carrying.{
  CarriesAll, response, client_items-written, sent_task, sent-stream_events,
}
use golm.A2a.Server.Answering.Reading.{
  joined, preferred, after_chunks, start_reading, client_reads, concluded, closed_with, ended_with,
  reads_failure, client_reads_end, final_or_chunks,
}

failed_over : (st : TaskState) → has_failed st ≡ true → is_terminal st ≡ true
unfolding has_failed is_terminal
failed_over completed h = cc
failed_over failed h = refl
failed_over canceled h = refl
failed_over rejected h = refl
failed_over submitted h = cc
failed_over working h = cc
failed_over input_required h = cc
failed_over auth_required h = cc
failed_over (other x) h = cc

finish_over :
    (cw : Clockwork) (i : ℕ) (o : Outcome) (now : ℕ) (s : Store)
    → is_terminal (s.objects i).status.state ≡ true
    → finish cw i o now s ≡ s
unfolding finish complete fail
finish_over cw i (gives parts) now s h = if_true h s _
finish_over cw i (errs why) now s h = if_true h s _

-- The task that a handler's return leaves, when it is not over.
ended_task : Clockwork → ℕ → Outcome → ℕ → Task → Task
ended_task cw i (gives parts) now t = record t {
  status = stamped cw completed none now;
  artifacts = record { artifact_id = i; parts = parts } ∷ [];
}
ended_task cw i (errs why) now t = record t {
  status = stamped cw failed (some (failure cw why)) now;
}

finish_live :
    (cw : Clockwork) (i : ℕ) (o : Outcome) (now : ℕ) (s : Store)
    → is_terminal (s.objects i).status.state ≡ false
    → (finish cw i o now s).objects i ≡ ended_task cw i o now (s.objects i)
unfolding finish complete fail settle ended_task write_task
finish_live cw i (gives parts) now s h = rw h (ground arith)
finish_live cw i (errs why) now s h = rw h (ground arith)

-- The text that comes through of parts: that of the parts that have no file and no data beside it.
abbrev pub plain_text : Json → List Part → Bytes
plain_text j [] = []
plain_text j (p ∷ ps) =
    elim p.file [ some f ↦ [] | none ↦ if is_empty p.json then j.text p.text else [] ]
    ++ plain_text j ps

abbrev pub plain_message : Json → Option Message → Bytes
plain_message j none = []
plain_message j (some m) = plain_text j m.parts

part-text :
    (j : Json) (p : Part)
    → (sent_part j p).text
      ≡ elim p.file [ some f ↦ [] | none ↦ if is_empty p.json then j.text p.text else [] ]
unfolding sent_part
part-text j p = elim (Option-cases p.file) [
  | inr (f, e) ↦ rw e refl
  | inl e ↦ elim (Bool-cases (is_empty p.json)) [
    | inl b ↦ rw e (rw b refl)
    | inr b ↦ rw e (rw b refl)
  ]
]

parts_text-plain : (j : Json) (ps : List Part) → parts_text (map (sent_part j) ps) ≡ plain_text j ps
unfolding parts_text
parts_text-plain j [] = refl
parts_text-plain j (p ∷ ps) =
    ap (λ t. t ++ parts_text (map (sent_part j) ps)) (part-text j p)
    ∙ ap
        (λ t.
          elim p.file [ some f ↦ [] | none ↦ if is_empty p.json then j.text p.text else [] ] ++ t)
        (parts_text-plain j ps)

texts_of-plain : (j : Json) (ps : List Part) → texts_of (map (sent_part j) ps) ≡ plain_text j ps
unfolding texts_of
texts_of-plain j [] = refl
texts_of-plain j (p ∷ ps) =
    ap (λ t. t ++ texts_of (map (sent_part j) ps)) (part-text j p)
    ∙ ap
        (λ t.
          elim p.file [ some f ↦ [] | none ↦ if is_empty p.json then j.text p.text else [] ] ++ t)
        (texts_of-plain j ps)

message_text-plain :
    (j : Json) (m : Option Message)
    → message_text (Option.map (sent_message j) m) ≡ plain_message j m
unfolding message_text text_of sent_message
message_text-plain j none = refl
message_text-plain j (some m) = texts_of-plain j m.parts

-- A status that tells of a failure, as it is read.
told_failure : TaskState → List Bytes → Bytes → Called Bytes × List Bytes
told_failure st chunks t = (fails (task_failed st t), chunks)

-- What a client should make of a handler that emits chunks and returns.
abbrev pub answer : Json → List Bytes → Outcome → Called Bytes × List Bytes
answer j chunks (gives parts) =
    (got (preferred (plain_text j parts) (map j.text chunks)), map j.text chunks)
answer j chunks (errs why) = (fails (task_failed failed (j.text why)), map j.text chunks)

reads_result :
    (j : Json) (cw : Clockwork) (i : ℕ) (time : Bytes) (chunks : List Bytes) (o : Outcome) (now : ℕ)
    (t : Task)
    → client_reads i time (map j.text chunks) (erred o) (sent_task j (ended_task cw i o now t))
      ≡ answer j chunks o
unfolding ended_task stamped failure status_failure concluded ended_with closed_with message_text
    erred has_failed text_of texts_of text_part final_text after_chunks start_reading sent_status
    sent_message sent_artifact sent_part
reads_result j cw i time chunks (gives parts) now t =
    let ts = map j.text chunks in
    client_reads_end i time ts false (sent_task j (ended_task cw i (gives parts) now t))
    ∙ (ap (λ (r : Bytes). (got r, ts))
          (final_or_chunks (parts_text (map (sent_part j) parts)) ts new_assembler)
        ∙ ap (λ (r : Bytes). (got (preferred r ts), ts)) (parts_text-plain j parts))
reads_result j cw i time chunks (errs why) now t =
    let ts = map j.text chunks in
    client_reads_end i time ts true (sent_task j (ended_task cw i (errs why) now t))
    ∙ ap (λ (w : Bytes). (fails (task_failed failed w), ts)) (append-nil (j.text why))

module _ (j : Json) (cw : Clockwork) (msg : Message) (now begun : ℕ) (chunks : List Bytes)
    (others : List Op) (o : Outcome) (later : ℕ) (s : Store) where
  -- The task as the handler finds it when it returns.
  abbrev pub before_end : Task
  before_end = (apply_all cw others (start cw msg now s)).objects (add_int s.seq 1)

  -- What `SendStream` tells its sink.
  abbrev pub told : List TaskEvent
  told = (send_stream cw msg now begun chunks others o later s).0.0

  -- What the client of `SendStream` makes of the response.
  abbrev pub client_gets : Called Bytes × List Bytes
  client_gets = send_message_stream (client_items j (response (written j told)))

  -- The task as the handler leaves it.
  abbrev after_end : Task
  after_end =
      (finish cw (add_int s.seq 1) o later (apply_all cw others (start cw msg now s))).objects
        (add_int s.seq 1)

  client_gets-reads :
      CarriesAll j told
      → client_gets
        ≡ client_reads
            (add_int s.seq 1)
            (cw.format begun)
            (map j.text chunks)
            (erred o)
            (sent_task j after_end)
  unfolding send_stream client_reads
  client_gets-reads c = ap send_message_stream (
      client_items-written j told c
      ∙ ap (map item_of)
          (sent-stream_events j (add_int s.seq 1) (cw.format begun) chunks (erred o) after_end))

  -- A client that reads the response about a task that was canceled, or that failed otherwise, while
  -- the handler ran is told so, whatever the handler returns, with the text of the status, which is
  -- that of its parts that have no file and no data; the chunks that were emitted were handed to it.
  -- What is no UTF-8 in these texts is replaced. It holds where each event prints on one line that is
  -- not empty and that the scanner takes, and is read as what is sent of it.
  pub send_stream-canceled :
      has_failed before_end.status.state ≡ true
      → CarriesAll j told
      → client_gets ≡ (
        fails (task_failed before_end.status.state (plain_message j before_end.status.message)),
        map j.text chunks,
      )
  unfolding send_stream sent_status told_failure
  send_stream-canceled h c =
      let i = add_int s.seq 1 in
      let s₁ = apply_all cw others (start cw msg now s) in
      let e : after_end ≡ before_end =
        ap (λ (q : Store). q.objects i)
          (finish_over cw i o later s₁ (failed_over before_end.status.state h)) in
      client_gets-reads c
      ∙ (ap (λ t. client_reads i (cw.format begun) (map j.text chunks) (erred o) (sent_task j t)) e
          ∙ (reads_failure i (cw.format begun) (map j.text chunks) (erred o)
                (sent_task j before_end) h
              ∙ ap (told_failure before_end.status.state (map j.text chunks))
                  (message_text-plain j before_end.status.message)))

  -- A client that reads the response about a task that nobody ended before its handler returned is
  -- handed the chunks as they were emitted, and gets the text of the parts that the handler gave and
  -- that have no file and no data, the chunks joined where that is empty, or the handler's error.
  -- What is no UTF-8 in these texts is replaced. It holds where each event prints on one line that is
  -- not empty and that the scanner takes, and is read as what is sent of it.
  pub send_stream-answer :
      is_terminal before_end.status.state ≡ false
      → CarriesAll j told
      → client_gets ≡ answer j chunks o
  unfolding send_stream
  send_stream-answer h c =
      let i = add_int s.seq 1 in
      let s₁ = apply_all cw others (start cw msg now s) in
      client_gets-reads c
      ∙ (ap (λ t. client_reads i (cw.format begun) (map j.text chunks) (erred o) (sent_task j t))
            (finish_live cw i o later s₁ h)
          ∙ reads_result j cw i (cw.format begun) chunks o later before_end)
