-- ===== src/Samples/Servers.antt =====
-- Tasks of a server, their events, and the client that reads them.
use golm.Common.{
  ℕ, if◌then◌else◌, bytes_eq, length, some, map, ◌≡◌, refl, true, false, none, some, List, [], ◌∷◌,
  Bytes, codes, pos, arith,
}
use golm.Scanner.{Reader, eof, next_with, max_event_bytes}
use golm.Scanner.Progress.{Advances, next_with-Advances}
use golm.Scanner.RoundTrip.{OneLine, frames, scan, scan-frames}
use golm.A2a.{is_terminal, submitted, working, Part, text_part, Message, Task}
use golm.A2a.Store
use golm.A2a.Store.{
  Clockwork, Store, gives, errs, settles, cancels_task, start, send, evict, expire, expire_one,
  evictable, bring_down, max_tasks_of, insert, mem, write_task, cancel, finish, complete, settle,
  stamped,
}
use golm.A2a.Store.Life.{Sent, send-Sent}
use golm.A2a.Store.Eviction.{Evicted, evict-Evicted}
use golm.A2a.Stream
use golm.A2a.Stream.{
  TaskEvent, status_event, artifact_event, max_of, new_broker, subscribe, newest, publish,
  publishes, receives, closes, offer_all, offer,
}
use golm.A2a.Stream.Following
use golm.A2a.Stream.Following.{Followed, subscribe-Followed, published, received}
use golm.A2a.Client.{Item, blank, fails, task_failed, has_failed}
use golm.A2a.Wire.{Json, item_of, sent_message, sent_event, sent_status, sent_artifact, sent_part}
use golm.A2a.Wire.Carrying.{Carries, CarriesAll}
use golm.A2a.Server.{send_stream}
use golm.A2a.Server.Answering.{
  answer, plain_message, client_gets, before_end, send_stream-answer, send_stream-canceled,
}

-- Times print as the number they are.
abbrev clock : Clockwork
clock = record {
  format = λ n. n ∷ [];
  parse = λ s. elim s [ [] ↦ none | n ∷ r ↦ some n ];
  sort = λ l. l;
}

abbrev hello : Message
hello = record {
  role = codes "user";
  parts = text_part (codes "hi") ∷ [];
  message_id = [];
  task_id = [];
  context_id = [];
  kind = codes "message";
}

abbrev no_task : Task
no_task = record {
  id = 0;
  context_id = [];
  status = record { state = submitted; message = none; timestamp = [] };
  artifacts = [];
  history = [];
  kind = [];
}

abbrev empty_store : Store
empty_store = record {
  max_age = pos 0;
  max_tasks = pos 8;
  objects = λ i. no_task;
  shelf = record { tasks = []; terminal_at = [] };
  in_flight = [];
  brokers = [];
  seq = 0;
}

abbrev reply : List Part
reply = text_part (codes "done") ∷ []

abbrev cancel_it : List Store.Op
cancel_it = cancels_task 1 5 ∷ []

abbrev settle_late : List Store.Op
settle_late = settles 1 (errs (codes "late")) 9 ∷ []

send-Sent_example :
    Sent clock
      (Store.apply_all clock cancel_it (start clock hello 0 empty_store))
      1
      (send clock hello 0 cancel_it (gives reply) 7 empty_store).0
    × ((Store.apply_all clock settle_late
            (send clock hello 0 cancel_it (gives reply) 7 empty_store).1).objects
          1
        ≡ (send clock hello 0 cancel_it (gives reply) 7 empty_store).0)
send-Sent_example =
    send-Sent clock hello 0 cancel_it (gives reply) 7 empty_store settle_late (omega arith)

abbrev served : Store
served = (send clock hello 0 [] (gives reply) 7 empty_store).1

evict-Evicted_example : Evicted clock served (evict clock 100 served)
evict-Evicted_example = evict-Evicted clock (λ l j. refl) 100 served

abbrev progress : TaskEvent
progress = status_event (record { state = working; message = none; timestamp = [] }) false

abbrev chunk_of : Bytes → TaskEvent
chunk_of s = artifact_event (record { artifact_id = 1; parts = text_part s ∷ [] }) true false

abbrev early : List Stream.Op
early =
    publishes progress ∷ publishes (chunk_of (codes "a")) ∷ publishes (chunk_of (codes "b")) ∷ []

abbrev late : List Stream.Op
late = publishes (chunk_of (codes "c")) ∷ receives 0 ∷ publishes progress ∷ closes ∷ []

subscribe-Followed_example :
    let b = Following.apply_all early (new_broker (pos 2)) in
    let s = subscribe b in
    Followed
      (max_of (pos 2))
      (published early)
      s.0.0
      (published late)
      (received b.next_id late s.1)
      ((Following.apply_all late s.1).heap b.next_id)
unfolding Following.apply_all Stream.apply publish new_broker
subscribe-Followed_example = subscribe-Followed (pos 2) early late refl

abbrev chunks : List Bytes
chunks = codes "do" ∷ codes "ne" ∷ []

-- A JSON of one letter for each of the events of a response.
abbrev letter : TaskEvent → ℕ
letter (status_event st last) = if last then 101 else 119
letter (artifact_event a append_chunk last_chunk) =
    if last_chunk then 100 else (if append_chunk then 50 else 49)

abbrev by_letter : List TaskEvent → Bytes → Item
by_letter [] b = blank
by_letter (e ∷ es) b =
    let rest = by_letter es b in if bytes_eq (letter e ∷ []) b then item_of e else rest

abbrev letters : List TaskEvent → Json
letters es = record {
  encode = λ e. some (letter e ∷ []);
  decode = by_letter es;
  text = λ s. s;
  raw = λ s. s;
}

abbrev answered : List TaskEvent
answered = (send_stream clock hello 0 1 chunks [] (gives reply) 7 empty_store).0.0

abbrev called_off : List TaskEvent
called_off = (send_stream clock hello 0 1 chunks cancel_it (gives reply) 7 empty_store).0.0

carried :
    (es : List TaskEvent) (e : TaskEvent)
    → OneLine (letter e ∷ [])
    → by_letter es (letter e ∷ []) ≡ item_of (sent_event (letters es) e)
    → Carries (letters es) e
unfolding max_event_bytes
carried es e o d = record {
  bytes = letter e ∷ [];
  encoded = refl;
  one_line = o;
  fits = omega arith;
  not_empty = refl;
  decoded = d;
}

answered-CarriesAll : CarriesAll (letters answered) answered
unfolding send_stream start evict write_task Store.apply_all is_terminal finish complete settle
    stamped Stream.stream_events Stream.chunk_events Stream.closing_events Stream.closing_artifact
    sent_event sent_status sent_message sent_artifact sent_part text_part item_of bytes_eq
answered-CarriesAll = (
  carried answered _ (refl, refl, tt) refl,
  (
    carried answered _ (refl, refl, tt) refl,
    (
      carried answered _ (refl, refl, tt) refl,
      (carried answered _ (refl, refl, tt) refl, (carried answered _ (refl, refl, tt) refl, tt)),
    ),
  ),
)

called_off-CarriesAll : CarriesAll (letters called_off) called_off
unfolding send_stream start evict write_task Store.apply_all is_terminal finish complete settle
    stamped Stream.stream_events Stream.chunk_events Stream.closing_events Stream.closing_artifact
    sent_event sent_status sent_message sent_artifact sent_part text_part item_of bytes_eq
    Store.apply cancel expire expire_one evictable bring_down max_tasks_of insert mem has_failed
called_off-CarriesAll = (
  carried called_off _ (refl, refl, tt) refl,
  (
    carried called_off _ (refl, refl, tt) refl,
    (carried called_off _ (refl, refl, tt) refl, (carried called_off _ (refl, refl, tt) refl, tt)),
  ),
)

send_stream-answer_example :
    client_gets (letters answered) clock hello 0 1 chunks [] (gives reply) 7 empty_store
    ≡ answer (letters answered) chunks (gives reply)
unfolding start evict write_task Store.apply_all is_terminal
send_stream-answer_example =
    send_stream-answer (letters answered) clock hello 0 1 chunks [] (gives reply) 7 empty_store refl
      answered-CarriesAll

send_stream-canceled_example :
    client_gets (letters called_off) clock hello 0 1 chunks cancel_it (gives reply) 7 empty_store
    ≡ (
      fails (
          task_failed
            (before_end
              (letters called_off)
              clock
              hello
              0
              1
              chunks
              cancel_it
              (gives reply)
              7
              empty_store).status.state
            (plain_message
              (letters called_off)
              (before_end
                (letters called_off)
                clock
                hello
                0
                1
                chunks
                cancel_it
                (gives reply)
                7
                empty_store).status.message)),
      chunks,
    )
unfolding start evict write_task Store.apply_all Store.apply cancel expire expire_one evictable
    bring_down max_tasks_of insert mem has_failed is_terminal
send_stream-canceled_example =
    send_stream-canceled (letters called_off) clock hello 0 1 chunks cancel_it (gives reply) 7
      empty_store refl called_off-CarriesAll

abbrev results : List Bytes
results = codes "{}" ∷ codes "[1]" ∷ []

abbrev stream : Reader
stream = record { rest = frames results; end = eof; bom_done = false }

scan-frames_example :
    scan 3 64 stream
    ≡ (map (λ p. record { kind = []; content = p; id = []; retry = [] }) results, some eof)
scan-frames_example = scan-frames 64 results stream refl refl (
  ((refl, refl, (refl, refl, tt)), omega arith),
  (((refl, refl, (refl, refl, (refl, refl, tt))), omega arith), tt),
)

next_with-Advances_example : Advances (length stream.rest) (next_with 64 stream)
next_with-Advances_example = next_with-Advances 64 stream
