-- ===== src/A2a/Client.antt =====
-- a2a/client.go and the `StreamAssembler` of a2a/protocol.go: how a client reads the answer of a
-- remote agent. The wire is decoded by encoding/json and the event stream by internal/sse, so a
-- result is the value that was read, or what is skipped where neither reads one.
use golm.Common.{
  Bool, true, false, not, ◌&&◌, Option, none, some, List, [], ◌∷◌, ◌++◌, Bytes, if◌then◌else◌,
  is_empty,
}
use golm.A2a.{
  TaskState, input_required, auth_required, completed, failed, canceled, rejected, Part, Message,
  text_of, TaskStatus, Artifact, Task,
}

pub record Assembler : Type 0 where
  pub full : Bytes
  pub final : Bytes
  pub saw_delta : Bool
  pub saw_final : Bool

abbrev pub new_assembler : Assembler
new_assembler = record { full = []; final = []; saw_delta = false; saw_final = false }

unfoldable pub delta : Bytes → Bool → Assembler → Assembler
delta text append_chunk a = record a {
  full = (if append_chunk then a.full else []) ++ text;
  saw_delta = true;
}

unfoldable pub final_text : Bytes → Assembler → Assembler
final_text text a = record a { final = text; saw_final = true }

unfoldable pub result : Assembler → Bytes
result a =
    if a.saw_final && not (is_empty a.final)
    then a.final
    else (if a.saw_delta then a.full else a.final)

unfoldable pub parts_text : List Part → Bytes
parts_text [] = []
parts_text (p ∷ ps) = p.text ++ parts_text ps

-- What goes wrong in a call.
pub data CallError : Type 0 where
  -- "a2a: task %s: %s".
  task_failed : TaskState → Bytes → CallError
  rpc_error : Bytes → CallError
  read_error : Bytes → CallError
  no_result : CallError
  undecodable : CallError

unfoldable pub message_text : Option Message → Bytes
unfolding text_of
message_text none = []
message_text (some m) = text_of m

unfoldable pub has_failed : TaskState → Bool
has_failed failed = true
has_failed canceled = true
has_failed rejected = true
has_failed _ = false

unfoldable pub status_failure : TaskStatus → Option CallError
unfolding has_failed message_text
status_failure st =
    if has_failed st.state then some (task_failed st.state (message_text st.message)) else none

artifacts_text : List Artifact → Bytes
artifacts_text [] = []
artifacts_text (a ∷ as') = parts_text a.parts ++ artifacts_text as'

unfoldable pub task_text : Task → Bytes
unfolding artifacts_text message_text parts_text
task_text t =
    let text = artifacts_text t.artifacts in
    if is_empty text then message_text t.status.message else text

pub data Called (A : Type 0) : Type 0 where
  got : A → Called A
  fails : CallError → Called A

-- A result of the peer, by its "kind".
pub data Update : Type 0 where
  message_result : Message → Update
  task_result : Task → Update
  status_update : TaskStatus → Update
  artifact_update : Artifact → Bool → Bool → Update
  unknown : Update

unless_failed : TaskStatus → Bytes → Called Bytes
unfolding status_failure
unless_failed st text = elim (status_failure st) [ none ↦ got text | some e ↦ fails e ]

-- A result of "message/send", by its "kind": what does not say that it is a message is a task.
pub data Answer : Type 0 where
  message_answer : Message → Answer
  task_answer : Task → Answer
  unreadable : Answer

-- `SendMessage`, on the result of `call`, where no bytes are no answer.
unfoldable pub sent_text : Option Answer → Called Bytes
unfolding unless_failed task_text text_of
sent_text none = fails no_result
sent_text (some (message_answer m)) = got (text_of m)
sent_text (some (task_answer t)) = unless_failed t.status (task_text t)
sent_text (some unreadable) = fails undecodable

-- An event of the stream: nothing to read in it, an error of the scanner or of the peer, a result.
pub data Item : Type 0 where
  blank : Item
  broken : Bytes → Item
  peer_error : Bytes → Item
  update : Update → Item

is_settled : TaskState → Bool
is_settled completed = true
is_settled input_required = true
is_settled auth_required = true
is_settled _ = false

-- The state of the loop: the text so far, and what `onDelta` was given.
pub record Reading : Type 0 where
  pub asm : Assembler
  pub deltas : List Bytes

chunk : Bytes → Bool → Reading → Reading
unfolding delta
chunk text append_chunk r = record {
  asm = delta text append_chunk r.asm;
  deltas = r.deltas ++ text ∷ [];
}

-- One round of the loop of `SendMessageStream`, by the kind of the result: the error that it
-- returns, if any, and the state.
unfoldable pub read_update : Update → Reading → Option CallError × Reading
unfolding chunk status_failure final_text text_of task_text is_settled parts_text
read_update (message_result m) r = (none, chunk (text_of m) true r)
read_update (task_result t) r = elim (status_failure t.status) [
  | some e ↦ (some e, r)
  | none ↦ (
    none,
    record r { asm = if is_settled t.status.state then final_text (task_text t) r.asm else r.asm },
  )
]
read_update (status_update st) r = (status_failure st, r)
read_update (artifact_update a append_chunk last_chunk) r =
    let text = parts_text a.parts in
    (
      none,
      if last_chunk then record r { asm = final_text text r.asm } else chunk text append_chunk r,
    )
read_update unknown r = (none, r)

unfoldable pub read_item : Item → Reading → Option CallError × Reading
unfolding read_update
read_item blank r = (none, r)
read_item (broken e) r = (some (read_error e), r)
read_item (peer_error e) r = (some (rpc_error e), r)
read_item (update u) r = read_update u r

-- The loop, up to an error or the end of the stream.
unfoldable pub read_items : List Item → Reading → Option CallError × Reading
unfolding read_item
read_items [] r = (none, r)
read_items (i ∷ is) r =
    let (e, r') = read_item i r in
    let rest = read_items is r' in elim e [ none ↦ rest | some x ↦ (some x, r') ]

-- `SendMessageStream`, on the events of an answer that is a stream: what it returns, and what
-- `onDelta` was given.
unfoldable pub send_message_stream : List Item → Called Bytes × List Bytes
unfolding read_items result
send_message_stream is =
    let (e, r) = read_items is (record { asm = new_assembler; deltas = [] }) in
    (elim e [ none ↦ got (result r.asm) | some x ↦ fails x ], r.deltas)
