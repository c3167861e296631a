-- ===== src/A2a/Store.antt =====
-- a2a/taskstore.go: the tasks of a server. A task is an object that its handler and the map share,
-- so the objects are a heap by id and the map is the list of its keys. A task is invisible before
-- `begin`, so `newTask` and `begin` are one step. Every other step is a section under the mutex.
-- Times are in nanoseconds; how package time prints and reads them is an argument, and so is
-- the order that sort.Slice brings the candidates for eviction into.
pub mod Life
pub mod Eviction
use golm.Common.{
  ℕ, zero, suc, ◌+◌, ◌*◌, ◌/◌, Bool, true, false, not, ◌&&◌, Option, none, some, List, [], ◌∷◌, map,
  Bytes, codes, ℤ, pos, negsuc, Int64, add_int, ltb, leb, ◌==◌, if◌then◌else◌, length,
}
use golm.A2a.{
  TaskState, submitted, working, completed, failed, canceled, is_terminal, Part, text_part, Message,
  TaskStatus, Artifact, Task,
}

pub record Clockwork : Type 0 where
  -- `UTC().Format(time.RFC3339)` and `time.Parse`.
  pub format : ℕ → Bytes
  pub parse : Bytes → Option ℕ
  pub sort : List (ℕ × ℕ) → List (ℕ × ℕ)

-- What eviction changes: the keys of `tasks`, and `terminalAt`.
pub record Shelf : Type 0 where
  pub tasks : List ℕ
  pub terminal_at : List (ℕ × ℕ)

pub record Store : Type 0 where
  pub max_age : ℤ
  pub max_tasks : ℤ
  pub objects : ℕ → Task
  pub shelf : Shelf
  pub in_flight : List ℕ
  pub brokers : List ℕ
  pub seq : Int64

unfoldable pub mem : ℕ → List ℕ → Bool
mem i [] = false
mem i (j ∷ l) = let rest = mem i l in if j == i then true else rest

unfoldable pub remove : ℕ → List ℕ → List ℕ
remove i [] = []
remove i (j ∷ l) = let rest = remove i l in if j == i then rest else j ∷ rest

-- `m[i] = …` on the keys.
unfoldable pub insert : ℕ → List ℕ → List ℕ
unfolding mem
insert i l = if mem i l then l else i ∷ l

unfoldable pub lookup : ℕ → List (ℕ × ℕ) → Option ℕ
lookup i [] = none
lookup i ((j, t) ∷ l) = let rest = lookup i l in if j == i then some t else rest

unfoldable pub forget : ℕ → List (ℕ × ℕ) → List (ℕ × ℕ)
forget i [] = []
forget i ((j, t) ∷ l) = let rest = forget i l in if j == i then rest else (j, t) ∷ rest

unfoldable pub note : ℕ → ℕ → List (ℕ × ℕ) → List (ℕ × ℕ)
unfolding forget
note i t l = (i, t) ∷ forget i l

abbrev second : ℕ
second = 1000000000

unfoldable pub truncated : ℕ → ℕ
truncated now = now / second * second

max_age_of : ℤ → ℕ
max_age_of (pos (suc n)) = suc n
max_age_of _ = 3600 * second

unfoldable pub max_tasks_of : ℤ → ℕ
max_tasks_of (pos (suc n)) = suc n
max_tasks_of _ = 1024

unfoldable pub write_task : (ℕ → Task) → ℕ → Task → ℕ → Task
write_task h i t j = if i == j then t else h j

module _ (cw : Clockwork) where
  -- `terminalTime`, which keeps what it has read.
  terminal_time : (ℕ → Task) → ℕ → Shelf → Option ℕ × Shelf
  terminal_time h i sh = elim (lookup i sh.terminal_at) [
    | some t ↦ (some t, sh)
    | none ↦ elim (cw.parse (h i).status.timestamp) [
      | none ↦ (none, sh)
      | some t ↦ (some t, record sh { terminal_at = note i t sh.terminal_at })
    ]
  ]

  deleted : ℕ → Shelf → Shelf
  deleted i sh = record sh { tasks = remove i sh.tasks; terminal_at = forget i sh.terminal_at }

  -- A task that may go: no handler runs it, and it has come to its end.
  unfoldable pub evictable : (ℕ → Task) → List ℕ → ℕ → Bool
  evictable h busy i = not (mem i busy) && is_terminal (h i).status.state

  too_old : ℕ → ℕ → ℕ → Option ℕ × Shelf → Shelf
  unfolding deleted
  too_old now age i (none, sh) = sh
  too_old now age i (some t, sh) = if ltb (t + age) now then deleted i sh else sh

  unfoldable pub expire_one : (ℕ → Task) → List ℕ → ℕ → ℕ → ℕ → Shelf → Shelf
  unfolding terminal_time too_old evictable
  expire_one h busy now age i sh =
      if evictable h busy i then too_old now age i (terminal_time h i sh) else sh

  -- The first loop, over the keys.
  unfoldable pub expire : (ℕ → Task) → List ℕ → ℕ → ℕ → List ℕ → Shelf → Shelf
  unfolding expire_one
  expire h busy now age [] sh = sh
  expire h busy now age (i ∷ is) sh = expire h busy now age is (expire_one h busy now age i sh)

  -- The candidates with their times; no time is the zero time.
  time_or_zero : Option ℕ → ℕ
  time_or_zero none = 0
  time_or_zero (some t) = t

  candidates : (ℕ → Task) → List ℕ → List ℕ → Shelf → List (ℕ × ℕ) × Shelf
  unfolding terminal_time time_or_zero evictable
  candidates h busy [] sh = ([], sh)
  candidates h busy (i ∷ is) sh =
      let (t, sh') = terminal_time h i sh in
      let (found, sh₁) = candidates h busy is sh' in
      let skipped = candidates h busy is sh in
      if evictable h busy i then ((i, time_or_zero t) ∷ found, sh₁) else skipped

  -- The last loop: the oldest go until the rest fits.
  drop_oldest : ℕ → List (ℕ × ℕ) → Shelf → Shelf
  unfolding deleted
  drop_oldest max [] sh = sh
  drop_oldest max ((i, t) ∷ is) sh =
      let rest = drop_oldest max is (deleted i sh) in if leb (length sh.tasks) max then sh else rest

  unfoldable pub bring_down : (ℕ → Task) → List ℕ → ℕ → Shelf → Shelf
  unfolding candidates drop_oldest
  bring_down h busy max sh =
      if leb (length sh.tasks) max
      then sh
      else (let (found, sh') = candidates h busy sh.tasks sh in drop_oldest max (cw.sort found) sh')

  -- `evictLocked`.
  unfoldable pub evict : ℕ → Store → Store
  unfolding expire bring_down max_age_of
  evict now s = record s {
    shelf =
        bring_down s.objects s.in_flight (max_tasks_of s.max_tasks)
          (expire s.objects s.in_flight now (max_age_of s.max_age) s.shelf.tasks s.shelf);
  }

  unfoldable pub stamped : TaskState → Option Message → ℕ → TaskStatus
  stamped st m now = record { state = st; message = m; timestamp = cw.format now }

  -- `newTask` and `begin`.
  unfoldable pub start : Message → ℕ → Store → Store
  unfolding evict stamped
  start msg now s =
      let id = add_int s.seq 1 in
      let t : Task = record {
        id = id;
        context_id = msg.context_id;
        status = stamped working none now;
        artifacts = [];
        history = msg ∷ [];
        kind = codes "task";
      } in
      evict now (record s {
        seq = id;
        objects = write_task s.objects id t;
        shelf = record (s.shelf) { tasks = insert id s.shelf.tasks };
        in_flight = insert id s.in_flight;
      })

  unfoldable pub settle : TaskStatus → List Artifact → ℕ → ℕ → Store → Store
  settle st outs i now s = record s {
    objects = write_task s.objects i (record (s.objects i) { status = st; artifacts = outs });
    shelf = record (s.shelf) { terminal_at = note i (truncated now) s.shelf.terminal_at };
  }

  -- `complete`.
  unfoldable pub complete : List Part → ℕ → ℕ → Store → Store
  unfolding settle stamped
  complete parts i now s =
      if is_terminal (s.objects i).status.state
      then s
      else settle (stamped completed none now) (record { artifact_id = i; parts = parts } ∷ []) i
          now s

  unfoldable pub failure : Bytes → Message
  failure why = record {
    role = codes "agent";
    parts = text_part why ∷ [];
    message_id = [];
    task_id = [];
    context_id = [];
    kind = codes "message";
  }

  -- `fail`.
  unfoldable pub fail : Bytes → ℕ → ℕ → Store → Store
  unfolding settle stamped failure
  fail why i now s =
      if is_terminal (s.objects i).status.state
      then s
      else settle (stamped failed (some (failure why)) now) (s.objects i).artifacts i now s

  -- `end`, and `finishAsync`, which also lets go of the broker.
  unfoldable pub end : ℕ → Store → Store
  end i s = record s { in_flight = remove i s.in_flight }

  unfoldable pub finish_async : ℕ → Store → Store
  finish_async i s = record s { in_flight = remove i s.in_flight; brokers = remove i s.brokers }

  unfoldable pub add_broker : ℕ → Store → Store
  add_broker i s = record s { brokers = insert i s.brokers }

  unfoldable pub get : ℕ → Store → Option Task
  get i s = if mem i s.shelf.tasks then some (s.objects i) else none

pub data CancelError : Type 0 where
  task_not_found : CancelError
  task_not_cancelable : Task → CancelError

pub data Canceled : Type 0 where
  -- The task, and whether a handler was interrupted.
  cancels : Task → Bool → Canceled
  refuses : CancelError → Canceled

pub data Outcome : Type 0 where
  gives : List Part → Outcome
  errs : Bytes → Outcome

pub data Op : Type 0 where
  starts : Message → ℕ → Op
  settles : ℕ → Outcome → ℕ → Op
  ends : ℕ → Op
  adds_broker : ℕ → Op
  finishes_async : ℕ → Op
  cancels_task : ℕ → ℕ → Op

module _ (cw : Clockwork) where
  -- `Cancel`.
  unfoldable pub cancel : ℕ → ℕ → Store → Store × Canceled
  unfolding stamped
  cancel i now s =
      if mem i s.shelf.tasks
      then (if is_terminal (s.objects i).status.state
          then (s, refuses (task_not_cancelable (s.objects i)))
          else (let t = record (s.objects i) { status = stamped cw canceled none now } in
              (record s { objects = write_task s.objects i t }, cancels t (mem i s.in_flight))))
      else (s, refuses task_not_found)

  -- What a handler's return does.
  unfoldable pub finish : ℕ → Outcome → ℕ → Store → Store
  finish i (gives parts) now s = complete cw parts i now s
  finish i (errs why) now s = fail cw why i now s

  -- Steps of any goroutines.
  unfoldable pub apply : Op → Store → Store
  unfolding finish
  apply (starts msg now) s = start cw msg now s
  apply (settles i o now) s = finish i o now s
  apply (ends i) s = end cw i s
  apply (adds_broker i) s = add_broker cw i s
  apply (finishes_async i) s = finish_async cw i s
  apply (cancels_task i now) s = (cancel i now s).0

  unfoldable pub apply_all : List Op → Store → Store
  apply_all [] s = s
  apply_all (o ∷ os) s = apply_all os (apply o s)

  -- `Send`: `others` is what other goroutines do while the handler runs.
  unfoldable pub send : Message → ℕ → List Op → Outcome → ℕ → Store → Task × Store
  unfolding finish
  send msg now others o later s =
      let id = add_int s.seq 1 in
      let t = finish id o later (apply_all others (start cw msg now s)) in
      (t.objects id, end cw id t)
