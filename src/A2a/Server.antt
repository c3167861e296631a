-- ===== src/A2a/Server.antt =====
-- a2a/taskstore.go, `SendStream`: what its sink, the response of a2a/server.go, is told.
pub mod Answering
use golm.Common.{ℕ, Bool, true, false, List, [], ◌∷◌, map, Bytes, add_int}
use golm.A2a.{Message, Task}
use golm.A2a.Store.{Clockwork, Store, Outcome, gives, errs, Op, start, finish, end, apply_all}
use golm.A2a.Stream.{TaskEvent, status_event, artifact_event, stream_events}

unfoldable pub erred : Outcome → Bool
erred (gives parts) = false
erred (errs why) = true

-- `SendStream`: `others` is what other goroutines do while the handler runs, which emits `chunks`;
-- `begun` is when the first status is written. What the sink was told, the task and the store.
unfoldable pub send_stream :
    Clockwork
    → Message
    → ℕ
    → ℕ
    → List Bytes
    → List Op
    → Outcome
    → ℕ
    → Store
    → (List TaskEvent × Task) × Store
unfolding stream_events erred finish end start
send_stream cw msg now begun chunks others o later s =
    let id = add_int s.seq 1 in
    let s' = finish cw id o later (apply_all cw others (start cw msg now s)) in
    let t = s'.objects id in
    ((stream_events id (cw.format begun) chunks (erred o) t, t), end cw id s')
