-- ===== src/A2a/Stream.antt =====
-- a2a/taskstore.go: the events of a task that is streamed (`runStream`), and the broker that hands
-- them to the subscribers of a task that runs detached. A subscriber's channel is a place in a
-- heap, by the id of the subscription; a broker's methods are steps under its mutex.
pub mod Following
use golm.Common.{
  ℕ, zero, suc, ◌+◌, ◌-◌, Bool, true, false, not, Option, none, some, List, [], ◌∷◌, ◌++◌, Bytes, ℤ,
  pos, negsuc, ltb, ◌==◌, if◌then◌else◌, length, drop, is_empty,
}
use golm.A2a.{
  TaskState, working, is_terminal, Part, text_part, texts_of, TaskStatus, Artifact, Task,
}

pub data TaskEvent : Type 0 where
  status_event : TaskStatus → Bool → TaskEvent
  artifact_event : Artifact → Bool → Bool → TaskEvent

-- The chunks of text that the handler emits, the first of which starts the artifact.
unfoldable pub chunk_events : ℕ → Bool → List Bytes → List TaskEvent
chunk_events id first [] = []
chunk_events id first (t ∷ ts) =
    artifact_event (record { artifact_id = id; parts = text_part t ∷ [] }) (not first) false
    ∷ chunk_events id false ts

unfoldable pub closing_artifact : List Artifact → List TaskEvent
closing_artifact [] = []
closing_artifact (a ∷ as') = artifact_event a false true ∷ []

-- The end of `runStream`, on the task as `fail` or `complete` left it.
unfoldable pub closing_events : Bool → Task → List TaskEvent
unfolding closing_artifact
closing_events true t = status_event t.status true ∷ []
closing_events false t = closing_artifact t.artifacts ++ status_event t.status true ∷ []

-- `runStream`: what it tells the sink, whose errors it only hands on to the handler.
unfoldable pub stream_events : ℕ → Bytes → List Bytes → Bool → Task → List TaskEvent
unfolding chunk_events closing_events
stream_events id now chunks erred t =
    status_event (record { state = working; message = none; timestamp = now }) false
    ∷ (chunk_events id true chunks ++ closing_events erred t)

pub record Sub : Type 0 where
  pub queue : List TaskEvent
  pub is_open : Bool
  pub overflow : Bool

pub record Broker : Type 0 where
  pub max : ℕ
  pub buf : List TaskEvent
  pub subs : List ℕ
  pub next_id : ℕ
  pub done : Bool
  -- The channels, of the subscriptions that were ever made.
  pub heap : ℕ → Sub

abbrev capacity : ℕ
capacity = 64

unfoldable pub max_of : ℤ → ℕ
max_of (pos (suc n)) = suc n
max_of _ = 4096

abbrev pub fresh_sub : Sub
fresh_sub = record { queue = []; is_open = true; overflow = false }

unfoldable pub new_broker : ℤ → Broker
unfolding max_of
new_broker max = record {
  max = max_of max;
  buf = [];
  subs = [];
  next_id = 0;
  done = false;
  heap = λ i. fresh_sub;
}

unfoldable pub newest : ℕ → List TaskEvent → List TaskEvent
newest max l = if ltb max (length l) then drop (length l - max) l else l

abbrev pub write_sub : (ℕ → Sub) → ℕ → Sub → ℕ → Sub
write_sub h i x = λ j. if i == j then x else h j

abbrev pub has_room : Sub → Bool
has_room x = ltb (length x.queue) capacity

-- One round of the loop of `publish`: sent, or the subscriber is cut off. The ids that stay are
-- collected.
unfoldable pub offer : TaskEvent → ℕ → (ℕ → Sub) → ℕ → Sub
offer ev i h =
    if has_room (h i)
    then write_sub h i (record (h i) { queue = (h i).queue ++ ev ∷ [] })
    else write_sub h i (record (h i) { is_open = false; overflow = true })

unfoldable pub offer_all : TaskEvent → List ℕ → (ℕ → Sub) → List ℕ × (ℕ → Sub)
unfolding offer
offer_all ev [] h = ([], h)
offer_all ev (i ∷ is) h =
    let (left, h') = offer_all ev is (offer ev i h) in
    (if has_room (h i) then i ∷ left else left, h')

unfoldable pub publish : TaskEvent → Broker → Broker
unfolding newest
publish ev b =
    let (left, h) = offer_all ev b.subs b.heap in
    record b { buf = newest b.max (b.buf ++ ev ∷ []); subs = left; heap = h }

unfoldable pub close_subs : List ℕ → (ℕ → Sub) → ℕ → Sub
close_subs [] h = h
close_subs (i ∷ is) h = close_subs is (write_sub h i (record (h i) { is_open = false }))

unfoldable pub close : Broker → Broker
close b = if b.done then b else record b { done = true; subs = []; heap = close_subs b.subs b.heap }

-- `subscribe`: what is replayed, and the subscription, which is closed at once on a broker that is
-- done; there it counts an id only for its place in the heap.
unfoldable pub subscribe : Broker → (List TaskEvent × ℕ) × Broker
subscribe b =
    if b.done
    then (
      (b.buf, b.next_id),
      record b {
        next_id = suc b.next_id;
        heap = write_sub b.heap b.next_id (record fresh_sub { is_open = false });
      },
    )
    else (
      (b.buf, b.next_id),
      record b {
        subs = b.next_id ∷ b.subs;
        next_id = suc b.next_id;
        heap = write_sub b.heap b.next_id fresh_sub;
      },
    )

unfoldable pub mem : ℕ → List ℕ → Bool
mem i [] = false
mem i (j ∷ l) = let rest = mem i l in if j == i then true else rest

unfoldable pub remove : ℕ → List ℕ → List ℕ
remove i [] = []
remove i (j ∷ l) = let rest = remove i l in if j == i then rest else j ∷ rest

-- The function that `subscribe` returns.
unfoldable pub unsubscribe : ℕ → Broker → Broker
unfolding mem remove
unsubscribe i b =
    if mem i b.subs
    then record b {
      subs = remove i b.subs;
      heap = write_sub b.heap i (record (b.heap i) { is_open = false });
    }
    else b

-- A subscriber takes the oldest event of its channel, if there is one.
unfoldable pub receive : ℕ → Broker → Option TaskEvent × Broker
receive i b = elim (b.heap i).queue [
  | [] ↦ (none, b)
  | e ∷ q ↦ (some e, record b { heap = write_sub b.heap i (record (b.heap i) { queue = q }) })
]

pub data Op : Type 0 where
  publishes : TaskEvent → Op
  closes : Op
  subscribes : Op
  unsubscribes : ℕ → Op
  receives : ℕ → Op

unfoldable pub apply : Op → Broker → Broker
apply (publishes ev) b = publish ev b
apply closes b = close b
apply subscribes b = (subscribe b).1
apply (unsubscribes i) b = unsubscribe i b
apply (receives i) b = (receive i b).1
