-- ===== src/Bus.antt =====
-- bus.go: the event bus of a process. A channel is a place in a heap, since a subscriber keeps it
-- after the bus has let it go; sending on a closed channel and closing one twice are Go's panics.
-- The map of subscriptions is a list in some order. Each method is one step under the mutex; a
-- publish holds it for reading only, and publishes and reads that overlap come one after another.
pub mod Live
pub mod Delivery
pub mod Safety
use golm.Common.{
  ℕ, zero, suc, ◌+◌, ◌%◌, Bool, true, false, ◌&&◌, ◌||◌, not, Option, none, some, List, [], ◌∷◌,
  ◌++◌, Bytes, codes, bytes_eq, is_empty, ltb, ◌==◌, if◌then◌else◌, length, int_mod,
}
use golm.History.{Call, panic, returns}

-- What an event carries besides its topic is one text here.
pub record Event : Type 0 where
  pub topic : Bytes
  pub agent : Bytes
  pub kind : Bytes
  pub content : Bytes
  pub origin : Bytes

pub record Channel : Type 0 where
  pub queue : List Event
  pub capacity : ℕ
  pub is_open : Bool

abbrev pub Heap : Type 0
Heap = ℕ → Channel

abbrev pub write : Heap → ℕ → Channel → Heap
write h c x = λ j. if c == j then x else h j

pub record Subscription : Type 0 where
  pub id : ℕ
  pub topic : Bytes
  pub ch : ℕ

pub record Bus : Type 0 where
  pub subs : List Subscription
  pub next_id : ℕ
  pub closed : Bool
  pub dropped : ℕ

-- The bus and the memory around it; `fresh` is the next free place.
pub record State : Type 0 where
  pub bus : Bus
  pub heap : Heap
  pub fresh : ℕ

unfoldable pub new_bus : Bus
new_bus = record { subs = []; next_id = 0; closed = false; dropped = 0 }

abbrev pub bind : {A B : Type 0} → Call A → (A → Call B) → Call B
bind panic k = panic
bind (returns a) k = k a

-- `close(ch)`.
unfoldable pub close_channel : ℕ → Heap → Call Heap
close_channel c h =
    if (h c).is_open then returns (write h c (record (h c) { is_open = false })) else panic

-- `select { case ch <- ev: default: }`, and whether it was sent.
unfoldable pub send : Event → ℕ → Heap → Call (Heap × Bool)
send ev c h =
    if (h c).is_open
    then (if ltb (length (h c).queue) (h c).capacity
        then returns (write h c (record (h c) { queue = (h c).queue ++ ev ∷ [] }), true)
        else returns (h, false))
    else panic

unfoldable pub matches : Bytes → Bytes → Bool
matches topic of_event = is_empty topic || (bytes_eq topic (codes "*") || bytes_eq topic of_event)

unfoldable pub subscribe : Bytes → State → State
subscribe topic s =
    if s.bus.closed
    then record s {
      heap = write s.heap s.fresh (record { queue = []; capacity = 0; is_open = false });
      fresh = suc s.fresh;
    }
    else record {
      bus = record (s.bus) {
        subs = record { id = s.bus.next_id; topic = topic; ch = s.fresh } ∷ s.bus.subs;
        next_id = suc s.bus.next_id;
      };
      heap = write s.heap s.fresh (record { queue = []; capacity = 64; is_open = true });
      fresh = suc s.fresh;
    }

-- The entry under an id, and the others.
unfoldable pub take_out : ℕ → List Subscription → Option (Subscription × List Subscription)
take_out id [] = none
take_out id (x ∷ xs) =
    let rest = take_out id xs in
    if x.id == id then some (x, xs) else elim rest [ none ↦ none | some (y, ys) ↦ some (y, x ∷ ys) ]

-- The function that `Subscribe` returns.
unfoldable pub unsubscribe : ℕ → State → Call State
unsubscribe id s = elim (take_out id s.bus.subs) [
  | none ↦ returns s
  | some (x, xs) ↦
      bind (close_channel x.ch s.heap)
        (λ h. returns (record s { bus = record (s.bus) { subs = xs }; heap = h }))
]

sent : ℕ → Call (Heap × Bool) → Call (Heap × ℕ)
sent d panic = panic
sent d (returns (h, true)) = returns (h, d)
sent d (returns (h, false)) = returns (h, (d + 1) % int_mod)

unfoldable pub offer : Event → Subscription → Heap × ℕ → Call (Heap × ℕ)
unfolding sent
offer ev x (h, d) = if matches x.topic ev.topic then sent d (send ev x.ch h) else returns (h, d)

unfoldable pub deliver : Event → List Subscription → Heap × ℕ → Call (Heap × ℕ)
deliver ev [] m = returns m
deliver ev (x ∷ xs) m = bind (offer ev x m) (deliver ev xs)

unfoldable pub publish : Event → State → Call State
publish ev s =
    if s.bus.closed
    then returns s
    else bind (deliver ev s.bus.subs (s.heap, s.bus.dropped))
        (λ (h, d). returns (record s { bus = record (s.bus) { dropped = d }; heap = h }))

unfoldable pub close_all : List Subscription → Heap → Call Heap
close_all [] h = returns h
close_all (x ∷ xs) h = bind (close_channel x.ch h) (close_all xs)

unfoldable pub close : State → Call State
close s =
    if s.bus.closed
    then returns s
    else bind (close_all s.bus.subs s.heap)
        (λ h. returns (record s { bus = record (s.bus) { subs = []; closed = true }; heap = h }))

-- What a receiver does: it takes the oldest event of its channel, if there is one.
unfoldable pub receive : ℕ → State → State
receive c s = elim (s.heap c).queue [
  | [] ↦ s
  | e ∷ q ↦ record s { heap = write s.heap c (record (s.heap c) { queue = q }) }
]

-- Calls of any goroutines, in the order of the mutex.
pub data Op : Type 0 where
  subscribes : Bytes → Op
  unsubscribes : ℕ → Op
  publishes : Event → Op
  closes : Op
  receives : ℕ → Op

unfoldable pub apply : Op → State → Call State
apply (subscribes t) s = returns (subscribe t s)
apply (unsubscribes id) s = unsubscribe id s
apply (publishes ev) s = publish ev s
apply closes s = close s
apply (receives c) s = returns (receive c s)

unfoldable pub apply_all : List Op → State → Call State
apply_all [] s = returns s
apply_all (o ∷ os) s = bind (apply o s) (apply_all os)
