-- ===== src/Samples/Streams.antt =====
-- Events on a bus and in the ring of a hub.
use golm.Common.{◌≡◌, refl, true, false, List, [], ◌∷◌, codes, arith}
use golm.History.{returns}
use golm.Bus
use golm.Bus.{
  new_bus, Op, subscribes, unsubscribes, publishes, closes, receives, publish, write, Heap,
}
use golm.Bus.Safety.{IsSafe, Safely, apply_all-Safely, publish-Delivered}
use golm.Bus.Delivery.{Delivered}
use golm.Hub
use golm.Hub.{new_ring, after, publish_all}
use golm.Hub.Replay.{InOrder, Replays, after-publish_all}

abbrev done : Bus.Event
done = record {
  topic = codes "agent";
  agent = codes "agent";
  kind = codes "done";
  content = [];
  origin = [];
}

abbrev nothing : Heap
nothing = λ j. record { queue = []; capacity = 0; is_open = false }

abbrev empty_bus : Bus.State
empty_bus = record { bus = new_bus; heap = nothing; fresh = 0 }

empty_bus-IsSafe : IsSafe empty_bus
unfolding new_bus
empty_bus-IsSafe = record { live = tt; counted = omega arith; shut = λ _. refl }

abbrev life : List Op
life =
    subscribes (codes "*")
    ∷ publishes done
    ∷ receives 0
    ∷ unsubscribes 0
    ∷ unsubscribes 0
    ∷ closes
    ∷ closes
    ∷ publishes done
    ∷ []

apply_all-Safely_example : Safely (Bus.apply_all life empty_bus)
apply_all-Safely_example = apply_all-Safely life empty_bus empty_bus-IsSafe

-- One subscriber of everything, with room.
abbrev heard : Bus.State
heard = record {
  bus = record {
    subs = record { id = 0; topic = []; ch = 0 } ∷ [];
    next_id = 1;
    closed = false;
    dropped = 0;
  };
  heap = λ j. record { queue = []; capacity = 64; is_open = true };
  fresh = 1;
}

heard-IsSafe : IsSafe heard
heard-IsSafe = record { live = (refl, omega arith, tt, tt); counted = omega arith; shut = λ c. cc }

publish-Delivered_example :
    (t : Bus.State) × (publish done heard ≡ returns t)
    × (t.bus.subs ≡ heard.bus.subs)
    × Delivered done heard.heap heard.bus.subs 0 t.heap t.bus.dropped
publish-Delivered_example = publish-Delivered done heard heard-IsSafe refl

abbrev note : Hub.Event
note = record { id = 0; topic = codes "t"; origin = []; agent = []; kind = []; content = [] }

new_ring-InOrder : InOrder (new_ring 2)
unfolding new_ring
new_ring-InOrder = record { older = 0; numbered = tt; last = refl; fits = omega arith }

abbrev notes : List Hub.Event
notes = note ∷ note ∷ note ∷ []

after-publish_all_example :
    Replays (publish_all notes (new_ring 2)) 1 (after 1 (publish_all notes (new_ring 2)))
unfolding new_ring publish_all Hub.add Hub.stamped Hub.newest
after-publish_all_example =
    after-publish_all notes (new_ring 2) 1 (omega arith) new_ring-InOrder (omega arith)
      (omega arith)
