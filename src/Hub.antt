-- ===== src/Hub.antt =====
-- netbus/hub.go: the ring of recent events of a hub, from which a subscriber that comes back is
-- replayed what it missed. The cached wire form of an event is left out; a count is an `int64`.
pub mod Replay
use golm.Common.{
  ℕ, ◌-◌, Bool, ◌||◌, List, [], ◌∷◌, ◌++◌, Bytes, codes, bytes_eq, contains, is_empty, Int64,
  add_int, lt_int, ltb, if◌then◌else◌, length, drop,
}

pub record Event : Type 0 where
  pub id : Int64
  pub topic : Bytes
  pub origin : Bytes
  pub agent : Bytes
  pub kind : Bytes
  pub content : Bytes

pub record Ring : Type 0 where
  pub seq : Int64
  pub buf : List Event
  pub cap : ℕ

unfoldable pub new_ring : ℕ → Ring
new_ring c = record { seq = 0; buf = []; cap = c }

-- The newest events, as many as fit.
unfoldable pub newest : ℕ → List Event → List Event
newest cap l = if ltb cap (length l) then drop (length l - cap) l else l

unfoldable pub add : Event → Ring → Ring
unfolding newest
add ev r = record r {
  seq = add_int r.seq 1;
  buf = newest r.cap (r.buf ++ record ev { id = add_int r.seq 1 } ∷ []);
}

unfoldable pub newer : Int64 → List Event → List Event
newer id [] = []
newer id (e ∷ l) = let rest = newer id l in if lt_int id e.id then e ∷ rest else rest

unfoldable pub after : Int64 → Ring → List Event
unfolding newer
after id r = newer id r.buf

-- What `handlePublish` puts into the ring: an event without an origin is an outsider's.
unfoldable pub stamped : Event → Event
stamped ev = if is_empty ev.origin then record ev { origin = codes "external" } else ev

unfoldable pub publish_all : List Event → Ring → Ring
unfolding stamped
publish_all [] r = r
publish_all (ev ∷ evs) r = publish_all evs (add (stamped ev) r)

-- The part of the replay that the subscriber asked for; no topics are all of them.
unfoldable pub wanted : List Bytes → List Event → List Event
wanted topics [] = []
wanted topics (e ∷ l) =
    let rest = wanted topics l in
    if is_empty topics || contains topics e.topic then e ∷ rest else rest
