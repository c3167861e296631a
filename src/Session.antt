-- ===== src/Session.antt =====
-- session.go: one conversation. A method runs under the session's mutex and is one step here; its
-- clock reading and its random text are arguments. Deep copies are copies of values.
pub mod Steps
pub mod Trimming
pub mod Saved
pub mod Keys
use mathlib.Core.Option
use golm.Common.{
  ℕ, zero, suc, ◌+◌, ◌%◌, Bool, true, false, Option, none, some, List, [], ◌∷◌, ◌++◌, map, Bytes,
  bytes_eq, ℤ, pos, negsuc, int_mod, le_zero, leb, ◌==◌, if◌then◌else◌, is_empty, length, take,
  drop,
}
use golm.Usage.{Usage, no_usage}
use golm.Usage
use golm.Message.{Message}
use golm.History.{Call, panic, returns, user_boundary}

-- The map of states, by key; a missing map is the empty one.
abbrev pub States : Type 0
States = List (Bytes × Bytes)

pub record Session : Type 0 where
  pub id : Bytes
  pub parent : Bytes
  pub title : Bytes
  pub created : ℕ
  pub updated : ℕ
  pub rev : ℕ
  pub history : List Message
  pub state : States
  pub usage : Usage
  pub running : Bool

-- `rev` is a `uint64`.
abbrev pub next_rev : ℕ → ℕ
next_rev r = (r + 1) % int_mod

unfoldable pub new_session : Bytes → ℕ → Session
new_session random now = record {
  id = random;
  parent = [];
  title = [];
  created = now;
  updated = now;
  rev = 0;
  history = [];
  state = [];
  usage = no_usage;
  running = false;
}

-- `idLocked`: the first use mints an id. The zero time is 0.
unfoldable pub with_id : Bytes → ℕ → Session → Session
with_id random now s =
    if is_empty s.id
    then record s { id = random; created = if s.created == 0 then now else s.created }
    else s

unfoldable pub set_title : Bytes → ℕ → Session → Session
set_title title now s = record s { title = title; updated = now }

unfoldable pub append : List Message → ℕ → Session → Session
append msgs now s = record s { history = s.history ++ msgs; updated = now }

cut : Call (Option ℕ) → Session → Call Session
cut panic s = panic
cut (returns none) s = returns s
cut (returns (some start)) s =
    returns (record s { history = drop start s.history; rev = next_rev s.rev })

unfoldable pub trim : ℤ → Session → Call Session
unfolding cut
trim keep_last s =
    if le_zero keep_last
    then returns (record s { history = []; rev = next_rev s.rev })
    else cut (user_boundary s.history keep_last) s

drop_first : ℕ → Session → Session
drop_first n s =
    if leb (length s.history) n
    then record s { history = []; rev = next_rev s.rev }
    else record s { history = drop n s.history; rev = next_rev s.rev }

unfoldable pub drop_before : ℤ → Session → Session
unfolding drop_first
drop_before (pos zero) s = s
drop_before (pos (suc n)) s = drop_first (suc n) s
drop_before (negsuc n) s = s

unfoldable pub rollback : ℤ → ℕ → Session → Session
rollback (negsuc n) now s = s
rollback (pos base) now s =
    if length s.history == base + 1
    then record s { history = take base s.history; updated = now; rev = next_rev s.rev }
    else s

unfoldable pub lookup : Bytes → States → Option Bytes
lookup k [] = none
lookup k ((j, v) ∷ m) = if bytes_eq j k then some v else lookup k m

unfoldable pub put : Bytes → Bytes → States → States
put k v [] = (k, v) ∷ []
put k v ((j, w) ∷ m) = if bytes_eq j k then (j, v) ∷ m else (j, w) ∷ put k v m

unfoldable pub delete : Bytes → States → States
delete k [] = []
delete k ((j, w) ∷ m) = if bytes_eq j k then delete k m else (j, w) ∷ delete k m

-- `SetState`: `none` is a value that encoding/json does not print, and the call's error.
unfoldable pub set_state : Bytes → Option Bytes → ℕ → Session → Option Session
set_state key none now s = none
set_state key (some b) now s =
    some (record s { state = put key b s.state; updated = now; rev = next_rev s.rev })

-- `GetState`: absent, or present with what encoding/json makes of it.
unfoldable pub get_state : {T : Type 0} → (Bytes → Option T) → Bytes → Session → Option (Option T)
get_state unmarshal key s = Option.map unmarshal (lookup key s.state)

unfoldable pub delete_state : Bytes → ℕ → Session → Session
delete_state key now s = elim (lookup key s.state) [
  | none ↦ s
  | some v ↦ record s { state = delete key s.state; updated = now; rev = next_rev s.rev }
]

unfoldable pub state_keys : Session → List Bytes
state_keys s = map (λ e. e.0) s.state

unfoldable pub add_usage : Usage → Session → Session
add_usage u s = record s { usage = Usage.add s.usage u }

-- The compare-and-swap of `acquire`.
unfoldable pub acquire : Session → Session × Bool
acquire s = if s.running then (s, false) else (record s { running = true }, true)

unfoldable pub release : Session → Session
release s = record s { running = false }

pub record SessionData : Type 0 where
  pub id : Bytes
  pub parent : Bytes
  pub title : Bytes
  pub created : ℕ
  pub updated : ℕ
  pub history : List Message
  pub state : States
  pub usage : Usage

-- `Snapshot` mints the id of a session that has none, so the session may change too.
unfoldable pub snapshot : Bytes → ℕ → Session → SessionData × Session
snapshot random now s =
    let t = with_id random now s in
    (
      record {
        id = t.id;
        parent = t.parent;
        title = t.title;
        created = t.created;
        updated = t.updated;
        history = t.history;
        state = t.state;
        usage = t.usage;
      },
      t,
    )

-- `SessionData.Session`.
unfoldable pub session_of : Bytes → ℕ → SessionData → Session
session_of random now d = record {
  id = if is_empty d.id then random else d.id;
  parent = d.parent;
  title = d.title;
  created = if d.created == 0 then now else d.created;
  updated = d.updated;
  rev = 0;
  history = d.history;
  state = d.state;
  usage = d.usage;
  running = false;
}
