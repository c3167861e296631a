-- ===== src/Delegation.antt =====
-- delegation.go: the sub-agent sessions that an orchestrator keeps for its conversations. A
-- conversation and a slot are shared with the goroutines that hold them, so both are places in a
-- heap, by a number that is given out once, as are sessions. What runs under the orchestrator's
-- mutex, or the conversation's, is one step.
pub mod Keys
pub mod Order
pub mod Eviction
pub mod Holding
pub mod Ledger
pub mod Bounds
pub mod Exclusion
use golm.Common.{
  ℕ, zero, suc, ◌-◌, Bool, true, false, not, ◌&&◌, Option, none, some, List, [], ◌∷◌, ◌++◌, Bytes,
  bytes_eq, codes, ℤ, pos, negsuc, ltb, ◌==◌, if◌then◌else◌, length, is_empty,
}

pub record Slot : Type 0 where
  pub sess : ℕ
  -- `len(gate) > 0`, of a channel with one place.
  pub held : Bool

pub record Table : Type 0 where
  pub max : ℤ
  pub convs : List (Bytes × ℕ)
  pub order : List Bytes
  pub slots : ℕ → List (Bytes × ℕ)
  pub gates : ℕ → Slot
  pub fresh : ℕ

unfoldable pub find : Bytes → List (Bytes × ℕ) → Option ℕ
find id [] = none
find id ((k, c) ∷ m) = let rest = find id m in if bytes_eq k id then some c else rest

-- `delete(m, id)`.
unfoldable pub without : Bytes → List (Bytes × ℕ) → List (Bytes × ℕ)
without id [] = []
without id ((k, c) ∷ m) = let rest = without id m in if bytes_eq k id then rest else (k, c) ∷ rest

unfoldable pub max_conversations : ℤ → ℕ
max_conversations (pos (suc n)) = suc n
max_conversations _ = 128

unfoldable pub any_held : (ℕ → Slot) → List (Bytes × ℕ) → Bool
any_held gates [] = false
any_held gates ((agent, i) ∷ m) =
    let rest = any_held gates m in if (gates i).held then true else rest

-- `c.busy()`, of what a key names.
unfoldable pub busy : Table → Bytes → Bool
unfolding any_held find
busy t id = elim (find id t.convs) [ none ↦ false | some c ↦ any_held t.gates (t.slots c) ]

-- A round of the loop of `evictLocked`.
unfoldable pub evict_oldest : Bytes → List Bytes → Table → Table
unfolding busy without
evict_oldest oldest rest t =
    if busy t oldest
    then record t { order = rest ++ oldest ∷ [] }
    else record t { order = rest; convs = without oldest t.convs }

unfoldable pub evict_round : Table → Table
unfolding evict_oldest
evict_round t = elim t.order [ [] ↦ t | oldest ∷ rest ↦ evict_oldest oldest rest t ]

unfoldable pub evict_rounds : ℕ → ℕ → Table → Table
unfolding evict_round
evict_rounds zero limit t = t
evict_rounds (suc attempts) limit t =
    let rest = evict_rounds attempts limit (evict_round t) in
    if ltb limit (length t.order) then rest else t

-- `evictLocked`.
unfoldable pub evict : Table → Table
unfolding evict_rounds max_conversations
evict t = evict_rounds (length t.order) (max_conversations t.max) t

-- `touchLocked`.
unfoldable pub touch : Bytes → List Bytes → List Bytes
touch id [] = id ∷ []
touch id (v ∷ l) = let rest = touch id l in if bytes_eq v id then l ++ id ∷ [] else v ∷ rest

unfoldable pub write_slots : (ℕ → List (Bytes × ℕ)) → ℕ → List (Bytes × ℕ) → ℕ → List (Bytes × ℕ)
write_slots h c m j = if c == j then m else h j

unfoldable pub write_gate : (ℕ → Slot) → ℕ → Slot → ℕ → Slot
write_gate h i s j = if i == j then s else h j

-- A conversation that is not in the table is put at the end of it.
unfoldable pub added : Bytes → Table → Table
unfolding write_slots
added id t = record t {
  convs = (id, t.fresh) ∷ t.convs;
  order = t.order ++ id ∷ [];
  slots = write_slots t.slots t.fresh [];
  fresh = suc t.fresh;
}

-- `conversationFor`.
unfoldable pub conversation_for : Bytes → Table → ℕ × Table
unfolding find evict touch added
conversation_for id t = elim (find id t.convs) [
  | some c ↦ (c, record t { order = touch id t.order })
  | none ↦ (t.fresh, evict (added id t))
]

-- `newAgentSlot`, with a session of its own.
unfoldable pub new_slot : ℕ → Bytes → Table → Table
unfolding write_slots write_gate
new_slot c agent t = record t {
  slots = write_slots t.slots c ((agent, t.fresh) ∷ t.slots c);
  gates = write_gate t.gates t.fresh (record { sess = t.fresh; held = false });
  fresh = suc t.fresh;
}

-- `slot`.
unfoldable pub slot : ℕ → Bytes → Table → ℕ × Table
unfolding find new_slot
slot c agent t = elim (find agent (t.slots c)) [
  | some i ↦ (i, t)
  | none ↦ (t.fresh, new_slot c agent t)
]

-- The part of `sessionFor` before it waits for the slot.
unfoldable pub claim : Bytes → Bytes → Table → ℕ × Table
unfolding conversation_for slot
claim id agent t = let (c, t') = conversation_for id t in slot c agent t'

-- `acquire`, which goes on only when the gate is free, and `release`.
unfoldable pub acquire : ℕ → Table → Option Table
unfolding write_gate
acquire i t =
    if (t.gates i).held
    then none
    else some (record t { gates = write_gate t.gates i (record (t.gates i) { held = true }) })

unfoldable pub release : ℕ → Table → Table
unfolding write_gate
release i t = record t { gates = write_gate t.gates i (record (t.gates i) { held = false }) }

unfoldable pub drop_first : Bytes → List Bytes → List Bytes
drop_first id [] = []
drop_first id (v ∷ l) = let rest = drop_first id l in if bytes_eq v id then l else v ∷ rest

-- `Forget`.
unfoldable pub forget : Bytes → Table → Table
unfolding drop_first without
forget id t = record t { convs = without id t.convs; order = drop_first id t.order }

-- The slot that a name has, if it is held.
unfoldable pub holds : Table → ℕ → Bytes → Bool
unfolding find
holds t c name = elim (find name (t.slots c)) [ none ↦ false | some i ↦ (t.gates i).held ]

-- A round of the loop of `Restore`: a session that is not nil takes the slot of its name, which
-- nobody holds.
unfoldable pub restore_one : ℕ → Bytes × Option ℕ → Table → Table
unfolding holds without write_slots write_gate
restore_one c (name, none) t = t
restore_one c (name, some sess) t = if holds t c name then t else record t {
  slots = write_slots t.slots c ((name, t.fresh) ∷ without name (t.slots c));
  gates = write_gate t.gates t.fresh (record { sess = sess; held = false });
  fresh = suc t.fresh;
}

unfoldable pub restore_all : ℕ → List (Bytes × Option ℕ) → Table → Table
unfolding restore_one
restore_all c [] t = t
restore_all c (s ∷ ss) t = restore_all c ss (restore_one c s t)

-- `Restore`.
unfoldable pub restore : Bytes → List (Bytes × Option ℕ) → Table → Table
unfolding restore_all conversation_for
restore id sessions t =
    if is_empty id
    then t
    else (if is_empty sessions
        then t
        else (let (c, t') = conversation_for id t in restore_all c sessions t'))

pub data Op : Type 0 where
  claims : Bytes → Bytes → Op
  acquires : ℕ → Op
  releases : ℕ → Op
  forgets : Bytes → Op
  restores : Bytes → List (Bytes × Option ℕ) → Op

unfoldable pub or_waits : Table → Option Table → Table
or_waits t none = t
or_waits t (some t') = t'

unfoldable pub apply : Op → Table → Table
unfolding or_waits
apply (claims id agent) t = (claim id agent t).1
apply (acquires i) t = or_waits t (acquire i t)
apply (releases i) t = release i t
apply (forgets id) t = forget id t
apply (restores id sessions) t = restore id sessions t

unfoldable pub apply_all : List Op → Table → Table
unfolding apply
apply_all [] t = t
apply_all (o ∷ os) t = apply_all os (apply o t)
