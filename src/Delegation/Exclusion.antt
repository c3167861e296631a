-- ===== src/Delegation/Exclusion.antt =====
-- delegation.go: delegations to one agent in one conversation take turns.
use golm.Common.{
  ℕ, ◌≡◌, refl, sym, ap, subst, ◌∙◌, inl, inr, Bool, true, false, not, Bool-cases, Option,
  Option-cases, none, some, List, [], ◌∷◌, Bytes, bytes_eq, ◌==◌, arith, if◌then◌else◌, if_true,
  if_false, if_split, is_empty,
}
use golm.Delegation.{
  Slot, Table, find, without, touch, write_gate, conversation_for, new_slot, slot, claim, acquire,
  release, forget, holds, restore_one, restore_all, restore, Op, claims, acquires, releases,
  forgets, restores, or_waits, apply, apply_all,
}
use golm.Delegation.Keys.{eq_of, find-without}
use golm.Delegation.Ledger.{Ledger, apply-Ledger}
use golm.Delegation.Holding.{Held, conversation_for-Held, placed-Held}

other_name :
    (t : Table) (c d : ℕ) (agent : Bytes) (i : ℕ) (other : Bytes)
    → find agent (t.slots c) ≡ some i
    → find other (t.slots d) ≡ none
    → c ≡ d
    → bytes_eq other agent ≡ false
other_name t c d agent i other p n e = elim (Bool-cases (bytes_eq other agent)) [
  | inl q ↦
      let w : find agent (t.slots c) ≡ none =
        subst (λ k. find k (t.slots c) ≡ none) (eq_of other agent q)
          (subst (λ x. find other (t.slots x) ≡ none) (sym e) n) in
      cc
  | inr q ↦ q
]

-- A name whose slot is not held is another one.
free_name :
    (id : Bytes) (t : Table) (c d : ℕ) (agent : Bytes) (i : ℕ) (name : Bytes)
    → Held id c agent i t
    → c ≡ d
    → holds t d name ≡ false
    → bytes_eq name agent ≡ false
unfolding holds
free_name id t c d agent i name h e n = elim (Bool-cases (bytes_eq name agent)) [
  | inr q ↦ q
  | inl q ↦
      let w : holds t d agent ≡ true =
        subst (λ x. holds t x agent ≡ true) e
          (ap (λ (o : Option ℕ). elim o as (λ x. Bool) [ none ↦ false | some i ↦ (t.gates i).held ])
              h.place
            ∙ h.held) in
      let v : holds t d agent ≡ false = subst (λ k. holds t d k ≡ false) (eq_of name agent q) n in
      cc
]

slot-Held :
    (id : Bytes) (c : ℕ) (agent : Bytes) (i d : ℕ) (other : Bytes) (t : Table)
    → Held id c agent i t
    → Held id c agent i (slot d other t).1
unfolding slot new_slot
slot-Held id c agent i d other t h = elim (Option-cases (find other (t.slots d))) [
  | inr (j, f) ↦ rw (f, slot) h
  | inl n ↦
      rw (n, slot)
        (placed-Held id c agent i d other (t.slots d) (record { sess = t.fresh; held = false }) t
          (λ e.
            (other_name t c d agent i other h.place n e, ap (λ k. find agent (t.slots k)) (sym e)))
          h)
]

restore_one-Held :
    (id : Bytes) (c : ℕ) (agent : Bytes) (i d : ℕ) (s : Bytes × Option ℕ) (t : Table)
    → Held id c agent i t
    → Held id c agent i (restore_one d s t)
unfolding restore_one
restore_one-Held id c agent i d (name, none) t h = h
restore_one-Held id c agent i d (name, some sess) t h = elim (Bool-cases (holds t d name)) [
  | inl e ↦ subst (Held id c agent i) (sym (if_true e t _)) h
  | inr e ↦ subst (Held id c agent i) (sym (if_false e t _)) (
      placed-Held id c agent i d name (without name (t.slots d))
        (record { sess = sess; held = false }) t
        (λ q.
          let n = free_name id t c d agent i name h q e in
          (
            n,
            find-without name agent (t.slots d)
                ∙ (if_false n _ _ ∙ ap (λ k. find agent (t.slots k)) (sym q)),
          ))
        h)
]

restore_all-Held :
    (id : Bytes) (c : ℕ) (agent : Bytes) (i d : ℕ) (ss : List (Bytes × Option ℕ)) (t : Table)
    → Held id c agent i t
    → Held id c agent i (restore_all d ss t)
unfolding restore_all
restore_all-Held id c agent i d [] t h = h
restore_all-Held id c agent i d (s ∷ ss) t h =
    restore_all-Held id c agent i d ss (restore_one d s t) (restore_one-Held id c agent i d s t h)

-- The step neither forgets the conversation nor gives back the slot.
abbrev pub spares : Bytes → ℕ → Op → Bool
spares id i (forgets k) = not (bytes_eq k id)
spares id i (releases j) = not (j == i)
spares id i _ = true

abbrev pub all_spare : Bytes → ℕ → List Op → Bool
all_spare id i [] = true
all_spare id i (o ∷ os) = if spares id i o then all_spare id i os else false

gated-Held :
    (id : Bytes) (c : ℕ) (agent : Bytes) (i j : ℕ) (new : Slot) (t : Table)
    → ((j == i) ≡ true → new.held ≡ true)
    → Held id c agent i t
    → Held id c agent i (record t { gates = write_gate t.gates j new })
unfolding write_gate
gated-Held id c agent i j new t n h = record {
  conv = h.conv;
  place = h.place;
  held = elim (Bool-cases (j == i)) [ inl e ↦ rw e (n e) | inr e ↦ rw e h.held ];
  conv_given = h.conv_given;
  slot_given = h.slot_given;
}

apply-Held :
    (id : Bytes) (c : ℕ) (agent : Bytes) (i : ℕ) (o : Op) (t : Table)
    → Ledger t
    → spares id i o ≡ true
    → Held id c agent i t
    → Held id c agent i (apply o t)
unfolding apply claim acquire release forget restore or_waits write_gate
apply-Held id c agent i (claims k a) t g s h =
    let r = conversation_for k t in
    slot-Held id c agent i r.0 a r.1 (conversation_for-Held id c agent i k t g h)
apply-Held id c agent i (acquires j) t g s h =
    if_split (λ o. Held id c agent i (or_waits t o)) (t.gates j).held _ _ h
      (gated-Held id c agent i j (record (t.gates j) { held = true }) t (λ e. refl) h)
apply-Held id c agent i (releases j) t g s h =
    gated-Held id c agent i j (record (t.gates j) { held = false }) t
      (λ (e : (j == i) ≡ true). ground arith) h
apply-Held id c agent i (forgets k) t g s h = record {
  conv =
      find-without k id t.convs
      ∙ (if_false {b = bytes_eq k id} (ground arith) none (find id t.convs) ∙ h.conv);
  place = h.place;
  held = h.held;
  conv_given = h.conv_given;
  slot_given = h.slot_given;
}
apply-Held id c agent i (restores k ss) t g s h =
    let r = conversation_for k t in
    if_split (Held id c agent i) (is_empty k) _ _ h (
      if_split (Held id c agent i) (is_empty ss) _ _ h
        (restore_all-Held id c agent i r.0 ss r.1 (conversation_for-Held id c agent i k t g h)))

apply_all-Held :
    (id : Bytes) (c : ℕ) (agent : Bytes) (i : ℕ) (os : List Op) (t : Table)
    → Ledger t
    → all_spare id i os ≡ true
    → Held id c agent i t
    → Held id c agent i (apply_all os t)
unfolding apply_all
apply_all-Held id c agent i [] t g s h = h
apply_all-Held id c agent i (o ∷ os) t g s h =
    apply_all-Held id c agent i os (apply o t) (apply-Ledger o t g) (ground arith)
      (apply-Held id c agent i o t g (ground arith) h)

Held-claim :
    (id : Bytes) (c : ℕ) (agent : Bytes) (i : ℕ) (t : Table)
    → Held id c agent i t
    → (claim id agent t).0 ≡ i
unfolding claim conversation_for slot
Held-claim id c agent i t h =
    let t' = record t { order = touch id t.order } in
    let e : conversation_for id t ≡ (c, t') = let f = h.conv in rw (f, conversation_for) refl in
    let p : slot c agent t' ≡ (i, t') = let f = h.place in rw (f, slot) refl in
    ap (λ (r : ℕ × Table). (slot r.0 agent r.1).0) e ∙ ap (λ (r : ℕ × Table). r.0) p

-- While a delegation to an agent holds its slot in a conversation, the conversation is not evicted
-- and its slot is not replaced, whatever steps other goroutines take, as long as none forgets the
-- conversation or gives the slot back. So another delegation to that agent in that conversation
-- comes to the same slot, with the same session, and has to wait for it.
pub claim-waits :
    (id : Bytes) (c : ℕ) (agent : Bytes) (i : ℕ) (os : List Op) (t : Table)
    → Ledger t
    → all_spare id i os ≡ true
    → Held id c agent i t
    → let t' = apply_all os t in ((claim id agent t').0 ≡ i) × (acquire i t' ≡ none)
unfolding acquire
claim-waits id c agent i os t g s h =
    let h' = apply_all-Held id c agent i os t g s h in
    (Held-claim id c agent i (apply_all os t) h', if_true h'.held none _)
