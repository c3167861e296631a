-- ===== src/Delegation/Holding.antt =====
-- delegation.go: a sub-agent's session while a delegation holds it.
use golm.Common.{
  ℕ, suc, ◌<◌, ◌≡◌, refl, sym, ap, subst, ◌∙◌, inl, inr, true, false, not, Bool-cases, Option-cases,
  none, some, List, [], ◌∷◌, Bytes, bytes_eq, contains, ◌==◌, arith, if_true, if_false, if_split,
}
use golm.Delegation.{
  Slot, Table, find, busy, any_held, evict, write_slots, write_gate, added, conversation_for,
}
use golm.Delegation.Keys.{eq_of}
use golm.Delegation.Eviction.{idle, evict-Trimmed}
use golm.Delegation.Ledger.{Ledger, added-Ledger}
use golm.Delegation.Bounds.{those-holds, busy_found, find-added}

-- Slot `i` of `agent` in conversation `c`, which has the key `id`, is held.
pub record Held (id : Bytes) (c : ℕ) (agent : Bytes) (i : ℕ) (t : Table) : Type 0 where
  pub conv : find id t.convs ≡ some c
  pub place : find agent (t.slots c) ≡ some i
  pub held : (t.gates i).held ≡ true
  pub conv_given : c < t.fresh
  pub slot_given : i < t.fresh

some_injective : {j i : ℕ} → some j ≡ some i → j ≡ i
some_injective e = cc

any_held_of :
    (gates : ℕ → Slot) (m : List (Bytes × ℕ)) (agent : Bytes) (i : ℕ)
    → find agent m ≡ some i
    → (gates i).held ≡ true
    → any_held gates m ≡ true
unfolding any_held find
any_held_of gates [] agent i f h = cc
any_held_of gates ((a, j) ∷ m) agent i f h = elim (Bool-cases (bytes_eq a agent)) [
  | inl e ↦
      let w : some j ≡ some i = sym (if_true e (some j) (find agent m)) ∙ f in
      let q : j ≡ i = some_injective w in rw (subst (λ k. (gates k).held ≡ true) (sym q) h) refl
  | inr e ↦
      if_split (λ b. b ≡ true) (gates j).held _ _ refl
        (any_held_of gates m agent i (sym (if_false e (some j) (find agent m)) ∙ f) h)
]

Held-busy :
    (id : Bytes) (c : ℕ) (agent : Bytes) (i : ℕ) (t : Table)
    → Held id c agent i t
    → busy t id ≡ true
Held-busy id c agent i t h =
    busy_found t id c h.conv ∙ any_held_of t.gates (t.slots c) agent i h.place h.held

-- A conversation that is busy is not evicted.
evict-Held :
    (id : Bytes) (c : ℕ) (agent : Bytes) (i : ℕ) (t : Table)
    → Ledger t
    → Held id c agent i t
    → Held id c agent i (evict t)
evict-Held id c agent i t g h =
    let r = evict-Trimmed t g.distinct in
    let n : contains (idle (busy t) r.passed) id ≡ false =
      elim (Bool-cases (contains (idle (busy t) r.passed) id)) [
        | inl e ↦
            let w : not (busy t id) ≡ true = those-holds (λ k. not (busy t k)) r.passed id e in
            let b = Held-busy id c agent i t h in ground arith
        | inr e ↦ e
      ] in
    record {
      conv = r.found id ∙ (if_false n none (find id t.convs) ∙ h.conv);
      place = ap (λ s. find agent (s c)) r.slots ∙ h.place;
      held = ap (λ (s : ℕ → Slot). (s i).held) r.gates ∙ h.held;
      conv_given = subst (◌<◌ c) (sym r.fresh) h.conv_given;
      slot_given = subst (◌<◌ i) (sym r.fresh) h.slot_given;
    }

added-Held :
    (id : Bytes) (c : ℕ) (agent : Bytes) (i : ℕ) (new : Bytes) (t : Table)
    → find new t.convs ≡ none
    → Held id c agent i t
    → Held id c agent i (added new t)
unfolding added write_slots
added-Held id c agent i new t n h =
    let d : bytes_eq new id ≡ false = elim (Bool-cases (bytes_eq new id)) [
      | inl e ↦
          let w : find id t.convs ≡ none = subst (λ k. find k t.convs ≡ none) (eq_of new id e) n in
          let v = h.conv in cc
      | inr e ↦ e
    ] in
    let lt = h.conv_given in
    let w : (added new t).slots c ≡ t.slots c = ground arith in
    record {
      conv = find-added new t id ∙ (if_false d _ _ ∙ h.conv);
      place = ap (find agent) w ∙ h.place;
      held = h.held;
      conv_given = omega (arith, h.conv_given);
      slot_given = omega (arith, h.slot_given);
    }

pub conversation_for-Held :
    (id : Bytes) (c : ℕ) (agent : Bytes) (i : ℕ) (other : Bytes) (t : Table)
    → Ledger t
    → Held id c agent i t
    → Held id c agent i (conversation_for other t).1
unfolding conversation_for
conversation_for-Held id c agent i other t g h = elim (Option-cases (find other t.convs)) [
  | inl n ↦
      rw (n, conversation_for)
        (evict-Held id c agent i (added other t) (added-Ledger other t n g)
          (added-Held id c agent i other t n h))
  | inr (d, f) ↦
      rw (f, conversation_for)
        (record {
          conv = h.conv;
          place = h.place;
          held = h.held;
          conv_given = h.conv_given;
          slot_given = h.slot_given;
        })
]

-- A place that is made for another name of a conversation, the old place of that name gone or not.
pub placed-Held :
    (id : Bytes) (c : ℕ) (agent : Bytes) (i d : ℕ) (name : Bytes) (m : List (Bytes × ℕ))
    (new : Slot) (t : Table)
    → (c ≡ d → (bytes_eq name agent ≡ false) × (find agent m ≡ find agent (t.slots c)))
    → Held id c agent i t
    → Held id c agent i (record t {
      slots = write_slots t.slots d ((name, t.fresh) ∷ m);
      gates = write_gate t.gates t.fresh new;
      fresh = suc t.fresh;
    })
unfolding write_slots write_gate find
placed-Held id c agent i d name m new t n h =
    let lt = h.slot_given in
    let g : write_gate t.gates t.fresh new i ≡ t.gates i = ground arith in
    let p : find agent (write_slots t.slots d ((name, t.fresh) ∷ m) c) ≡ some i =
      elim (Bool-cases (d == c)) [
        | inl e ↦ let q = n (ground arith) in rw e (if_false q.0 _ _ ∙ (q.1 ∙ h.place))
        | inr e ↦ rw e h.place
      ] in
    record {
      conv = h.conv;
      place = p;
      held = ap (λ (s : Slot). s.held) g ∙ h.held;
      conv_given = omega (arith, h.conv_given);
      slot_given = omega (arith, h.slot_given);
    }
