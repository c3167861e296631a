-- ===== src/Delegation/Ledger.antt =====
-- delegation.go: the list of a table's keys, in the order of their last use, and its map.
use golm.Common.{
  ℕ, ◌≡◌, refl, sym, ap, subst, ◌∙◌, inl, inr, Bool, true, false, Bool-cases, Option, Option-cases,
  none, some, List, [], ◌∷◌, ◌++◌, append-nil, Bytes, bytes_eq, contains, arith, if◌then◌else◌,
  if_split, is_empty,
}
use golm.Delegation.{
  Table, find, busy, evict, touch, added, conversation_for, slot, claim, acquire, release, forget,
  holds, restore_one, restore_all, restore, Op, claims, acquires, releases, forgets, restores,
  or_waits, new_slot, apply, apply_all,
}
use golm.Delegation.Keys.{eq_of, Distinct, contains-append, find-without}
use golm.Delegation.Eviction.{idle, evict-Trimmed}
use golm.Delegation.Order.{
  between, contains-those, Distinct-those, contains-touch, Distinct-touch, contains-drop_first,
  Distinct-drop_first,
}

abbrev is_some : Option ℕ → Bool
is_some none = false
is_some (some c) = true

-- The keys of the list are those of the map, and none stands twice.
pub record Ledger (t : Table) : Type 0 where
  pub distinct : Distinct t.order
  pub same : (k : Bytes) → contains t.order k ≡ is_some (find k t.convs)

some_unless :
    (b : Bool) (o : Option ℕ) → is_some (if b then none else o) ≡ (if b then false else is_some o)
some_unless true o = refl
some_unless false o = refl

evict-Ledger : (t : Table) → Ledger t → Ledger (evict t)
evict-Ledger t g =
    let r = evict-Trimmed t g.distinct in
    let d : Distinct (r.passed ++ r.left) = subst Distinct r.split g.distinct in
    record {
      distinct = subst Distinct (sym r.order) (Distinct-those (busy t) r.passed r.left d);
      same = λ k.
          ap (λ l. contains l k) r.order
          ∙ (contains-those (busy t) r.passed r.left k d
              ∙ (ap (λ x. if contains (idle (busy t) r.passed) k then false else x)
                    (ap (λ l. contains l k) (sym r.split) ∙ g.same k)
                  ∙ (sym (some_unless (contains (idle (busy t) r.passed) k) (find k t.convs))
                      ∙ ap is_some (sym (r.found k)))));
    }

some_if :
    (b : Bool) (c : ℕ) (o : Option ℕ)
    → is_some (if b then some c else o) ≡ (if b then true else is_some o)
some_if true c o = refl
some_if false c o = refl

pub added-Ledger :
    (id : Bytes) (t : Table) → find id t.convs ≡ none → Ledger t → Ledger (added id t)
unfolding added find contains
added-Ledger id t n g =
    let m : contains t.order id ≡ false = g.same id ∙ ap is_some n in
    record {
      distinct =
          between id t.order [] (ap (λ l. contains l id) (append-nil t.order) ∙ m)
            (subst Distinct (sym (append-nil t.order)) g.distinct);
      same = λ k. ground (
        arith,
        contains-append t.order (id ∷ []) k,
        g.same k,
        some_if (bytes_eq id k) t.fresh (find k t.convs),
      );
    }

touched-Ledger :
    (id : Bytes) (c : ℕ) (t : Table)
    → find id t.convs ≡ some c
    → Ledger t
    → Ledger (record t { order = touch id t.order })
touched-Ledger id c t f g = record {
  distinct = Distinct-touch id t.order g.distinct;
  same = λ k.
      let q : bytes_eq id k ≡ true → is_some (find k t.convs) ≡ true =
        λ h. subst (λ x. is_some (find x t.convs) ≡ true) (eq_of id k h) (ap is_some f) in
      ground (arith, contains-touch id t.order k, g.same k, q);
}

conversation_for-Ledger : (id : Bytes) (t : Table) → Ledger t → Ledger (conversation_for id t).1
unfolding conversation_for
conversation_for-Ledger id t g = elim (Option-cases (find id t.convs)) [
  | inl n ↦ rw (n, conversation_for) (evict-Ledger (added id t) (added-Ledger id t n g))
  | inr (c, f) ↦ rw (f, conversation_for) (touched-Ledger id c t f g)
]

-- What is not about the keys leaves them alone.
alike : (t t' : Table) → t'.order ≡ t.order → t'.convs ≡ t.convs → Ledger t → Ledger t'
alike t t' o c g = record {
  distinct = subst Distinct (sym o) g.distinct;
  same = λ k. ap (λ l. contains l k) o ∙ (g.same k ∙ ap (λ m. is_some (find k m)) (sym c));
}

slot-alike :
    (c : ℕ) (agent : Bytes) (t : Table)
    → ((slot c agent t).1.order ≡ t.order) × ((slot c agent t).1.convs ≡ t.convs)
unfolding slot new_slot
slot-alike c agent t = elim (Option-cases (find agent (t.slots c))) [
  | inl n ↦ rw (n, slot) (refl, refl)
  | inr (i, f) ↦ rw (f, slot) (refl, refl)
]

restore_one-alike :
    (c : ℕ) (s : Bytes × Option ℕ) (t : Table)
    → ((restore_one c s t).order ≡ t.order) × ((restore_one c s t).convs ≡ t.convs)
unfolding restore_one
restore_one-alike c (name, none) t = (refl, refl)
restore_one-alike c (name, some sess) t =
    if_split (λ (t' : Table). (t'.order ≡ t.order) × (t'.convs ≡ t.convs)) (holds t c name) _ _
      (refl, refl) (refl, refl)

restore_all-Ledger :
    (c : ℕ) (ss : List (Bytes × Option ℕ)) (t : Table) → Ledger t → Ledger (restore_all c ss t)
unfolding restore_all
restore_all-Ledger c [] t g = g
restore_all-Ledger c (s ∷ ss) t g =
    let a = restore_one-alike c s t in
    restore_all-Ledger c ss (restore_one c s t) (alike t (restore_one c s t) a.0 a.1 g)

pub apply-Ledger : (o : Op) (t : Table) → Ledger t → Ledger (apply o t)
unfolding apply claim acquire release forget restore or_waits
apply-Ledger (claims id agent) t g =
    let r = conversation_for id t in
    let a = slot-alike r.0 agent r.1 in
    alike r.1 (slot r.0 agent r.1).1 a.0 a.1 (conversation_for-Ledger id t g)
apply-Ledger (acquires i) t g = elim (Bool-cases (t.gates i).held) [
  | inl h ↦ rw h g
  | inr h ↦ rw h (record { distinct = g.distinct; same = g.same })
]
apply-Ledger (releases i) t g = record { distinct = g.distinct; same = g.same }
apply-Ledger (forgets id) t g = record {
  distinct = Distinct-drop_first id t.order g.distinct;
  same = λ k.
      contains-drop_first id t.order k g.distinct
      ∙ (ap (λ x. if bytes_eq id k then false else x) (g.same k)
          ∙ (sym (some_unless (bytes_eq id k) (find k t.convs))
              ∙ ap is_some (sym (find-without id k t.convs))));
}
apply-Ledger (restores id ss) t g =
    let r = conversation_for id t in
    if_split Ledger (is_empty id) _ _ g (
      if_split Ledger (is_empty ss) _ _ g
        (restore_all-Ledger r.0 ss r.1 (conversation_for-Ledger id t g)))

-- Whatever claims, acquisitions, releases, removals and restorations follow, in any order, the list
-- of the conversations in the order of their last use names each conversation of the map once, and
-- nothing else.
pub apply_all-Ledger : (os : List Op) (t : Table) → Ledger t → Ledger (apply_all os t)
unfolding apply_all
apply_all-Ledger [] t g = g
apply_all-Ledger (o ∷ os) t g = apply_all-Ledger os (apply o t) (apply-Ledger o t g)
