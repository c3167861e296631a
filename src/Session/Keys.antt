-- ===== src/Session/Keys.antt =====
-- session.go: the values kept under keys, over any series of `SetState` and `DeleteState` calls.
use mathlib.Core.Option
use golm.Common.{
  ℕ, ◌≡◌, refl, sym, ap, subst, ◌∙◌, inl, inr, Bool, true, false, Bool-cases, Option, none, some,
  Option-cases, List, [], ◌∷◌, ◌++◌, Bytes, bytes_eq, bytes_eq_iff, if◌then◌else◌,
}
use golm.Session.{Session, lookup, set_state, get_state, delete_state}
use golm.Session.Saved.{lookup-put, lookup-delete}

-- A call with its key and the clock's reading; a value that does not encode is `none`.
pub data StateOp : Type 0 where
  sets : Bytes → Option Bytes → ℕ → StateOp
  deletes : Bytes → ℕ → StateOp

abbrev pub or_same : Session → Option Session → Session
or_same s none = s
or_same s (some t) = t

unfoldable pub apply_op : StateOp → Session → Session
apply_op (sets k v now) s = or_same s (set_state k v now s)
apply_op (deletes k now) s = delete_state k now s

unfoldable pub apply_ops : List StateOp → Session → Session
apply_ops [] s = s
apply_ops (o ∷ os) s = apply_ops os (apply_op o s)

-- Whether a call takes effect on a key, and what it leaves there.
abbrev pub touches : Bytes → StateOp → Bool
touches j (sets k none now) = false
touches j (sets k (some v) now) = bytes_eq k j
touches j (deletes k now) = bytes_eq k j

abbrev pub left_by : StateOp → Option Bytes
left_by (sets k v now) = v
left_by (deletes k now) = none

abbrev pub Untouched : Bytes → List StateOp → Type 0
Untouched j [] = Unit {0}
Untouched j (o ∷ os) = (touches j o ≡ false) × Untouched j os

-- What the last of some calls that takes effect on a key leaves there, else what was there before.
pub data Latest (j : Bytes) (old : Option Bytes) : List StateOp → Option Bytes → Type 0 where
  as_before : {os : List StateOp} → Untouched j os → Latest j old os old
  last_by :
      (before : List StateOp) (o : StateOp) (after : List StateOp)
      → touches j o ≡ true
      → Untouched j after
      → {os : List StateOp} → os ≡ before ++ o ∷ after
      → Latest j old os (left_by o)

lookup-apply_op :
    (j : Bytes) (o : StateOp) (s : Session)
    → lookup j (apply_op o s).state ≡ (if touches j o then left_by o else lookup j s.state)
unfolding apply_op set_state delete_state
lookup-apply_op j (sets k none now) s = refl
lookup-apply_op j (sets k (some v) now) s = lookup-put k j v s.state
lookup-apply_op j (deletes k now) s = elim (Option-cases (lookup k s.state)) [
  | inr (v, q) ↦ rw (q, delete_state) (lookup-delete k j s.state)
  | inl q ↦
      rw (q, delete_state)
        (elim (Bool-cases (bytes_eq k j)) [
          | inl e ↦
              let same : k ≡ j = (bytes_eq_iff k j).0 e in
              rw e (ap (λ x. lookup x s.state) (sym same) ∙ q)
          | inr e ↦ rw e refl
        ])
]

history-apply_op : (o : StateOp) (s : Session) → (apply_op o s).history ≡ s.history
unfolding apply_op set_state delete_state
history-apply_op (sets k none now) s = refl
history-apply_op (sets k (some v) now) s = refl
history-apply_op (deletes k now) s = elim (Option-cases (lookup k s.state)) [
  | inr (v, q) ↦ rw (q, delete_state) refl
  | inl q ↦ rw (q, delete_state) refl
]

earlier :
    (j : Bytes) (old new : Option Bytes) (o : StateOp) (os : List StateOp) (r : Option Bytes)
    → new ≡ (if touches j o then left_by o else old)
    → Latest j new os r
    → Latest j old (o ∷ os) r
earlier j old new o os r e (last_by before q after t u f) =
    last_by (o ∷ before) q after t u (ap (◌∷◌ o) f)
earlier j old new o os r e (as_before u) = elim (Bool-cases (touches j o)) [
  | inl t ↦
      let e' : new ≡ left_by o = rw t at e in
      subst (Latest j old (o ∷ os)) (sym e') (last_by [] o os t u refl)
  | inr n ↦
      let e' : new ≡ old = rw n at e in subst (Latest j old (o ∷ os)) (sym e') (as_before (n, u))
]

-- After any series of `SetState` and `DeleteState` calls, `GetState` gives what the last call that
-- took effect on the key left: the value set, decoded, or nothing after a deletion, and what was
-- there before where no such call was made. A `SetState` whose value does not encode changes
-- nothing, and no call touches another key or the transcript.
pub get_state-Latest :
    {T : Type 0} (unmarshal : Bytes → Option T) (j : Bytes) (os : List StateOp) (s : Session)
    → (r : Option Bytes) × (get_state unmarshal j (apply_ops os s) ≡ Option.map unmarshal r)
      × Latest j (lookup j s.state) os r
      × ((apply_ops os s).history ≡ s.history)
unfolding get_state apply_ops
get_state-Latest unmarshal j [] s = (lookup j s.state, refl, as_before tt, refl)
get_state-Latest unmarshal j (o ∷ os) s =
    let (r, e, l, h) = get_state-Latest unmarshal j os (apply_op o s) in
    (
      r,
      e,
      earlier j (lookup j s.state) (lookup j (apply_op o s).state) o os r (lookup-apply_op j o s) l,
      h ∙ history-apply_op o s,
    )
