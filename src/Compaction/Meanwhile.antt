-- ===== src/Compaction/Meanwhile.antt =====
-- compact.go, session.go: what the revision count says of the calls that came in between.
use golm.Common.{
  ℕ, suc, ◌+◌, ◌%◌, ◌≤◌, ◌<◌, ◌≡◌, refl, ap, ◌∙◌, inl, inr, some, List, [], ◌∷◌, ◌++◌, append_assoc,
  arith, int_mod, length,
}
use golm.History.{Call, panic, returns}
use golm.Session.{Session, trim, set_state}
use golm.Session.Steps.{
  Extends, Step, Extends-refl, append-Extends, set_title-Extends, add_usage-Extends, trim-Step,
  drop_before-Step, rollback-Step, set_state-Step, delete_state-Step,
}
use golm.Compaction.{
  Op, appends, trims, drops, rolls_back, titles, sets, deletes, bills, apply, apply_all, unpanicked,
  stored,
}

unpanicked-Step :
    (s : Session) (c : Call Session)
    → ((t : Session) → c ≡ returns t → Step s t)
    → Step s (unpanicked s c)
unfolding unpanicked
unpanicked-Step s panic h = inl (Extends-refl s)
unpanicked-Step s (returns t) h = h t refl

stored-Step : (s t : Session) → Step s t → Step s (stored s (some t))
unfolding stored
stored-Step s t h = h

apply-Step : (o : Op) (s : Session) → Step s (apply o s)
unfolding apply set_state
apply-Step (appends ms now) s = inl (append-Extends ms now s)
apply-Step (trims k) s = unpanicked-Step s (trim k s) (trim-Step k s)
apply-Step (drops n) s = drop_before-Step n s
apply-Step (rolls_back base now) s = rollback-Step base now s
apply-Step (titles t now) s = inl (set_title-Extends t now s)
apply-Step (sets k v now) s = stored-Step s _ (set_state-Step k v now s _ refl)
apply-Step (deletes k now) s = delete_state-Step k now s
apply-Step (bills u) s = inl (add_usage-Extends u s)

-- What a series of calls leaves, when `b` of them counted a revision.
pub record Runs (s t : Session) (b : ℕ) : Type 0 where
  pub rev_eq : t.rev ≡ (s.rev + b) % int_mod
  pub none_counted : b ≡ 0 → Extends s t

Extends-trans : (s t u : Session) → Extends s t → Extends t u → Extends s u
Extends-trans s t u e f = record {
  appended = e.appended ++ f.appended;
  history_eq =
      f.history_eq
      ∙ (ap (λ h. h ++ f.appended) e.history_eq ∙ append_assoc s.history e.appended f.appended);
  state_eq = f.state_eq ∙ e.state_eq;
  rev_eq = f.rev_eq ∙ e.rev_eq;
}

apply_all-Runs :
    (os : List Op) (s : Session)
    → s.rev < int_mod
    → (b : ℕ) × (b ≤ length os) × Runs s (apply_all os s) b
unfolding apply_all
apply_all-Runs [] s r =
    (0, omega arith, record { rev_eq = omega arith; none_counted = λ _. Extends-refl s })
apply_all-Runs (o ∷ os) s r = elim (apply-Step o s) [
  | inl e ↦
      let (b, l, runs) = apply_all-Runs os (apply o s) (omega (arith, e.rev_eq)) in
      (
        b,
        omega arith,
        record {
          rev_eq = omega (arith, runs.rev_eq, e.rev_eq);
          none_counted = λ z. Extends-trans s (apply o s) _ e (runs.none_counted z);
        },
      )
  | inr n ↦
      let (b, l, runs) = apply_all-Runs os (apply o s) (omega (arith, n)) in
      (
        suc b,
        omega arith,
        record { rev_eq = omega (arith, runs.rev_eq, n); none_counted = λ z. absurd (omega arith) },
      )
]

-- Fewer than 2^64 calls that leave the revision count where it was have only appended messages:
-- the transcript from before is a prefix of the one after, and the states are the same.
pub apply_all-Extends :
    (os : List Op) (s : Session)
    → s.rev < int_mod
    → length os < int_mod
    → (apply_all os s).rev ≡ s.rev
    → Extends s (apply_all os s)
apply_all-Extends os s r l e =
    let (b, m, runs) = apply_all-Runs os s r in runs.none_counted (omega (arith, runs.rev_eq))
