-- ===== src/Session/Steps.antt =====
-- session.go: each call on a session either counts a revision or leaves what was there.
use golm.Common.{
  ℕ, zero, suc, ◌≡◌, refl, sym, ◌⊎◌, inl, inr, Bool-cases, Option, none, some, Option-cases, List,
  [], ◌++◌, append-nil, arith, ℤ, pos, negsuc, leb, ◌==◌, ◌+◌, length, Bytes, le_zero,
}
use golm.Message.{Message}
use golm.Usage.{Usage}
use golm.History.{Call, panic, returns, user_boundary}
use golm.Session.{
  Session, next_rev, append, trim, cut, drop_before, drop_first, rollback, set_title, set_state,
  delete_state, add_usage, lookup,
}

-- What a call that counts no revision leaves: the transcript, longer at most, and the states.
pub record Extends (s t : Session) : Type 0 where
  pub appended : List Message
  pub history_eq : t.history ≡ s.history ++ appended
  pub state_eq : t.state ≡ s.state
  pub rev_eq : t.rev ≡ s.rev

abbrev pub Step : Session → Session → Type 0
Step s t = Extends s t ⊎ (t.rev ≡ next_rev s.rev)

pub Extends-refl : (s : Session) → Extends s s
Extends-refl s = record {
  appended = [];
  history_eq = sym (append-nil s.history);
  state_eq = refl;
  rev_eq = refl;
}

pub append-Extends : (ms : List Message) (now : ℕ) (s : Session) → Extends s (append ms now s)
unfolding append
append-Extends ms now s = record {
  appended = ms;
  history_eq = refl;
  state_eq = refl;
  rev_eq = refl;
}

pub set_title-Extends : (t : Bytes) (now : ℕ) (s : Session) → Extends s (set_title t now s)
unfolding set_title
set_title-Extends t now s = record {
  appended = [];
  history_eq = sym (append-nil s.history);
  state_eq = refl;
  rev_eq = refl;
}

pub add_usage-Extends : (u : Usage) (s : Session) → Extends s (add_usage u s)
unfolding add_usage
add_usage-Extends u s = record {
  appended = [];
  history_eq = sym (append-nil s.history);
  state_eq = refl;
  rev_eq = refl;
}

-- A `Trim` that returns.
abbrev TrimStep : Session → Call Session → Type 0
TrimStep s panic = Unit {0}
TrimStep s (returns t) = Step s t

cut-TrimStep : (c : Call (Option ℕ)) (s : Session) → TrimStep s (cut c s)
unfolding cut
cut-TrimStep panic s = tt
cut-TrimStep (returns none) s = inl (Extends-refl s)
cut-TrimStep (returns (some n)) s = inr refl

trim-TrimStep : (k : ℤ) (s : Session) → TrimStep s (trim k s)
unfolding trim
trim-TrimStep k s = elim (Bool-cases (le_zero k)) [
  | inl z ↦ rw z (inr refl)
  | inr p ↦ rw p (cut-TrimStep (user_boundary s.history k) s)
]

pub trim-Step : (k : ℤ) (s t : Session) → trim k s ≡ returns t → Step s t
trim-Step k s t e = rw e at (trim-TrimStep k s)

drop_first-Step : (n : ℕ) (s : Session) → Step s (drop_first n s)
unfolding drop_first
drop_first-Step n s = elim (Bool-cases (leb (length s.history) n)) [
  | inl z ↦ rw z (inr refl)
  | inr p ↦ rw p (inr refl)
]

pub drop_before-Step : (n : ℤ) (s : Session) → Step s (drop_before n s)
unfolding drop_before
drop_before-Step (pos zero) s = inl (Extends-refl s)
drop_before-Step (pos (suc n)) s = drop_first-Step (suc n) s
drop_before-Step (negsuc n) s = inl (Extends-refl s)

pub rollback-Step : (base : ℤ) (now : ℕ) (s : Session) → Step s (rollback base now s)
unfolding rollback
rollback-Step (negsuc n) now s = inl (Extends-refl s)
rollback-Step (pos base) now s = elim (Bool-cases (length s.history == base + 1)) [
  | inl z ↦ rw z (inr refl)
  | inr p ↦ rw p (inl (Extends-refl s))
]

pub set_state-Step :
    (k v : Bytes) (now : ℕ) (s t : Session) → set_state k (some v) now s ≡ some t → Step s t
unfolding set_state
set_state-Step k v now s t e = inr (ground arith)

pub delete_state-Step : (k : Bytes) (now : ℕ) (s : Session) → Step s (delete_state k now s)
unfolding delete_state
delete_state-Step k now s = elim (Option-cases (lookup k s.state)) [
  | inl e ↦ rw (e, delete_state) (inl (Extends-refl s))
  | inr (v, e) ↦ rw (e, delete_state) (inr refl)
]
