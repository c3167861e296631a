-- ===== src/Loop/Entry.antt =====
-- agent.go: one run at a time on a session (`begin`, `acquire`, `release`).
use golm.Common.{
  ℕ, ◌≡◌, refl, sym, ap, ◌∙◌, inl, inr, true, false, Bool-cases, Option, none, some, Option-cases,
  arith, Bytes, length,
}
use golm.Budget.{Budget}
use golm.Message.{Message}
use golm.History.{Call, panic, returns}
use golm.Session.{Session, acquire, release}
use golm.Tools.{Printer}
use golm.Agent.{Agent, Env, Response, Error}
use golm.Loop.{Run, drive, acquired, begin, released, begun, fresh, run_with}

module _ {W : Type 0} (p : Printer) (env : Env W) (a : Agent) (s : Session)
    (ask : Session → W → (Response × Option Bytes) × W) where
  -- A refusal leaves the session as it is, and only an idle one is entered.
  abbrev Enters : Run W × Option Error → Type 0
  Enters (r, some e) = r.session ≡ s
  Enters (r, none) = s.running ≡ false

  busy_eq : s.running ≡ true → acquire s ≡ (s, false)
  unfolding acquire
  busy_eq h = ground arith

  idle_eq : s.running ≡ false → acquire s ≡ (record s { running = true }, true)
  unfolding acquire
  idle_eq h = ground arith

  begin-Enters :
      (b : Option Budget) (msg : Message) (w : W) → Enters (begin p env a msg (fresh p env a s b w))
  unfolding begin fresh acquired
  begin-Enters b msg w = elim (Bool-cases a.has_provider) [
    | inr n ↦ rw (n, begin) refl
    | inl y ↦ elim (Option-cases (env.ctx_err w).0) [
      | inr (e, q) ↦ rw (y, begin) (rw (q, begin) refl)
      | inl q ↦ elim (Bool-cases s.running) [
        | inl busy ↦ rw (y, begin) (rw (q, begin) (rw (busy_eq busy) refl))
        | inr idle ↦ rw (y, begin) (rw (q, begin) (rw (idle_eq idle) idle))
      ]
    ]
  ]

  abbrev session_of : Call (Run W × Option Error) → Session
  session_of panic = s
  session_of (returns (r, e)) = r.session

  abbrev error_of : Call (Run W × Option Error) → Option Error
  error_of panic = none
  error_of (returns (r, e)) = e

  released-idle :
      (c : Call (Run W × Option Error)) (r : Run W) (e : Option Error)
      → released p env a c ≡ returns (r, e)
      → r.session.running ≡ false
  unfolding released release
  released-idle panic r e q = cc
  released-idle (returns (r', e')) r e q = sym (ap (λ x. (session_of x).running) q)

  abbrev Left : Run W → Option Error → Type 0
  Left r e =
      (s.running ≡ true → ((x : Error) × (e ≡ some x)) × (r.session ≡ s))
      × (s.running ≡ false → r.session.running ≡ false)

  begun-Left :
      (base : ℕ) (r : Run W) (e : Option Error)
      → Enters (r, e)
      → (r' : Run W) (e' : Option Error) → begun p env a ask base (r, e) ≡ returns (r', e')
      → Left r' e'
  unfolding begun
  begun-Left base r (some x) h r' e' q =
      let same : r'.session ≡ s = sym (ap session_of q) ∙ h in
      (λ _. ((x, sym (ap error_of q)), same), λ idle. ap (λ (t : Session). t.running) same ∙ idle)
  begun-Left base r none h r' e' q =
      (λ busy. cc, λ _. released-idle (drive p env a ask base r) r' e' q)

  -- A run that returns on a session with a run in flight returns an error and has changed nothing
  -- of the session; a run that returns on an idle session leaves it idle, whatever happened.
  pub run_with_exclusive :
      (b : Option Budget) (msg : Message) (w : W) (r : Run W) (e : Option Error)
      → run_with p env a ask s b msg w ≡ returns (r, e)
      → (s.running ≡ true → ((x : Error) × (e ≡ some x)) × (r.session ≡ s))
        × (s.running ≡ false → r.session.running ≡ false)
  unfolding run_with
  run_with_exclusive b msg w r e q =
      begun-Left (length s.history) (begin p env a msg (fresh p env a s b w)).0
        (begin p env a msg (fresh p env a s b w)).1 (begin-Enters b msg w) r e q
