-- ===== src/Loop/Called.antt =====
-- agent.go: the loop lists what the provider reported in exactly the calls it made, in order.
use golm.Common.{
  ℕ, zero, suc, ◌≡◌, refl, sym, ap, ◌∙◌, inl, inr, Option, none, some, Option-cases, List, [], ◌∷◌,
  ◌++◌, append-nil, append_assoc, Bytes,
}
use golm.Usage.{Usage}
use golm.Session.{Session}
use golm.Tools.{Printer}
use golm.Agent.{Agent, Env, Response, Error}
use golm.Loop.{Run, Next, again, ended, emit, budget_gate, gate, asked, round, carry_on, rounds}
use golm.Loop.Accounts.{Books, books, books-asked}

module _ {W : Type 0} (p : Printer) (env : Env W) (a : Agent) where
  pub gate_lem :
      (r : Run W)
      → (books (gate p env a r).1 ≡ books r)
        × ((gate p env a r).0 ≡ none → budget_gate p env a r ≡ none)
  unfolding gate
  gate_lem r = elim (Option-cases (env.ctx_err r.world).0) [
    | inl q ↦ rw (q, gate) (refl, λ e. e)
    | inr (x, q) ↦ rw (q, gate) (refl, λ e. cc)
  ]

module _ {W : Type 0} (p : Printer) (env : Env W) (a : Agent)
    (ask : Session → W → (Response × Option Bytes) × W) where
  -- The usages that the provider reports in the calls of a loop with `n` rounds left after `i` of
  -- them: a round whose gate is open makes one call, and the loop goes on where the round says so.
  abbrev pub going_on : (Run W → List Usage) → Run W × Next → List Usage
  going_on k (r, again) = k r
  going_on k (r, ended e) = []

  abbrev pub answers : ℕ → ℕ → Run W → List Usage
  answers zero i r = []
  answers (suc n) i r = elim (gate p env a r).0 [
    | some e ↦ []
    | none ↦
        (ask (gate p env a r).1.session (gate p env a r).1.world).0.0.usage
        ∷ going_on (answers n (suc i)) (round p env a ask (suc i) r)
  ]

  -- What a round books before the loop goes on, as a list.
  carry_on-answers :
      (k : Run W → Run W × Option Error) (f : Run W → List Usage) (us : List Usage)
      → ((s : Run W) → (k s).0.result.step_usage ≡ s.result.step_usage ++ f s)
      → (x : Next) (r : Run W) → r.result.step_usage ≡ us
      → (carry_on p env a ask (r, x) k).0.result.step_usage ≡ us ++ going_on f (r, x)
  unfolding carry_on
  carry_on-answers k f us h again r e = h r ∙ ap (λ vs. vs ++ f r) e
  carry_on-answers k f us h (ended y) r e = e ∙ sym (append-nil us)

  pub rounds-answers :
      (n i : ℕ) (r : Run W)
      → (rounds p env a ask n i r).0.result.step_usage ≡ r.result.step_usage ++ answers n i r
  unfolding rounds emit carry_on
  rounds-answers zero i r = sym (append-nil r.result.step_usage)
  rounds-answers (suc n) i r = elim (Option-cases (gate p env a r).0) [
    | inr (x, q) ↦
        rw (q, round, answers)
          (ap (λ (b : Books). b.step_usage) (gate_lem p env a r).0
            ∙ sym (append-nil r.result.step_usage))
    | inl q ↦
        let r1 = (gate p env a r).1 in
        let u = (ask r1.session r1.world).0.0.usage in
        let out = round p env a ask (suc i) r in
        let called : out ≡ asked p env a ask (suc i) r1 = rw (q, round) refl in
        let e : out.0.result.step_usage ≡ r.result.step_usage ++ u ∷ [] =
          ap (λ (o : Run W × Next). o.0.result.step_usage) called
          ∙ (ap (λ (b : Books). b.step_usage) (books-asked p env a ask (suc i) r1)
              ∙ ap (λ (b : Books). b.step_usage ++ u ∷ []) (gate_lem p env a r).0) in
        rw (q, answers)
          (carry_on-answers (rounds p env a ask n (suc i)) (answers n (suc i))
              (r.result.step_usage ++ u ∷ []) (rounds-answers n (suc i)) out.1 out.0 e
            ∙ append_assoc r.result.step_usage (u ∷ []) (going_on (answers n (suc i)) out))
  ]
