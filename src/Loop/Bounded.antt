-- ===== src/Loop/Bounded.antt =====
-- agent.go: the loop ends within its steps and its budgets, and every call is booked.
use golm.Common.{
  ℕ, zero, suc, ◌+◌, ◌≤◌, ◌≡◌, refl, sym, ap, subst, ◌∙◌, inl, inr, true, false, Option, none,
  Option-cases, List, [], ◌∷◌, ◌++◌, arith, Bytes, length, length-append, Int64, lt_int, le_int,
}
use golm.Usage.{Usage, no_usage, total}
use golm.Usage
use golm.Budget.{Budget, spend, spend_all, exhausted}
use golm.Budget.Laws.{sum_usage}
use golm.Session.{Session}
use golm.Tools.{Printer}
use golm.Agent.{Agent, Env, Response, Error}
use golm.Loop.{Run, Next, again, ended, emit, budget_gate, gate, asked, round, carry_on, rounds}
use golm.Loop.Called.{gate_lem, answers, rounds-answers}
use golm.Loop.Accounts.{Books, books, booked, books-asked}

sum_usage-snoc :
    (acc : Usage) (us : List Usage) (u : Usage)
    → sum_usage acc (us ++ u ∷ []) ≡ Usage.add (sum_usage acc us) u
sum_usage-snoc acc [] u = refl
sum_usage-snoc acc (v ∷ us) u = sum_usage-snoc (Usage.add acc v) us u

spend_all-snoc :
    (b : Option Budget) (us : List Usage) (u : Usage)
    → spend_all b (us ++ u ∷ []) ≡ spend (spend_all b us) u
unfolding spend_all
spend_all-snoc b [] u = refl
spend_all-snoc b (v ∷ us) u = spend_all-snoc (spend b v) us u

spend_all-nil : (b : Option Budget) → b ≡ spend_all b []
unfolding spend_all
spend_all-nil b = refl

abbrev init : List Usage → List Usage
init [] = []
init (u ∷ []) = []
init (u ∷ v ∷ us) = u ∷ init (v ∷ us)

init-snoc : (us : List Usage) (u : Usage) → init (us ++ u ∷ []) ≡ us
init-snoc [] u = refl
init-snoc (v ∷ []) u = refl
init-snoc (v ∷ w ∷ us) u = ap (◌∷◌ v) (init-snoc (w ∷ us) u)

snoc_inj : (us vs : List Usage) (u v : Usage) → us ++ u ∷ [] ≡ vs ++ v ∷ [] → us ≡ vs
snoc_inj us vs u v e = sym (init-snoc us u) ∙ (ap init e ∙ init-snoc vs v)

-- The accounts of a run that began with the session's usage `u₀` and the shared budget `b₀`.
pub record Balanced (max : Int64) (u₀ : Usage) (b₀ : Option Budget) (b : Books) : Type 0 where
  pub counted : length b.step_usage ≡ b.steps
  pub summed : b.usage ≡ sum_usage no_usage b.step_usage
  pub billed : b.session_usage ≡ sum_usage u₀ b.step_usage
  pub spent : b.budget ≡ spend_all b₀ b.step_usage
  -- When the last call was made, neither ceiling had been reached by the calls before it.
  pub within :
      (us : List Usage) (u : Usage)
      → b.step_usage ≡ us ++ u ∷ []
      → lt_int 0 max ≡ true
      → le_int max (total (sum_usage no_usage us)) ≡ false
  pub allowed :
      (us : List Usage) (u : Usage)
      → b.step_usage ≡ us ++ u ∷ []
      → exhausted (spend_all b₀ us) ≡ false

module _ {W : Type 0} (p : Printer) (env : Env W) (a : Agent)
    (ask : Session → W → (Response × Option Bytes) × W) (u₀ : Usage) (b₀ : Option Budget) where
  abbrev IsBalanced : Books → Type 0
  IsBalanced = Balanced a.max_total_tokens u₀ b₀

  budget_gate_open :
      (r : Run W)
      → budget_gate p env a r ≡ none
      → (lt_int 0 a.max_total_tokens ≡ true
          → le_int a.max_total_tokens (total r.result.usage) ≡ false)
        × (exhausted r.budget ≡ false)
  unfolding budget_gate
  budget_gate_open r e = ground arith

  booked-Balanced :
      (b : Books) (i : ℕ) (u : Usage)
      → IsBalanced b
      → b.steps ≡ i
      → (lt_int 0 a.max_total_tokens ≡ true → le_int a.max_total_tokens (total b.usage) ≡ false)
      → exhausted b.budget ≡ false
      → IsBalanced (booked (suc i) u b)
  booked-Balanced b i u v e under open_budget = record {
    counted = omega (arith, length-append b.step_usage (u ∷ []), v.counted);
    summed = ap (λ x. Usage.add x u) v.summed ∙ sym (sum_usage-snoc no_usage b.step_usage u);
    billed = ap (λ x. Usage.add x u) v.billed ∙ sym (sum_usage-snoc u₀ b.step_usage u);
    spent = ap (λ x. spend x u) v.spent ∙ sym (spend_all-snoc b₀ b.step_usage u);
    within = λ us w q t.
        subst (λ vs. le_int a.max_total_tokens (total (sum_usage no_usage vs)) ≡ false)
          (snoc_inj b.step_usage us u w q)
          (subst (λ x. le_int a.max_total_tokens (total x) ≡ false) v.summed (under t));
    allowed = λ us w q.
        subst (λ vs. exhausted (spend_all b₀ vs) ≡ false) (snoc_inj b.step_usage us u w q)
          (subst (λ x. exhausted x ≡ false) v.spent open_budget);
  }

  -- What a round leaves: it ends without a call, or it has booked one.
  abbrev Rounded : ℕ → Run W × Next → Type 0
  Rounded i (r, again) = IsBalanced (books r) × (r.result.steps ≡ suc i)
  Rounded i (r, ended e) = IsBalanced (books r) × (r.result.steps ≤ suc i)

  weaken :
      (i : ℕ) (r : Run W) (n : Next)
      → IsBalanced (books r)
      → r.result.steps ≡ suc i
      → Rounded i (r, n)
  weaken i r again v e = (v, e)
  weaken i r (ended x) v e = (v, omega arith)

  asked-Rounded :
      (i : ℕ) (r : Run W)
      → IsBalanced (books r)
      → r.result.steps ≡ i
      → budget_gate p env a r ≡ none
      → (r' : Run W) → books r' ≡ books r
      → Rounded i (asked p env a ask (suc i) r')
  asked-Rounded i r v e g r' same =
      let (under, open_budget) = budget_gate_open r g in
      let b = books-asked p env a ask (suc i) r' in
      let u = (ask r'.session r'.world).0.0.usage in
      let w : IsBalanced (booked (suc i) u (books r)) =
        booked-Balanced (books r) i u v e under open_budget in
      weaken i (asked p env a ask (suc i) r').0 (asked p env a ask (suc i) r').1
        (subst IsBalanced (sym (b ∙ ap (booked (suc i) u) same)) w) (ap (λ (x : Books). x.steps) b)

  round-Rounded :
      (i : ℕ) (r : Run W)
      → IsBalanced (books r)
      → r.result.steps ≡ i
      → Rounded i (round p env a ask (suc i) r)
  unfolding round emit
  round-Rounded i r v e = elim (Option-cases (gate p env a r).0) [
    | inl q ↦
        rw (q, round)
          (asked-Rounded i r v e ((gate_lem p env a r).1 q) (gate p env a r).1
            (gate_lem p env a r).0)
    | inr (x, q) ↦
        rw (q, round)
          (
            subst IsBalanced (sym (gate_lem p env a r).0) v,
            omega (arith, ap (λ (b : Books). b.steps) (gate_lem p env a r).0),
          )
  ]

  -- A loop with `n` rounds left after `i` calls.
  abbrev Bounded : ℕ → Run W → Type 0
  Bounded k r = IsBalanced (books r) × (r.result.steps ≤ k)

  carry_on-Bounded :
      (n i : ℕ) (x : Next) (r : Run W) (k : Run W → Run W × Option Error)
      → Rounded i (r, x)
      → ((s : Run W) → IsBalanced (books s) → s.result.steps ≡ suc i → Bounded (suc i + n) (k s).0)
      → Bounded (suc i + n) (carry_on p env a ask (r, x) k).0
  unfolding carry_on
  carry_on-Bounded n i again r k h f = f r h.0 h.1
  carry_on-Bounded n i (ended e) r k h f = (h.0, omega (arith, h.1))

  rounds-Bounded :
      (n i : ℕ) (r : Run W)
      → IsBalanced (books r)
      → r.result.steps ≡ i
      → Bounded (i + n) (rounds p env a ask n i r).0
  unfolding rounds emit
  rounds-Bounded zero i r v e = (v, omega arith)
  rounds-Bounded (suc n) i r v e =
      let b =
        carry_on-Bounded n i (round p env a ask (suc i) r).1 (round p env a ask (suc i) r).0
          (rounds p env a ask n (suc i)) (round-Rounded i r v e) (rounds-Bounded n (suc i)) in
      (b.0, omega (arith, b.1))

  -- From a run that has booked nothing yet, the loop ends after at most as many provider calls as
  -- it has rounds, whatever the provider, the tools and the context do. The usages it lists are
  -- those that the provider reported in the calls it made, in order, failed calls included, and
  -- the steps it reports are their number; the run's usage is their sum, the session and the shared
  -- budget are billed for exactly these, and no call was made once the run's own ceiling or the
  -- shared budget had been reached by the calls before it.
  pub rounds-Balanced :
      (n : ℕ) (r : Run W)
      → books r
        ≡ record { steps = 0; step_usage = []; usage = no_usage; session_usage = u₀; budget = b₀ }
      → let r' = (rounds p env a ask n 0 r).0 in
        Balanced a.max_total_tokens u₀ b₀ (books r')
        × (r'.result.steps ≤ n)
        × (r'.result.step_usage ≡ answers p env a ask n 0 r)
  rounds-Balanced n r e =
      let b =
        rounds-Bounded n 0 r (subst IsBalanced (sym e) start) (ap (λ (x : Books). x.steps) e) in
      (
        b.0,
        omega (arith, b.1),
        rounds-answers p env a ask n 0 r
            ∙ ap (λ (x : Books). x.step_usage ++ answers p env a ask n 0 r) e,
      )
    where
      no_snoc : (us : List Usage) (u : Usage) → [] ≡ us ++ u ∷ [] → ⊥
      no_snoc us u q = omega (arith, ap length q, length-append us (u ∷ []))

      start :
          IsBalanced (record {
            steps = 0;
            step_usage = [];
            usage = no_usage;
            session_usage = u₀;
            budget = b₀;
          })
      start = record {
        counted = refl;
        summed = refl;
        billed = refl;
        spent = spend_all-nil b₀;
        within = λ us u q. absurd (no_snoc us u q);
        allowed = λ us u q. absurd (no_snoc us u q);
      }
