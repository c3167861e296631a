-- ===== src/Loop/Accounts.antt =====
-- agent.go: what the loop books, and how far it goes.
use golm.Common.{
  ℕ, ◌≡◌, refl, inl, inr, Bool-cases, Option, Option-cases, List, [], ◌∷◌, ◌++◌, Bytes,
}
use golm.Usage.{Usage, no_usage, total}
use golm.Usage
use golm.Budget.{Budget, spend}
use golm.Session.{Session, append, add_usage}
use golm.Tools.{Printer}
use golm.Agent.{
  Agent, Env, Response, StopReason, end_turn, tool_calls, max_tokens, refusal, context_overflow,
  pause, other, unknown,
}
use golm.Observe.{observe}
use golm.Loop.{
  Run, answer_truncated_tools, emit, appended, recovered, book, done_with, unanswered, by_stop,
  is_forced, observed_by, act_on, accept, failed, asked,
}

-- The accounts of a run.
pub record Books : Type 0 where
  pub steps : ℕ
  pub step_usage : List Usage
  pub usage : Usage
  pub session_usage : Usage
  pub budget : Option Budget

abbrev pub books : {W : Type 0} → Run W → Books
books r = record {
  steps = r.result.steps;
  step_usage = r.result.step_usage;
  usage = r.result.usage;
  session_usage = r.session.usage;
  budget = r.budget;
}

-- One more provider call, the i-th.
abbrev pub booked : ℕ → Usage → Books → Books
booked i u b = record {
  steps = i;
  step_usage = b.step_usage ++ u ∷ [];
  usage = Usage.add b.usage u;
  session_usage = Usage.add b.session_usage u;
  budget = spend b.budget u;
}

module _ {W : Type 0} (p : Printer) (env : Env W) (a : Agent) where
  books-recovered : (resp : Response) (r : Run W) → books (recovered p env a resp r) ≡ books r
  unfolding recovered appended append
  books-recovered resp r = elim (Option-cases (answer_truncated_tools p resp)) [
    | inl e ↦ rw (e, recovered) refl
    | inr (m, e) ↦ rw (e, recovered) refl
  ]

  books-unanswered : (resp : Response) (r : Run W) → books (unanswered p env a resp r).0 ≡ books r
  unfolding unanswered done_with emit appended append
  books-unanswered resp r = elim (Option-cases (answer_truncated_tools p resp)) [
    | inl e ↦ rw (e, unanswered) refl
    | inr (m, e) ↦ rw (e, unanswered) refl
  ]

  books-by_stop :
      (s : StopReason) (resp : Response) (r : Run W) → books (by_stop p env a s resp r).0 ≡ books r
  unfolding by_stop done_with emit
  books-by_stop pause resp r = books-recovered resp _
  books-by_stop context_overflow resp r = books-recovered resp r
  books-by_stop refusal resp r = books-recovered resp r
  books-by_stop other resp r = books-recovered resp r
  books-by_stop end_turn resp r = books-unanswered resp r
  books-by_stop tool_calls resp r = books-unanswered resp r
  books-by_stop max_tokens resp r = books-unanswered resp r
  books-by_stop (unknown x) resp r = books-unanswered resp r

  books-act_on : (resp : Response) (i : ℕ) (r : Run W) → books (act_on p env a resp i r).0 ≡ books r
  unfolding act_on done_with emit appended append observed_by
  books-act_on resp i r = elim (Bool-cases (is_forced p env a resp)) [
    | inl f ↦ rw f refl
    | inr f ↦ elim (Option-cases (observe p env a resp i r.world)) [
      | inl e ↦ rw f (rw (e, act_on) (books-by_stop resp.stop_reason resp r))
      | inr (o, e) ↦ rw f (rw (e, act_on) refl)
    ]
  ]

  module _ (ask : Session → W → (Response × Option Bytes) × W) where
    pub books-asked :
        (i : ℕ) (r : Run W)
        → books (asked p env a ask i r).0 ≡ booked i (ask r.session r.world).0.0.usage (books r)
    unfolding asked failed accept emit appended append book add_usage
    books-asked i r = elim (Option-cases (ask r.session r.world).0.1) [
      | inr (e, q) ↦ rw (q, asked) refl
      | inl q ↦ rw (q, asked) (books-act_on (ask r.session r.world).0.0 i _)
    ]
