-- ===== src/Loop/Turns.antt =====
-- agent.go: what a response that entered the transcript leads to.
use golm.Common.{
  ℕ, ◌<◌, ◌≡◌, ap, subst, ◌∙◌, ◌⊎◌, inl, inr, true, false, Bool-cases, none, List, [], ◌∷◌, ◌++◌,
  append_assoc, arith, is_empty, int_mod,
}
use golm.Message.{Message, tool_uses}
use golm.Session.{append, add_usage}
use golm.Usage.{Usage}
use golm.Tools.{Printer}
use golm.Agent.{
  Agent, Env, Response, StopReason, end_turn, tool_calls, max_tokens, refusal, context_overflow,
  pause, other, unknown, executable_stop, stop_error,
}
use golm.Observe.{Observed}
use golm.Observe.Turn.{ToolMessage, observe-ToolMessage}
use golm.Loop.{
  Event, step, Run, forced_tool_answer, emit, appended, recovered, book, done_with, unanswered,
  by_stop, is_forced, observed_by, act_on, accept,
}
use golm.Loop.Paired.{Paired, is_tool, Paired-append, pair-Paired}
use golm.Loop.Rounds.{steps_seen, steps_seen-append, Grown, truncated_cases, forced-ToolMessage}

-- The run has just taken in the message `m`, whose calls are open.
pub record Open {W : Type 0} (h : List Message) (m : Message) (r : Run W) : Type 0 where
  pub before : List Message
  pub history_eq : r.session.history ≡ h ++ (before ++ m ∷ [])
  pub answered : Paired (h ++ before)
  pub asks : is_tool m ≡ false
  pub seen : 0 < steps_seen r.events
  pub rev_lt : r.session.rev < int_mod

seen_step :
    (es : List Event) (i : ℕ) (s : StopReason) (u : Usage) (f : Event)
    → 0 < steps_seen ((es ++ step i s u ∷ []) ++ f ∷ [])
seen_step es i s u f = omega (
  arith,
  steps_seen-append (es ++ step i s u ∷ []) (f ∷ []),
  steps_seen-append es (step i s u ∷ []),
)

module _ {W : Type 0} (p : Printer) (env : Env W) (a : Agent) (h : List Message) where
  pub emit-Grown : (e : Event) (r : Run W) → Grown h r → Grown h (emit p env a e r)
  unfolding emit
  emit-Grown e r g = record {
    added = g.added;
    history_eq = g.history_eq;
    answered = g.answered;
    quiet = λ z. g.quiet (omega (arith, steps_seen-append r.events (e ∷ [])));
    rev_lt = g.rev_lt;
  }

  emit-Open : (m : Message) (e : Event) (r : Run W) → Open h m r → Open h m (emit p env a e r)
  unfolding emit
  emit-Open m e r o = record {
    before = o.before;
    history_eq = o.history_eq;
    answered = o.answered;
    asks = o.asks;
    seen = omega (arith, o.seen, steps_seen-append r.events (e ∷ []));
    rev_lt = o.rev_lt;
  }

  close-Grown : (m : Message) (r : Run W) → is_empty (tool_uses m) ≡ true → Open h m r → Grown h r
  close-Grown m r q o = record {
    added = o.before ++ m ∷ [];
    history_eq = o.history_eq;
    answered =
        subst Paired (append_assoc h o.before (m ∷ []))
          (Paired-append (h ++ o.before) (m ∷ []) o.answered (q, o.asks));
    quiet = λ z. absurd (omega (arith, o.seen));
    rev_lt = o.rev_lt;
  }

  answer-Grown :
      (m t : Message) (r : Run W)
      → ToolMessage (tool_uses m) t
      → Open h m r
      → Grown h (appended p env a t r)
  unfolding appended append
  answer-Grown m t r am o = record {
    added = o.before ++ m ∷ t ∷ [];
    history_eq =
        ap (λ x. x ++ t ∷ []) o.history_eq
        ∙ (append_assoc h (o.before ++ m ∷ []) (t ∷ [])
            ∙ ap (λ x. h ++ x) (append_assoc o.before (m ∷ []) (t ∷ [])));
    answered =
        subst Paired (append_assoc h o.before (m ∷ t ∷ []))
          (Paired-append (h ++ o.before) (m ∷ t ∷ []) o.answered (pair-Paired m t o.asks am));
    quiet = λ z. absurd (omega (arith, o.seen));
    rev_lt = o.rev_lt;
  }

  done_with-Grown : (e : _) (r : Run W) → Grown h r → Grown h (done_with p env a e r).0
  unfolding done_with
  done_with-Grown e r g = emit-Grown _ r g

  module _ (resp : Response)
      (left : (is_empty (tool_uses resp.message) ≡ true)
        ⊎ (executable_stop resp.stop_reason ≡ false)) where
    recovered-Grown : (r : Run W) → Open h resp.message r → Grown h (recovered p env a resp r)
    unfolding recovered
    recovered-Grown r o = elim (truncated_cases p resp left) [
      | inl (e, q) ↦ rw (e, recovered) (close-Grown resp.message r q o)
      | inr (m, e, am) ↦ rw (e, recovered) (answer-Grown resp.message m r am o)
    ]

    unanswered-Grown : (r : Run W) → Open h resp.message r → Grown h (unanswered p env a resp r).0
    unfolding unanswered
    unanswered-Grown r o = elim (truncated_cases p resp left) [
      | inl (e, q) ↦ rw (e, unanswered) (done_with-Grown none r (close-Grown resp.message r q o))
      | inr (m, e, am) ↦ rw (e, unanswered) (answer-Grown resp.message m r am o)
    ]

    by_stop-Grown :
        (s : StopReason) (r : Run W) → Open h resp.message r → Grown h (by_stop p env a s resp r).0
    unfolding by_stop
    by_stop-Grown pause r o = recovered-Grown _ (emit-Open resp.message _ r o)
    by_stop-Grown context_overflow r o =
        done_with-Grown (stop_error resp.stop_reason) _ (recovered-Grown r o)
    by_stop-Grown refusal r o =
        done_with-Grown (stop_error resp.stop_reason) _ (recovered-Grown r o)
    by_stop-Grown other r o = done_with-Grown none _ (recovered-Grown r o)
    by_stop-Grown end_turn r o = unanswered-Grown r o
    by_stop-Grown tool_calls r o = unanswered-Grown r o
    by_stop-Grown max_tokens r o = unanswered-Grown r o
    by_stop-Grown (unknown x) r o = unanswered-Grown r o

  observed_by-Grown :
      (m : Message) (ob : Observed W) (r : Run W)
      → ToolMessage (tool_uses m) ob.message
      → Open h m r
      → Grown h (observed_by p env a ob r)
  unfolding observed_by
  observed_by-Grown m ob r am o = answer-Grown m ob.message _ am (record {
    before = o.before;
    history_eq = o.history_eq;
    answered = o.answered;
    asks = o.asks;
    seen = o.seen;
    rev_lt = o.rev_lt;
  })

  -- Whatever a response asks for and however it stopped, no call is left open.
  pub act_on-Grown :
      (resp : Response) (i : ℕ) (r : Run W)
      → Open h resp.message r
      → Grown h (act_on p env a resp i r).0
  unfolding act_on
  act_on-Grown resp i r o = elim (Bool-cases (is_forced p env a resp)) [
    | inl f ↦ rw f (
        done_with-Grown none _
          (answer-Grown resp.message (forced_tool_answer resp) r (forced-ToolMessage resp) o))
    | inr f ↦ elim (observe-ToolMessage p env a resp i r.world) [
      | inl (e, left) ↦ rw f (rw (e, act_on) (by_stop-Grown resp left resp.stop_reason r o))
      | inr (ob, e, x, t, c) ↦ rw f (rw (e, act_on) (observed_by-Grown resp.message ob r t o))
    ]
  ]

  pub accept-Open :
      (resp : Response) (i : ℕ) (r : Run W)
      → is_tool resp.message ≡ false
      → Grown h r
      → Open h resp.message (accept p env a resp i r)
  unfolding accept emit appended append book add_usage
  accept-Open resp i r n g = record {
    before = g.added;
    history_eq =
        ap (λ x. x ++ resp.message ∷ []) g.history_eq ∙ append_assoc h g.added (resp.message ∷ []);
    answered = g.answered;
    asks = n;
    seen = seen_step r.events i resp.stop_reason resp.usage _;
    rev_lt = g.rev_lt;
  }
