-- ===== src/Loop/Transcript.antt =====
-- agent.go: what a whole run leaves of the transcript.
use golm.Common.{ℕ, zero, suc, ◌≡◌, inl, inr, false, Option, Option-cases, List, Bytes}
use golm.Message.{Message}
use golm.Session.{Session, add_usage}
use golm.Tools.{Printer}
use golm.Agent.{Agent, Env, Response, Error}
use golm.Loop.{Run, Next, again, ended, failed, gate, asked, round, rounds, carry_on, book}
use golm.Loop.Paired.{is_tool}
use golm.Loop.Rounds.{Grown}
use golm.Loop.Turns.{emit-Grown, act_on-Grown, accept-Open}

module _ {W : Type 0} (p : Printer) (env : Env W) (a : Agent) (h : List Message)
    (ask : Session → W → (Response × Option Bytes) × W)
    (answers : (s : Session) (w : W) → is_tool (ask s w).0.0.message ≡ false) where
  failed-Grown :
      (resp : Response) (why : Bytes) (i : ℕ) (r : Run W)
      → Grown h r
      → Grown h (failed p env a resp why i r).0
  unfolding failed book add_usage
  failed-Grown resp why i r g = emit-Grown p env a h _ _ (record {
    added = g.added;
    history_eq = g.history_eq;
    answered = g.answered;
    quiet = g.quiet;
    rev_lt = g.rev_lt;
  })

  moved-Grown : (r : Run W) (w : W) → Grown h r → Grown h (record r { world = w })
  moved-Grown r w g = record {
    added = g.added;
    history_eq = g.history_eq;
    answered = g.answered;
    quiet = g.quiet;
    rev_lt = g.rev_lt;
  }

  asked-Grown : (i : ℕ) (r : Run W) → Grown h r → Grown h (asked p env a ask i r).0
  unfolding asked
  asked-Grown i r g =
      let r' : Run W = record r { world = (ask r.session r.world).1 } in
      let g' : Grown h r' = moved-Grown r (ask r.session r.world).1 g in
      elim (Option-cases (ask r.session r.world).0.1) [
        | inr (e, q) ↦ rw (q, asked) (failed-Grown (ask r.session r.world).0.0 e i r' g')
        | inl q ↦
            rw (q, asked)
              (act_on-Grown p env a h (ask r.session r.world).0.0 i _ (
                accept-Open p env a h (ask r.session r.world).0.0 i r' (answers r.session r.world)
                  g'))
      ]

  gate-Grown : (r : Run W) → Grown h r → Grown h (gate p env a r).1
  unfolding gate
  gate-Grown r g = elim (Option-cases (env.ctx_err r.world).0) [
    | inl q ↦ rw (q, gate) (moved-Grown r _ g)
    | inr (e, q) ↦ rw (q, gate) (moved-Grown r _ g)
  ]

  round-Grown : (i : ℕ) (r : Run W) → Grown h r → Grown h (round p env a ask i r).0
  unfolding round
  round-Grown i r g = elim (Option-cases (gate p env a r).0) [
    | inr (e, q) ↦ rw (q, round) (emit-Grown p env a h _ _ (gate-Grown r g))
    | inl q ↦ rw (q, round) (asked-Grown i _ (gate-Grown r g))
  ]

  carry_on-Grown :
      (n : Next) (r : Run W) (k : Run W → Run W × Option Error)
      → Grown h r
      → ((s : Run W) → Grown h s → Grown h (k s).0)
      → Grown h (carry_on p env a ask (r, n) k).0
  unfolding carry_on
  carry_on-Grown again r k g f = f r g
  carry_on-Grown (ended e) r k g f = g

  -- The loop leaves a transcript of pairs behind the messages that were there, and nothing at all
  -- if no response came in.
  pub rounds-Grown : (n i : ℕ) (r : Run W) → Grown h r → Grown h (rounds p env a ask n i r).0
  unfolding rounds
  rounds-Grown zero i r g = emit-Grown p env a h _ r g
  rounds-Grown (suc n) i r g =
      carry_on-Grown (round p env a ask (suc i) r).1 (round p env a ask (suc i) r).0 _
        (round-Grown (suc i) r g) (rounds-Grown n (suc i))
