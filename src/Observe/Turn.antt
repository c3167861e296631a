-- ===== src/Observe/Turn.antt =====
-- agent.go: what `observe` makes of a response.
use golm.Common.{
  ℕ, ◌≡◌, refl, sym, subst, ◌⊎◌, inl, inr, true, false, Bool-cases, none, some, List, [], ◌∷◌, map,
  is_empty,
}
use golm.Content.{tool, ToolUse, ToolResult, tool_result}
use golm.Message.{Message, tool_uses}
use golm.Tools.{Printer}
use golm.Agent.{Agent, Env, Response, executable_stop}
use golm.Observe.{
  Progress, pending, started, done, Slot, settle, settled, observe_uses, observe, Observed,
  failed_result, count_errors,
}
use golm.Observe.Answers.{
  Answers, AnswersAll, Holds, SlotFor, SlotsFor, run_slots-SlotsFor, decide_slots-SlotsFor,
}

-- A message of the role tool that answers calls one by one, in order.
pub record ToolMessage (us : List ToolUse) (m : Message) : Type 0 where
  pub results : List ToolResult
  pub message_eq : m ≡ record { role = tool; content = map tool_result results }
  pub answers : AnswersAll us results

module _ {W : Type 0} (p : Printer) (env : Env W) (a : Agent) where
  settle-Answers : (u : ToolUse) (q : Progress) → Holds u q → Answers u (settle p env a q u)
  unfolding settle failed_result
  settle-Answers u pending h = (refl, refl)
  settle-Answers u (started r) h = (refl, refl)
  settle-Answers u (done r) h = h

  settled-Answers : (u : ToolUse) (s : Slot) → SlotFor u s → Answers u (settled p env a s)
  unfolding settled
  settled-Answers u s h =
      subst (λ v. Answers u (settle p env a s.progress v)) (sym h.0)
        (settle-Answers u s.progress h.1)

  settle-AnswersAll :
      (us : List ToolUse) (ss : List Slot)
      → SlotsFor us ss
      → AnswersAll us (map (settled p env a) ss)
  settle-AnswersAll [] [] h = tt
  settle-AnswersAll [] (s ∷ ss) h = absurd h
  settle-AnswersAll (u ∷ us) [] h = absurd h
  settle-AnswersAll (u ∷ us) (s ∷ ss) h = (settled-Answers u s h.0, settle-AnswersAll us ss h.1)

  observe_uses-ToolMessage :
      (step : ℕ) (us : List ToolUse) (w : W)
      → let o = observe_uses p env a step us w in
        (t : ToolMessage us o.message) × (o.tool_errors ≡ count_errors t.results)
  unfolding observe_uses
  observe_uses-ToolMessage step us w = (
    record {
      results = _;
      message_eq = refl;
      answers =
          settle-AnswersAll us _
            (run_slots-SlotsFor p env a us _ _ (decide_slots-SlotsFor p env a step us w));
    },
    refl,
  )

  -- A response that stopped in a way that lets tools run, and asks for some, is always answered by
  -- one tool message: one result for each call in the order of the calls, under the call's id and
  -- name, whatever the policy refuses, whichever tools fail, panic or are unknown, and whoever
  -- misses the deadline, alone or in parallel. The count of errors is the number of results
  -- that are marked so. Any other response is left to the caller.
  pub observe-ToolMessage :
      (resp : Response) (step : ℕ) (w : W)
      → ((observe p env a resp step w ≡ none)
          × ((is_empty (tool_uses resp.message) ≡ true)
              ⊎ (executable_stop resp.stop_reason ≡ false)))
        ⊎ ((o : Observed W) × (observe p env a resp step w ≡ some o)
            × (executable_stop resp.stop_reason ≡ true)
            × (t : ToolMessage (tool_uses resp.message) o.message) × (o.tool_errors
                ≡ count_errors t.results))
  unfolding observe
  observe-ToolMessage resp step w = elim (Bool-cases (is_empty (tool_uses resp.message))) [
    | inl e ↦ inl (rw e refl, inl e)
    | inr e ↦ elim (Bool-cases (executable_stop resp.stop_reason)) [
      | inl x ↦
          let (t, c) = observe_uses-ToolMessage step (tool_uses resp.message) w in
          inr (observe_uses p env a step (tool_uses resp.message) w, rw e (rw x refl), x, t, c)
      | inr x ↦ inl (rw e (rw x refl), inr x)
    ]
  ]
