-- ===== src/Loop/Rounds.antt =====
-- agent.go: one round of the loop, and what it leaves of the transcript.
use golm.Common.{
  ℕ, suc, ◌+◌, ◌<◌, ◌≡◌, refl, ◌⊎◌, inl, inr, true, false, Bool-cases, none, some, List, [], ◌∷◌,
  ◌++◌, map, arith, is_empty, int_mod,
}
use golm.Content.{tool, ToolUse, tool_result}
use golm.Message.{Message, tool_uses}
use golm.Tools.{Printer}
use golm.Agent.{Response, StopReason, executable_stop}
use golm.Observe.Answers.{AnswersAll}
use golm.Observe.Turn.{ToolMessage}
use golm.Loop.{Event, step, Run, recorded, forced_tool_answer, unexecuted, answer_truncated_tools}
use golm.Loop.Paired.{Paired}

-- How many responses the events tell of.
abbrev pub steps_seen : List Event → ℕ
steps_seen [] = 0
steps_seen (step i r u ∷ es) = suc (steps_seen es)
steps_seen (_ ∷ es) = steps_seen es

pub steps_seen-append : (es fs : List Event) → steps_seen (es ++ fs) ≡ steps_seen es + steps_seen fs
steps_seen-append [] fs = omega arith
steps_seen-append (step i r u ∷ es) fs = omega (arith, steps_seen-append es fs)
steps_seen-append (Event.start b ∷ es) fs = steps_seen-append es fs
steps_seen-append (Event.message b ∷ es) fs = steps_seen-append es fs
steps_seen-append (Event.paused b ∷ es) fs = steps_seen-append es fs
steps_seen-append (Event.finished b ∷ es) fs = steps_seen-append es fs
steps_seen-append (Event.error b ∷ es) fs = steps_seen-append es fs
steps_seen-append (Event.compaction b ∷ es) fs = steps_seen-append es fs

recorded-AnswersAll : (us : List ToolUse) → AnswersAll us (map recorded us)
unfolding recorded
recorded-AnswersAll [] = tt
recorded-AnswersAll (u ∷ us) = ((refl, refl), recorded-AnswersAll us)

unexecuted-AnswersAll :
    (p : Printer) (why : StopReason) (us : List ToolUse) → AnswersAll us (map (unexecuted p why) us)
unfolding unexecuted
unexecuted-AnswersAll p why [] = tt
unexecuted-AnswersAll p why (u ∷ us) = ((refl, refl), unexecuted-AnswersAll p why us)

pub forced-ToolMessage :
    (resp : Response) → ToolMessage (tool_uses resp.message) (forced_tool_answer resp)
unfolding forced_tool_answer
forced-ToolMessage resp = record {
  results = _;
  message_eq = refl;
  answers = recorded-AnswersAll (tool_uses resp.message);
}

-- A response that could not be executed as it stands is answered, unless it asks for nothing.
pub truncated_cases :
    (p : Printer) (resp : Response)
    → (is_empty (tool_uses resp.message) ≡ true) ⊎ (executable_stop resp.stop_reason ≡ false)
    → ((answer_truncated_tools p resp ≡ none) × (is_empty (tool_uses resp.message) ≡ true))
      ⊎ ((m : Message) × (answer_truncated_tools p resp ≡ some m)
          × ToolMessage (tool_uses resp.message) m)
unfolding answer_truncated_tools
truncated_cases p resp h = elim (Bool-cases (is_empty (tool_uses resp.message))) [
  | inl e ↦ inl (ground arith, e)
  | inr e ↦
      let x : executable_stop resp.stop_reason ≡ false = ground arith in
      inr (
        record {
          role = tool;
          content = map tool_result (map (unexecuted p resp.stop_reason) (tool_uses resp.message));
        },
        rw x (rw e refl),
        record {
          results = _;
          message_eq = refl;
          answers = unexecuted-AnswersAll p resp.stop_reason (tool_uses resp.message);
        },
      )
]

-- The transcript of a run that began at `h`: what it has grown by, with no call open.
pub record Grown {W : Type 0} (h : List Message) (r : Run W) : Type 0 where
  pub added : List Message
  pub history_eq : r.session.history ≡ h ++ added
  pub answered : Paired (h ++ added)
  pub quiet : steps_seen r.events ≡ 0 → added ≡ []
  pub rev_lt : r.session.rev < int_mod
