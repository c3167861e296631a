-- ===== src/Observe.antt =====
-- agent.go: `observe`, the turn in which the tools that a response asks for are run. A slot stands
-- for a call: `results[i]` and `started[i]`. The events and stream items that the goroutines of the
-- calls publish are not kept; those of refused calls are, since the loop itself publishes them.
pub mod Answers
pub mod Turn
use golm.Common.{
  ℕ, zero, suc, ◌+◌, Bool, true, false, ◌&&◌, Option, none, some, List, [], ◌∷◌, ◌++◌, map, Bytes,
  codes, ltb, if◌then◌else◌, length, is_empty,
}
use golm.Content.{Role, tool, ToolUse, ToolResult, ToolContent, Content, tool_result, tool_text}
use golm.Message.{Message, tool_uses, no_message}
use golm.Tools.{Printer, Tool, Registry, Execution, fails, get, exec_tool}
use golm.Agent.{
  Agent, Env, Response, StopReason, Verdict, lets, refuses, panics, ToolRequest, executable_stop,
}

pub data Progress : Type 0 where
  pending : Progress
  -- Started, with the result that the call will come to.
  started : ToolResult → Progress
  done : ToolResult → Progress

pub record Slot : Type 0 where
  pub use_of : ToolUse
  pub progress : Progress

-- `ErrToolDenied`'s text, which a panic of the policy wraps.
denied_text : Bytes
denied_text = codes "golm: tool call denied by policy"

find_tool : Option Registry → Bytes → Option Tool
find_tool none name = none
find_tool (some tools) name = get tools name

failed_result : ToolUse → Bytes → ToolResult
failed_result u why = record {
  tool_use_id = u.id;
  name = u.name;
  content = tool_text why;
  is_error = true;
}

-- `decide`: `some` is the text of a refusal.
refusal : Verdict → Option Bytes
unfolding denied_text
refusal lets = none
refusal (refuses why) = some why
refusal (panics why) = some (denied_text ++ (codes ": policy panicked: " ++ why))

undecided : List ToolUse → List Slot
undecided us = map (λ (u : ToolUse). record { use_of = u; progress = pending }) us

arrived : Progress → Progress
arrived (started r) = done r
arrived q = q

receive : ℕ → List Slot → List Slot
unfolding arrived
receive i [] = []
receive zero (s ∷ ss) = record s { progress = arrived s.progress } ∷ ss
receive (suc i) (s ∷ ss) = s ∷ receive i ss

-- The loop that takes results in the order of their arrival; at the deadline none is left.
unfoldable pub collect : ℕ → List ℕ → List Slot → List Slot
unfolding receive
collect zero is slots = slots
collect (suc n) [] slots = slots
collect (suc n) (i ∷ is) slots = collect n is (receive i slots)

is_started : Progress → ℕ
is_started (started r) = 1
is_started _ = 0

-- `countTrue(started)`.
count_started : List Slot → ℕ
unfolding is_started
count_started [] = 0
count_started (s ∷ ss) = is_started s.progress + count_started ss

is_refused : Progress → ℕ
is_refused (done r) = 1
is_refused _ = 0

unfoldable pub count_refused : List Slot → ℕ
unfolding is_refused
count_refused [] = 0
count_refused (s ∷ ss) = is_refused s.progress + count_refused ss

unfoldable pub count_errors : List ToolResult → ℕ
count_errors [] = 0
count_errors (r ∷ rs) = (if r.is_error then 1 else 0) + count_errors rs

pub record Observed (W : Type 0) : Type 0 where
  pub message : Message
  pub tool_errors : ℕ
  pub denials : ℕ
  pub world : W

module _ {W : Type 0} (p : Printer) (env : Env W) (a : Agent) where
  not_run : ToolUse → Bytes → ToolResult
  unfolding failed_result
  not_run u why =
      failed_result u (codes "tool " ++ (p.quote u.name ++ (codes " was not run: " ++ why)))

  decided : ToolUse → Option Bytes → Slot
  unfolding not_run
  decided u none = record { use_of = u; progress = pending }
  decided u (some why) = record { use_of = u; progress = done (not_run u why) }

  -- The loop that puts each call to the policy.
  unfoldable pub decide_all : ℕ → List ToolUse → W → List Slot × W
  unfolding decided refusal find_tool
  decide_all step [] w = ([], w)
  decide_all step (u ∷ us) w =
      let (v, w') =
        env.policy
          (record { agent = a.name; step = step; tool = find_tool a.tools u.name; call = u }) w in
      let (slots, w'') = decide_all step us w' in (decided u (refusal v) ∷ slots, w'')

  -- `execTool` on the agent's tools.
  call_tool : ToolUse → W → ToolResult × W
  unfolding find_tool
  call_tool u w = elim (find_tool a.tools u.name) [
    | none ↦ (exec_tool p a.tools a.max_tool_result_bytes (λ _. fails []) u, w)
    | some t ↦
        let (x, w') = env.execute t u w in
        (exec_tool p a.tools a.max_tool_result_bytes (λ _. x) u, w')
  ]

  -- The calls one after another: a context that is over stops the loop, and so does a call that
  -- does not return in time.
  run_alone : Slot → List Slot → (W → List Slot × W) → W → List Slot × W
  unfolding call_tool
  run_alone s rest next w =
      let (over, w₁) = env.ctx_err w in
      elim over [
        | some e ↦ (s ∷ rest, w₁)
        | none ↦
            let (r, w₂) = call_tool s.use_of w₁ in
            let (back, w₃) = env.in_time w₂ in
            elim back [
              | true ↦ let (slots, w₄) = next w₃ in (record s { progress = done r } ∷ slots, w₄)
              | false ↦ (record s { progress = started r } ∷ rest, w₃)
            ]
      ]

  step_alone : Progress → Slot → List Slot → (W → List Slot × W) → W → List Slot × W
  unfolding run_alone
  step_alone (done r) s rest next w = let (slots, w') = next w in (s ∷ slots, w')
  step_alone _ s rest next w = run_alone s rest next w

  unfoldable pub run_in_turn : List Slot → W → List Slot × W
  unfolding step_alone
  run_in_turn [] w = ([], w)
  run_in_turn (s ∷ ss) w = step_alone s.progress s ss (run_in_turn ss) w

  -- The loop that starts the parallel calls, up to the deadline.
  launch_one : Slot → List Slot → (W → List Slot × W) → W → List Slot × W
  unfolding call_tool
  launch_one s rest next w =
      let (slot_free, w₁) = env.launches w in
      elim slot_free [
        | false ↦ (s ∷ rest, w₁)
        | true ↦
            let (r, w₂) = call_tool s.use_of w₁ in
            let (slots, w₃) = next w₂ in (record s { progress = started r } ∷ slots, w₃)
      ]

  step_launch : Progress → Slot → List Slot → (W → List Slot × W) → W → List Slot × W
  unfolding launch_one
  step_launch (done r) s rest next w = let (slots, w') = next w in (s ∷ slots, w')
  step_launch _ s rest next w = launch_one s rest next w

  unfoldable pub launch : List Slot → W → List Slot × W
  unfolding step_launch
  launch [] w = ([], w)
  launch (s ∷ ss) w = step_launch s.progress s ss (launch ss) w

  run_parallel : List Slot → W → List Slot × W
  unfolding count_started
  run_parallel slots w =
      let (launched, w₁) = launch slots w in
      let (order, w₂) = env.arrivals w₁ in (collect (count_started launched) order launched, w₂)

  -- A call without a result is answered too, with the reason.
  settle : Progress → ToolUse → ToolResult
  unfolding failed_result
  settle (done r) u = r
  settle (started r) u =
      failed_result u
        (codes "tool " ++ (p.quote u.name ++ codes " did not return before the deadline"))
  settle pending u = failed_result u (
      codes "tool "
      ++ (p.quote u.name
          ++ codes
              " was not executed: an earlier tool call in this turn did not return before the deadline"))

  unfoldable pub settled : Slot → ToolResult
  unfolding settle
  settled s = settle s.progress s.use_of

  -- The two ways to run what the policy let through.
  pub run_slots : List Slot → W → List Slot × W
  unfolding run_parallel
  run_slots slots w =
      if a.parallel_tools && ltb 1 (length slots) then run_parallel slots w else run_in_turn slots w

  pub decide_slots : ℕ → List ToolUse → W → List Slot × W
  unfolding undecided
  decide_slots step us w = if a.has_policy then decide_all step us w else (undecided us, w)

  -- The reports to `OnToolResult`, whose panics are caught.
  report_all : List ToolResult → W → W
  report_all [] w = w
  report_all (r ∷ rs) w = report_all rs (if a.has_on_tool_result then (env.report r w).1 else w)

  pub observe_uses : ℕ → List ToolUse → W → Observed W
  unfolding decide_slots run_slots report_all
  observe_uses step us w =
      let (slots, w₁) = decide_slots step us w in
      let (ran, w₂) = run_slots slots w₁ in
      let results = map settled ran in
      record {
        message = record { role = tool; content = map tool_result results };
        tool_errors = count_errors results;
        denials = count_refused slots;
        world = report_all results w₂;
      }

  -- `observe`: `none` is `cont = false`.
  unfoldable pub observe : Response → ℕ → W → Option (Observed W)
  unfolding observe_uses
  observe resp step w =
      if is_empty (tool_uses resp.message)
      then none
      else if executable_stop resp.stop_reason
      then some (observe_uses step (tool_uses resp.message) w)
      else none
