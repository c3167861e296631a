-- ===== src/Loop.antt =====
-- agent.go: the loop of an agent (`drive`), from `begin` to `finish`, and the calls that run it. The
-- session and the budget are the run's own while it lasts, but for a compaction (see Compaction).
-- Each round asks `ask`, which stands for the provider's Complete or Stream on the agent's request.
pub mod Paired
pub mod Rounds
pub mod Turns
pub mod Transcript
pub mod Finishing
pub mod Whole
pub mod Accounts
pub mod Called
pub mod Bounded
pub mod Entry
use golm.Common.{
  ℕ, zero, suc, ◌+◌, ◌⊎◌, inl, inr, Bool, true, false, ◌&&◌, ◌||◌, not, Option, none, some, List,
  [], ◌∷◌, ◌++◌, map, Bytes, codes, ℤ, pos, negsuc, Int64, lt_int, le_int, ltb, if◌then◌else◌,
  length, is_empty,
}
use golm.Usage.{Usage, total}
use golm.Usage
use golm.Budget.{Budget, spend, exhausted, spent_of, limit_of}
use golm.Content.{Role, tool, ToolUse, ToolResult, Content, tool_result, tool_text}
use golm.Message.{Message, message_text, tool_uses, user_text}
use golm.History.{Call, panic, returns}
use golm.Session.{Session, append, rollback, trim, add_usage, acquire, release}
use golm.Compaction.{CompactConfig, CompactResult, compact}
use golm.Compaction
use golm.Tools.{Printer}
use golm.Agent.{
  Agent, Env, Request, Response, StopReason, end_turn, tool_calls, max_tokens, refusal,
  context_overflow, pause, other, unknown, Result, no_result, Error, no_provider, no_session,
  session_busy, cancelled, provider_failed, token_budget, shared_budget, max_steps_reached,
  CompactPolicy, max_steps_of, request, executable_stop, stop_error,
}
use golm.Observe.{Observed, observe}

-- What `emit` publishes of the run itself.
pub data Event : Type 0 where
  start message paused finished : Bytes → Event
  step : ℕ → StopReason → Usage → Event
  error : Error → Event
  compaction : Compaction.Error → Event

pub record Run (W : Type 0) : Type 0 where
  pub session : Session
  pub budget : Option Budget
  pub result : Result
  pub events : List Event
  pub world : W

pub data Next : Type 0 where
  again : Next
  ended : Option Error → Next

-- The strings behind the stop reasons.
stop_text : StopReason → Bytes
stop_text end_turn = codes "end_turn"
stop_text tool_calls = codes "tool_use"
stop_text max_tokens = codes "max_tokens"
stop_text refusal = codes "refusal"
stop_text context_overflow = codes "context_overflow"
stop_text pause = codes "pause"
stop_text other = codes "other"
stop_text (unknown s) = s

recorded : ToolUse → ToolResult
recorded u = record {
  tool_use_id = u.id;
  name = u.name;
  content = tool_text (codes "structured-output tool call recorded; not executed");
  is_error = false;
}

-- `forcedToolAnswer`.
unfoldable pub forced_tool_answer : Response → Message
unfolding recorded
forced_tool_answer resp = record {
  role = tool;
  content = map tool_result (map recorded (tool_uses resp.message));
}

unexecuted : Printer → StopReason → ToolUse → ToolResult
unfolding stop_text
unexecuted p why u = record {
  tool_use_id = u.id;
  name = u.name;
  content = tool_text (
      codes "tool call not executed: response stopped with reason "
      ++ (p.quote (stop_text why) ++ codes ", input may be incomplete"));
  is_error = true;
}

-- `answerTruncatedTools`.
unfoldable pub answer_truncated_tools : Printer → Response → Option Message
unfolding unexecuted
answer_truncated_tools p resp =
    if executable_stop resp.stop_reason || is_empty (tool_uses resp.message)
    then none
    else some (record {
      role = tool;
      content = map tool_result (map (unexecuted p resp.stop_reason) (tool_uses resp.message));
    })

-- `compactionDue`.
over_messages : ℤ → ℕ → Bool
over_messages (pos (suc n)) len = ltb (suc n) len
over_messages _ len = false

unfoldable pub compaction_due : CompactPolicy → Session → Result → Bool
unfolding over_messages
compaction_due c s r =
    over_messages c.at_messages (length s.history)
    || (lt_int 0 c.at_input_tokens && le_int c.at_input_tokens r.response.usage.input_tokens)

-- What a run comes to: nothing, since the session was nil, a panic, or a state and an error.
pub data Ran (W : Type 0) : Type 0 where
  no_run : Error → Ran W
  panicked : Ran W
  ran_to : Run W → Option Error → Ran W

module _ {W : Type 0} (p : Printer) (env : Env W) (a : Agent) where
  pub emit : Event → Run W → Run W
  emit e r = record r { events = r.events ++ e ∷ [] }

  appended : Message → Run W → Run W
  appended m r = record r { session = append (m ∷ []) (env.clock r.world) r.session }

  recovered : Response → Run W → Run W
  unfolding appended
  recovered resp r = elim (answer_truncated_tools p resp) [ none ↦ r | some m ↦ appended m r ]

  -- `book`.
  unfoldable pub book : Usage → Run W → Run W
  book u r = record r {
    session = add_usage u r.session;
    budget = spend r.budget u;
    result = record (r.result) {
      usage = Usage.add r.result.usage u;
      step_usage = r.result.step_usage ++ u ∷ [];
    };
  }

  done_with : Option Error → Run W → Run W × Next
  unfolding emit
  done_with e r = (emit (finished (message_text r.result.message)) r, ended e)

  unanswered : Response → Run W → Run W × Next
  unfolding done_with appended
  unanswered resp r = elim (answer_truncated_tools p resp) [
    | some m ↦ (appended m r, again)
    | none ↦ done_with none r
  ]

  -- The `switch` on the stop reason.
  by_stop : StopReason → Response → Run W → Run W × Next
  unfolding done_with recovered unanswered emit
  by_stop pause resp r = (recovered resp (emit (paused (message_text r.result.message)) r), again)
  by_stop context_overflow resp r = done_with (stop_error resp.stop_reason) (recovered resp r)
  by_stop refusal resp r = done_with (stop_error resp.stop_reason) (recovered resp r)
  by_stop other resp r = done_with none (recovered resp r)
  by_stop _ resp r = unanswered resp r

  is_forced : Response → Bool
  is_forced resp =
      not (is_empty a.tool_choice)
      && (executable_stop resp.stop_reason && not (is_empty (tool_uses resp.message)))

  observed_by : Observed W → Run W → Run W
  unfolding appended
  observed_by o r = appended o.message (record r {
    world = o.world;
    result = record (r.result) {
      tool_errors = r.result.tool_errors + o.tool_errors;
      tool_denials = r.result.tool_denials + o.denials;
    };
  })

  -- What the loop does with a response that is in the transcript.
  pub act_on : Response → ℕ → Run W → Run W × Next
  unfolding by_stop is_forced observed_by done_with appended
  act_on resp i r =
      if is_forced resp
      then done_with none (appended (forced_tool_answer resp) r)
      else elim (observe p env a resp i r.world) [
        | some o ↦ (observed_by o r, again)
        | none ↦ by_stop resp.stop_reason resp r
      ]

  -- The response is booked and enters the transcript.
  pub accept : Response → ℕ → Run W → Run W
  unfolding emit appended book
  accept resp i r =
      let b = book resp.usage r in
      let s = emit (step i resp.stop_reason resp.usage) (record b {
        result = record (b.result) { steps = i; stop_reason = resp.stop_reason; response = resp };
      }) in
      let m = appended resp.message s in
      emit (message (message_text resp.message))
        (record m { result = record (m.result) { message = resp.message } })

  pub failed : Response → Bytes → ℕ → Run W → Run W × Next
  unfolding emit book
  failed resp why i r =
      let b = book resp.usage r in
      let s = record b { result = record (b.result) { steps = i } } in
      (emit (error (provider_failed why)) s, ended (some (provider_failed why)))

  -- The checks on the tokens that are left.
  pub budget_gate : Run W → Option Error
  budget_gate r =
      let spent = total r.result.usage in
      if lt_int 0 a.max_total_tokens && le_int a.max_total_tokens spent
      then some (token_budget spent a.max_total_tokens)
      else if exhausted r.budget
      then some (shared_budget (spent_of r.budget) (limit_of r.budget))
      else none

  pub gate : Run W → Option Error × Run W
  unfolding budget_gate
  gate r =
      let (over, w) = env.ctx_err r.world in
      elim over [
        | some e ↦ (some (cancelled e), record r { world = w })
        | none ↦ (budget_gate r, record r { world = w })
      ]

  module _ (ask : Session → W → (Response × Option Bytes) × W) where
    pub asked : ℕ → Run W → Run W × Next
    unfolding failed accept act_on
    asked i r =
        let ((resp, why), w) = ask r.session r.world in
        let r' = record r { world = w } in
        elim why [ some e ↦ failed resp e i r' | none ↦ act_on resp i (accept resp i r') ]

    -- One round of the loop, the i-th from 1.
    pub round : ℕ → Run W → Run W × Next
    unfolding gate asked emit
    round i r =
        let (refused_by, r') = gate r in
        elim refused_by [ some e ↦ (emit (error e) r', ended (some e)) | none ↦ asked i r' ]

    pub carry_on : Run W × Next → (Run W → Run W × Option Error) → Run W × Option Error
    carry_on (r, again) k = k r
    carry_on (r, ended e) k = (r, e)

    -- The loop with `n` rounds left after `i` of them.
    unfoldable pub rounds : ℕ → ℕ → Run W → Run W × Option Error
    unfolding carry_on round emit
    rounds zero i r =
        let e = max_steps_reached (max_steps_of a.max_steps) in (emit (error e) r, some e)
    rounds (suc n) i r = carry_on (round (suc i) r) (rounds n (suc i))

  pub rolled_back : ℕ → Run W × Option Error → Run W × Option Error
  rolled_back base (r, none) = (r, none)
  rolled_back base (r, some e) =
      (record r { session = rollback (pos base) (env.clock r.world) r.session }, some e)

  pub trimmed : Run W → Call Session → Call (Run W)
  trimmed r panic = panic
  trimmed r (returns s) = returns (record r { session = s })

  pub trim_after : ℤ → Run W → Call (Run W)
  unfolding trimmed
  trim_after (pos (suc n)) r = trimmed r (trim (pos (suc n)) r.session)
  trim_after _ r = returns r

  compact_error : Compaction.Error → Session → Run W → Run W
  unfolding emit
  compact_error e s r =
      emit (compaction e)
        (record r { session = s; result = record (r.result) { compact_error = some (inl e) } })

  pub compacted : Run W → Call (Compaction.Result CompactResult × Session) → Call (Run W)
  unfolding compact_error
  compacted r panic = panic
  compacted r (returns (Compaction.err e, s)) = returns (compact_error e s r)
  compacted r (returns (Compaction.ok out, s)) =
      returns (record r { session = add_usage out.usage s; budget = spend r.budget out.usage })

  pub compact_after : CompactPolicy → Run W → Call (Run W)
  unfolding compacted
  compact_after c r =
      let (over, w) = env.ctx_err r.world in
      elim over [
        | some e ↦
            returns
              (record r { world = w; result = record (r.result) { compact_error = some (inr e) } })
        | none ↦
            let (ops, w') = env.meanwhile w in
            compacted (record r { world = w' })
              (compact c.config (env.random w) (env.clock w) ops (env.clock w') r.session)
      ]

  pub finish_with : Option CompactPolicy → Run W → Call (Run W)
  unfolding trim_after compact_after
  finish_with none r = trim_after a.keep_last r
  finish_with (some c) r =
      if compaction_due c r.session r.result then compact_after c r else returns r

  -- `finish`.
  unfoldable pub finish : Run W → Call (Run W)
  unfolding finish_with
  finish r = finish_with a.compaction r

  pub with_error : Option Error → Call (Run W) → Call (Run W × Option Error)
  with_error e panic = panic
  with_error e (returns r) = returns (r, e)

  -- `drive`: the loop, then the rollback of a failed run, then `finish`.
  unfoldable pub drive :
      (Session → W → (Response × Option Bytes) × W) → ℕ → Run W → Call (Run W × Option Error)
  unfolding rolled_back with_error
  drive ask base r =
      let (r', e) = rolled_back base (rounds ask (max_steps_of a.max_steps) 0 r) in
      with_error e (finish r')

  pub acquired : Message → Run W → Session × Bool → Run W × Option Error
  unfolding emit appended
  acquired msg r (s, false) = (r, some session_busy)
  acquired msg r (s, true) =
      (appended msg (emit (start (message_text msg)) (record r { session = s })), none)

  -- `begin`.
  unfoldable pub begin : Message → Run W → Run W × Option Error
  unfolding acquired
  begin msg r =
      if a.has_provider
      then (let (over, w) = env.ctx_err r.world in
          elim over [
            | some e ↦ (record r { world = w }, some (cancelled e))
            | none ↦ acquired msg (record r { world = w }) (acquire r.session)
          ])
      else (r, some no_provider)

  pub released : Call (Run W × Option Error) → Call (Run W × Option Error)
  released panic = panic
  released (returns (r, e)) = returns (record r { session = release r.session }, e)

  pub begun :
      (Session → W → (Response × Option Bytes) × W)
      → ℕ
      → Run W × Option Error
      → Call (Run W × Option Error)
  unfolding released
  begun ask base (r, some e) = returns (r, some e)
  begun ask base (r, none) = released (drive ask base r)

  pub fresh : Session → Option Budget → W → Run W
  fresh s b w = record { session = s; budget = b; result = no_result; events = []; world = w }

  -- A run on a session, the body that `RunMessage` and `StreamMessage` share.
  unfoldable pub run_with :
      (Session → W → (Response × Option Bytes) × W)
      → Session
      → Option Budget
      → Message
      → W
      → Call (Run W × Option Error)
  unfolding begun fresh
  run_with ask s b msg w = begun ask (length s.history) (begin msg (fresh s b w))

  ran : Call (Run W × Option Error) → Ran W
  ran panic = panicked
  ran (returns (r, e)) = ran_to r e

  run_on :
      (Session → W → (Response × Option Bytes) × W)
      → Option Session
      → Option Budget
      → Message
      → W
      → Ran W
  unfolding run_with ran
  run_on ask none b msg w = no_run no_session
  run_on ask (some s) b msg w = ran (run_with ask s b msg w)

  unfoldable pub run_message : Option Session → Option Budget → Message → W → Ran W
  unfolding run_on
  run_message = run_on (λ s w. env.complete (request env a s) w)

  unfoldable pub run : Option Session → Option Budget → Bytes → W → Ran W
  run s b input w = run_message s b (user_text input) w

  -- The events of the stream go to the caller's function, and come to a response here.
  unfoldable pub stream_message : Option Session → Option Budget → Message → W → Ran W
  unfolding run_on
  stream_message = run_on (λ s w. env.stream (request env a s) w)
