-- ===== src/Agent.antt =====
-- agent.go, provider.go: the agent's configuration, what it asks of a provider, and what stands
-- around it. The environment answers each question from a state of its own, which it may change:
-- the provider, the context, the policy, the tools, the scheduler and the clock.
use golm.Common.{
  ℕ, suc, Bool, true, false, Option, none, some, List, [], ◌∷◌, Bytes, ℤ, pos, Int64, is_empty,
  if◌then◌else◌, length, ◌⊎◌,
}
use golm.Usage.{Usage, no_usage}
use golm.Content.{ToolUse, ToolResult}
use golm.Message.{Message, no_message}
use golm.Session.{Session}
use golm.Compaction.{CompactConfig, Op}
use golm.Compaction
use golm.Tools.{Tool, ToolDef, Registry, Execution, defs}
use golm.Prompt.{SystemPrompt, sections, uncached}

-- Any string may stand in a `StopReason`; seven are named.
pub data StopReason : Type 0 where
  end_turn tool_calls max_tokens refusal context_overflow pause other : StopReason
  unknown : Bytes → StopReason

pub record Response : Type 0 where
  pub message : Message
  pub stop_reason : StopReason
  pub usage : Usage
  pub id : Bytes
  pub raw : Bytes

abbrev pub no_response : Response
no_response = record {
  message = no_message;
  stop_reason = unknown [];
  usage = no_usage;
  id = [];
  raw = [];
}

-- What a request passes on as it is. A temperature is the bit pattern of a float.
pub record Sampling : Type 0 where
  pub max_tokens : ℤ
  pub temperature : Option ℕ
  pub thinking_mode : ℤ
  pub thinking_budget : ℤ
  pub effort : Bytes
  pub safety : Bytes
  pub response_modalities : List Bytes

pub record CacheConfig : Type 0 where
  pub message_prefix : ℕ
  pub ttl : Bytes

pub record Request : Type 0 where
  pub model : Bytes
  pub system : SystemPrompt
  pub messages : List Message
  pub tools : List ToolDef
  pub tool_choice : Bytes
  pub sampling : Sampling
  pub cache : CacheConfig

pub record CompactPolicy : Type 0 where
  pub config : CompactConfig
  pub at_messages : ℤ
  pub at_input_tokens : Int64

pub record Agent : Type 0 where
  pub has_provider : Bool
  pub model : Bytes
  pub system : Bytes
  pub system_prompt : SystemPrompt
  pub tools : Option Registry
  pub sampling : Sampling
  pub tool_choice : Bytes
  pub max_steps : ℤ
  pub max_total_tokens : Int64
  pub compaction : Option CompactPolicy
  pub keep_last : ℤ
  pub cache_prompt : Bool
  pub cache_prompt_ttl : Bytes
  pub name : Bytes
  pub parallel_tools : Bool
  pub has_policy : Bool
  pub max_tool_result_bytes : ℤ
  pub has_on_tool_result : Bool

pub data Error : Type 0 where
  no_provider no_session session_busy refused context_exhausted : Error
  cancelled provider_failed : Bytes → Error
  token_budget shared_budget : Int64 → Int64 → Error
  max_steps_reached : ℕ → Error

pub record Result : Type 0 where
  pub message : Message
  pub stop_reason : StopReason
  pub response : Response
  pub steps : ℕ
  pub tool_errors : ℕ
  pub tool_denials : ℕ
  pub usage : Usage
  pub step_usage : List Usage
  pub compact_error : Option (Compaction.Error ⊎ Bytes)

abbrev pub no_result : Result
no_result = record {
  message = no_message;
  stop_reason = unknown [];
  response = no_response;
  steps = 0;
  tool_errors = 0;
  tool_denials = 0;
  usage = no_usage;
  step_usage = [];
  compact_error = none;
}

-- What a policy says of one call: its refusal, and its panic, by their texts.
pub data Verdict : Type 0 where
  lets : Verdict
  refuses : Bytes → Verdict
  panics : Bytes → Verdict

pub record ToolRequest : Type 0 where
  pub agent : Bytes
  pub step : ℕ
  pub tool : Option Tool
  pub call : ToolUse

pub record Env (W : Type 0) : Type 0 where
  -- `Provider.Complete` and `Provider.Stream`, with the text of an error.
  pub complete : Request → W → (Response × Option Bytes) × W
  pub stream : Request → W → (Response × Option Bytes) × W
  -- `ctx.Err()`.
  pub ctx_err : W → Option Bytes × W
  pub policy : ToolRequest → W → Verdict × W
  pub execute : Tool → ToolUse → W → Execution × W
  -- Whether a call that runs alone returns before the deadline.
  pub in_time : W → Bool × W
  -- Whether one more parallel call gets a slot before the deadline.
  pub launches : W → Bool × W
  -- The calls whose results arrive before the deadline, in that order.
  pub arrivals : W → List ℕ × W
  -- `OnToolResult`, with the text of a panic.
  pub report : ToolResult → W → Option Bytes × W
  pub clock : W → ℕ
  pub random : W → Bytes
  -- What other goroutines do to the session during a compaction, and what is then.
  pub meanwhile : W → List Op × W
  -- The order of `Registry.List`.
  pub sort : List Tool → List Tool

-- `maxSteps`.
unfoldable pub max_steps_of : ℤ → ℕ
max_steps_of (pos (suc n)) = suc n
max_steps_of _ = 8

system_with : Agent → SystemPrompt
system_with a =
    if is_empty a.system
    then a.system_prompt
    else record { text = a.system; cache = is_empty (sections a.system_prompt) } ∷ a.system_prompt

-- `systemPrompt`.
unfoldable pub system_prompt_of : Agent → SystemPrompt
unfolding system_with
system_prompt_of a = if a.cache_prompt then system_with a else uncached (system_with a)

tool_defs : (List Tool → List Tool) → Option Registry → List ToolDef
tool_defs sort none = []
tool_defs sort (some tools) = defs (sort tools)

-- `request`.
unfoldable pub request : {W : Type 0} → Env W → Agent → Session → Request
unfolding tool_defs
request env a s = record {
  model = a.model;
  system = system_prompt_of a;
  messages = s.history;
  tools = tool_defs env.sort a.tools;
  tool_choice = a.tool_choice;
  sampling = a.sampling;
  cache =
      if a.cache_prompt
      then record { message_prefix = length s.history; ttl = a.cache_prompt_ttl }
      else record { message_prefix = 0; ttl = [] };
}

-- `executableStop`.
unfoldable pub executable_stop : StopReason → Bool
executable_stop tool_calls = true
executable_stop end_turn = true
executable_stop _ = false

-- `stopError`.
unfoldable pub stop_error : StopReason → Option Error
stop_error refusal = some refused
stop_error context_overflow = some context_exhausted
stop_error _ = none
