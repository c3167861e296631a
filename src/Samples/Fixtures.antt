-- ===== src/Samples/Fixtures.antt =====
-- An agent with one tool, the environments that it runs in, and a session.
use golm.Common.{
  ℕ, suc, true, false, Option, none, some, List, [], ◌∷◌, Bytes, codes, pos, ltb, if◌then◌else◌,
}
use golm.Usage.{Usage, no_usage}
use golm.Content.{Role, user, assistant, ToolUse, text, tool_use, tool_text}
use golm.Message.{Message}
use golm.History.{Call, panic, returns}
use golm.Session.{Session}
use golm.Compaction.{CompactConfig, Summary, gives}
use golm.Tools.{Printer, Tool, Execution}
use golm.Agent.{
  Agent, Env, Response, no_response, end_turn, tool_calls, Sampling, Error, lets, no_result,
}
use golm.Loop.{Run}

abbrev pub printer : Printer
printer = record { quote = λ s. s; decimal = λ n. n ∷ [] }

abbrev pub said : Role → Bytes → Message
said r s = record { role = r; content = text s ∷ [] }

abbrev pub hello : Message
hello = said user (codes "hello")

abbrev pub talk : List Message
talk =
    said user (codes "a")
    ∷ said assistant (codes "b")
    ∷ said user (codes "c")
    ∷ said assistant (codes "d")
    ∷ []

abbrev pub session : Session
session = record {
  id = codes "s";
  parent = [];
  title = [];
  created = 1;
  updated = 1;
  rev = 7;
  history = talk;
  state = (codes "k", codes "1") ∷ [];
  usage = no_usage;
  running = false;
}

abbrev pub clock_tool : Tool
clock_tool = record { name = codes "clock"; description = codes "time"; schema = codes "{}" }

abbrev pub clock_use : ToolUse
clock_use = record { id = codes "c1"; name = codes "clock"; input = codes "{}"; signature = [] }

-- A call of a name that nothing is registered under.
abbrev pub stray_use : ToolUse
stray_use = record { id = codes "c2"; name = codes "none"; input = codes "{}"; signature = [] }

abbrev pub ten : Usage
ten = record (no_usage) { input_tokens = 7; output_tokens = 3 }

abbrev pub calling : Response
calling = record (no_response) {
  message = record { role = assistant; content = tool_use clock_use ∷ tool_use stray_use ∷ [] };
  stop_reason = tool_calls;
  usage = ten;
}

abbrev pub answering : Response
answering = record (no_response) {
  message = said assistant (codes "noon");
  stop_reason = end_turn;
  usage = ten;
}

-- It calls the tools in the first answer and has the answer in the second.
abbrev pub script : Session → ℕ → (Response × Option Bytes) × ℕ
script s w = ((if ltb w 1 then calling else answering, none), suc w)

abbrev pub dead : Session → ℕ → (Response × Option Bytes) × ℕ
dead s w = ((record (no_response) { usage = ten }, some (codes "unreachable")), suc w)

abbrev pub env : Env ℕ
env = record {
  complete = λ q w. ((answering, none), w);
  stream = λ q w. ((answering, none), w);
  ctx_err = λ w. (none, w);
  policy = λ q w. (lets, w);
  execute = λ t u w. (Execution.gives (tool_text (codes "12:00")), w);
  in_time = λ w. (true, w);
  launches = λ w. (true, w);
  arrivals = λ w. (1 ∷ 0 ∷ [], w);
  report = λ r w. (none, w);
  clock = λ w. w;
  random = λ w. codes "r";
  meanwhile = λ w. ([], w);
  sort = λ ts. ts;
}

abbrev pub sampling : Sampling
sampling = record {
  max_tokens = pos 0;
  temperature = none;
  thinking_mode = pos 0;
  thinking_budget = pos 0;
  effort = [];
  safety = [];
  response_modalities = [];
}

abbrev pub agent : Agent
agent = record {
  has_provider = true;
  model = codes "m";
  system = codes "be brief";
  system_prompt = [];
  tools = some (clock_tool ∷ []);
  sampling = sampling;
  tool_choice = [];
  max_steps = pos 3;
  max_total_tokens = 1000;
  compaction = none;
  keep_last = pos 0;
  cache_prompt = false;
  cache_prompt_ttl = [];
  name = codes "agent";
  parallel_tools = true;
  has_policy = true;
  max_tool_result_bytes = pos 4;
  has_on_tool_result = false;
}

abbrev pub summary : Summary
summary = record { text = codes "sum"; usage = ten }

abbrev pub compacting : CompactConfig
compacting = record { keep_last = pos 1; summarise = some (λ h. gives summary); archive = none }

abbrev pub start : Run ℕ
start = record { session = session; budget = none; result = no_result; events = []; world = 0 }

abbrev pub run_of : Call (Run ℕ × Option Error) → Run ℕ
run_of panic = start
run_of (returns (r, e)) = r
