-- ===== src/Lib.antt =====
-- golm is a Go library for agents on large language models. The core is the agent loop: an Agent
-- (agent.go) runs on a Session (session.go), asks a provider for a response, books what it cost,
-- runs the tools that the response asks for under a policy, appends the answers to the transcript
-- and asks again, until the response needs no more. At the end it trims or compacts the transcript.
-- An Orchestrator (orchestrator.go) asks a Router which of its agents takes a turn, keeps the
-- sessions of the sub-agents that an agent delegates to (delegation.go) and fans one out over
-- several tasks (fan.go). A server of the A2A protocol (a2a/) runs an agent as the handler of a
-- task and streams the task's events, which its client reads through the scanner of server-sent
-- events.
--
-- The files and the code they model, with paths from the repository's root:
--   Common      names of the libraries, lists and texts on native numbers, 64-bit integers
--   Usage       provider.go: Usage, Add, Total, Merge
--   Budget      budget.go: the token ceiling that several agents share
--   Content     content.go: the blocks of a message
--   Message     message.go: messages; Message/Json their canonical form
--   History     session.go: userBoundary, where a transcript may be cut
--   Session     session.go: each method as one step on the state under the mutex
--   Compaction  compact.go: Compact in two critical sections, with other goroutines in between
--   Tools       tool.go: Registry; agent.go: execTool, boundToolResult, truncRunes
--   Prompt      prompt.go: the sections of a system prompt
--   Agent       agent.go, provider.go: configuration, requests, and the environment of a run
--   Observe     agent.go: observe, the turn in which tools run, one by one or in parallel
--   Loop        agent.go: begin, drive, finish, and the calls that run an agent
--   Policy      policyrules.go, policy.go: the declarative policy on tool calls
--   Bus         bus.go: subscriptions and publishing in one process
--   Hub         netbus/hub.go: the ring of recent events that a subscriber is replayed from
--   A2a         a2a/protocol.go: tasks, messages and their states
--   A2a/Store   a2a/taskstore.go: the tasks of a server, on a heap, and their eviction
--   A2a/Stream  a2a/taskstore.go: the events of a task, and the broker of its subscribers
--   A2a/Wire    a2a/server.go, a2a/client.go: a response as it is written and read
--   A2a/Client  a2a/client.go: how a client reads an answer or a stream
--   A2a/Server  a2a/taskstore.go, a2a/server.go: a streamed task and what the client gets of it
--   Delegation  delegation.go: the sub-agent sessions that are kept for conversations
--   Fan         fan.go: one sub-agent over several tasks at once, as a step relation
--   Router      router.go, orchestrator.go: which agent takes a turn
--   Scanner     internal/sse/sse.go: the scanner of server-sent events
--   Samples     concrete inputs on which the theorems are applied
--
-- What stands around the program is an argument. Agent.Env holds it for a run: the provider, the
-- context, the policy, what tools do, which calls return before their deadline and in which order,
-- the clock, fresh ids, and the calls that other goroutines make on the session during a
-- compaction. Each answer may depend on a state of any type, which the model threads through the
-- run, so a theorem about all environments is one about all schedules that the model can tell
-- apart. A session is used by its run alone otherwise, which acquire and release see to for runs;
-- calls of the host on the session in the middle of a run are not modelled. The texts that %q and
-- %d print are an argument too, and so is what encoding/json validates, prints and reads, with what
-- a theorem needs of it as a named hypothesis. How times are printed and read, the order of a sort, package regexp, the case of letters and what a sub-agent's run returns
-- are arguments of the modules that use them.
--
-- Fallible code returns Option or a result type; a panic is a value (Call.panic). A Go int that is
-- added up (usages, budgets) is a 64-bit pattern with its wrap-around; bounds that are only
-- compared are integers; revision counts wrap at 2^64. A nil slice or map is the empty one. Deep
-- copies are copies of values. Loops are structural recursions: the loop of drive counts down the
-- steps that maxSteps allows, so it needs no other fuel. The scanner of events counts down the
-- bytes that are left, of which each round takes one.
--
-- Not modelled: logs, stream items and the events of single tool calls, timeouts as durations,
-- renderings of errors, configuration files, the providers' wire formats, HTTP and process
-- transports, stores on disk, and the command line.
pub mod Common
pub mod Usage
pub mod Budget
pub mod Content
pub mod Message
pub mod History
pub mod Session
pub mod Compaction
pub mod Tools
pub mod Prompt
pub mod Agent
pub mod Observe
pub mod Loop
pub mod Policy
pub mod Bus
pub mod Hub
pub mod A2a
pub mod Delegation
pub mod Fan
pub mod Router
pub mod Scanner
pub mod Samples
