-- ===== src/Lib.antt =====
-- haruka-ai is a Go service for chat, retrieval, tool calls over MCP, voice and long-running agent
-- tasks. This library models the parts that decide what a task, a tool call or a request may do.
--
-- Agent is the store of agent tasks, dao/agent/agent.go over model/agent.go. A worker claims a
-- pending task under a lease and a run version; every write of its graph names the run version, and
-- most of them the lease; the owner decides on steps that wait for approval, resumes and cancels; a
-- recovery takes over tasks whose lease lapsed. Agent/Model holds the rows, Agent/Fence the store and
-- the fencing token of a context (database, WithWorkerFencingToken, activeLeaseFencedTaskQuery),
-- Agent/Tasks creation, reads, ClaimTask and RenewLeaseFenced, Agent/Plan SavePlan, CreateStepsFenced
-- and the updates by a map (sanitizedUpdates), Agent/Review the pauses for review and UpdateOwnedStepDecision, Agent/Resume
-- ResumeOwnedTask and CancelOwnedTask, Agent/Recover RecoverStaleTasks, Agent/Checkpoint
-- GetCheckpoint and SetCheckpoint. Each method is a function of the same name in snake case. A
-- statement runs against a database and gives a new one or an error; a transaction that fails hands
-- no database on. GORM over MySQL is the record Agent.Platform.Platform, whose statements take a
-- test on rows (WHERE) and a new value of a row (SET); what the proofs rely on is the record Lawful:
-- an update rewrites the rows that match, its count is at most theirs and is 0 only if nothing
-- changed, a new row gets the time where its timestamps are zero, a read gives rows that are stored,
-- MAX bounds the rows that it is asked of, and a key of a map of updates that has no dot and no
-- backtick writes the column that it names, in any case (other keys may name any column). Agent/Memory
-- is a platform in memory that meets the laws. The proofs are in Agent/Superseded, Calls, Fencing,
-- Endings and Retired (generations that are over), Ownership, Approval, Consent, Claiming, Columns,
-- Planning, Sweep and Leased (what a recovery leaves alone), Replay and Envelope.
--
-- AgentService is service/agent/graph.go over those steps. AgentService/Route is nextRoute without its
-- calls of the store, and the tests that the nodes share. AgentService/Nodes has toolNode and the
-- ways it fails, AgentService/Gates approvalNode and finalizeNode, AgentService/PlanNode planNode:
-- scripts (AgentService/Script) of calls of the store, the MCP hub and the model, which go on with
-- any answer. AgentService/Planner is parsePlanJSON and materializePlan of service/agent/plan.go, whose
-- strict decoder is the argument PlanDecoder, and AgentService/Redact the redaction. A tool is checked
-- against its schema by McpSchema. The record Surroundings has SHA-256, EqualFold, new ids and the
-- clock, Secrets the regular expressions. The proofs are in Routing, in Planned (the plans that are
-- saved), and in Justify (the rules for calls and writes), Aftermath, Authority and Authorised.
--
-- McpHub is the approval store of common/mcphub/approval.go: a challenge for one call of a tool, the
-- one-time token that its user gets by approving, and the token's use. McpHub/Approval has Create,
-- Approve, Consume and cleanupLocked; an operation gives the store it leaves beside its result, since
-- a refusal changes the store as well. The clock, new ids and random bytes are arguments of a call;
-- hashing, encoding, and the digest, redaction and validation of arguments are the record Services.
-- The proofs are in WellFormed, Issued and Kept (the store's invariant), Tried, Granted and Once.
--
-- CostGuard is middleware/costguard/guard.go. CostGuard/Config has the configuration, its defaults
-- and its environment, CostGuard/Guard the in-flight counters (acquire and the function that it
-- returns), the body limit and Retry-After, CostGuard/Protect the chain of checks of a request, and
-- CostGuard/Counts the runs of requests. The limiter (common/redis) is an argument.
-- The proofs are in Caps, Balance, Bodies and Limits.
--
-- Voice is service/voiceconversation/turn.go: Voice/Vad the energy detector (ObservePCM16LE),
-- Voice/Turn one turn's buffer (AppendPCM16LE, Commit, Cancel), Voice/Wav its file (PCM16LEToWAV) and
-- Voice/Sentences the phrases of an answer that is streamed (Push, Flush, drain), over Voice/Utf8,
-- which is strings.ToValidUTF8. The operations of float64 are the record Floats. The proofs are in
-- Detector, Recording, Riff, Phrases and Spoken.
--
-- Rag is common/rag/chunk.go: Rag/Boundaries the options and chooseChunkEnd, Rag/Headings the
-- headings, Rag/Chunk the loop of ChunkMarkdown and StableChunkID, over SHA-256 as an argument. The
-- proofs are in Ranges, Ends, Round, Cutting and Documents, in Stuck for a limit of one rune, and in
-- Identity.
--
-- McpSchema is common/mcphub/schema.go: McpSchema/Json the values, McpSchema/Keywords the readers of
-- keywords, McpSchema/Reference resolveLocalRef, McpSchema/Node validateSchemaNode, McpSchema/Value
-- validateJSONValue and McpSchema/Tool normalizeSchema and ValidateArguments. encoding/json, regexp
-- and floating point are the record Library. Messages and their paths are left out, a fault says
-- which check failed. The proofs are in Pointer, Nested, Sane, Passing and Closed.
--
-- Base holds what they share: lists, strings of code points, integers with a sign, Go maps as
-- functions, errors, and the rules (Keeps, Moves, Refuses) that carry a property through a chain of
-- statements.
--
-- Numbers. Times are natural numbers (milliseconds or nanoseconds from an epoch). Run versions and
-- attempts are natural numbers without a bound, as 64 bits are not used up. Counters, limits and
-- parsed integers of the guard have a sign, and ParseInt refuses what 64 bits cannot hold. The
-- loop of RecoverStaleTasks has the source's own 20 rounds, and the recursion over schemas its own 32
-- levels. The loop of ChunkMarkdown has one round more than the document has runes, of which each
-- round takes one at least if the limit is two runes or more. Every other loop is over a list or
-- counts down.
--
-- Not modelled: the isolation of concurrent transactions (a call is one step, and interleavings are
-- sequences of calls), the mutexes of the approval store and the guard, which make each operation one
-- step too, logging, the JSON tags, and the clients of Redis, RabbitMQ, model, speech and image
-- services, the controllers and the frontend. Left out too are the ranking of retrieval, the
-- conversion of an upstream MCP tool, the assembly and the prompts of the agent's graph, and the
-- sessions of the voice hub.
pub mod Base
pub mod Agent
pub mod McpHub
pub mod AgentService
pub mod CostGuard
pub mod Voice
pub mod Rag
pub mod McpSchema
