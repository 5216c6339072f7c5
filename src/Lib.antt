-- ===== src/Lib.antt =====
-- A model of miya-api, a gateway that answers chat requests by a bounded group of model agents, and
-- the theorems that make its parts correct.
--
-- The program. The gateway (crates/api-server) turns OpenAI and Anthropic requests into one
-- normalized request (crates/agent-protocol) and hands it to the kernel (crates/agent-kernel). The
-- kernel asks a planner agent for a spawn plan, repairs and bounds the plan, runs the child agents,
-- applies their answers to its artifact store, tool ledger and task graph, and synthesizes and
-- verifies a final text. It reaches models through the trait of crates/provider-core. Long contexts
-- are kept and cut down to size by crates/context-store.
--
-- The files.
--   Prelude, BTreeMap: Rust's numbers, texts, results and ordered maps. A `usize` is 64 bits wide;
--     saturating operations stop at the greatest value of their type. A `BTreeMap` is the list of
--     its entries in the order of their keys. A method on `&mut self` that may fail is a function
--     of the state that gives back a result and the state, also beside an error.
--   Protocol: the data of crates/agent-protocol/src/lib.rs, in the source's names.
--   Provider: crates/provider-core/src/lib.rs.
--   Kernel: crates/agent-kernel/src/lib.rs. `ArtifactStore`, `ToolLedger` and `Policy` are the types
--     of those names with their methods. `SpawnValidator` is `validate_and_apply`. `Responses` is
--     `apply_provider_response` and `apply_spawn_plan_response`, over the four objects that they
--     mutate (`Working`). `Planner` is `planner_coverage`, the cut of a plan that is too large, and
--     the filling of one that is too small. `Runner` holds the variables of `run_inner`, a call of
--     the provider with its usage and trace. `Planning`, `Children` and `Synthesis` are the planning
--     phase, the child agents' phase and the synthesis loop of `run_inner`, `Verification` is
--     `run_semantic_verification`, each a function of the run. The children's calls run at the same
--     time: the phase takes them in the order in which they end. A provider is what it replies to
--     each call, so it may answer one request differently later; its timeout is a third kind of
--     reply.
--   ApiServer: crates/api-server/src. Of lib.rs, `CircuitBreaker` is the type of that name, with times
--     in milliseconds; `ResilientProvider` is its `invoke` and `provider_retry_delay`;
--     `ResponsesStore` is the store of responses, over a memory and an optional key-value store;
--     `JobRuntime` is `spawn` and `cancel`, where the body of a spawned task is cut into steps that
--     interleave with those of other tasks (`Steps`); `Admission` is the arithmetic of
--     `OrchestrationAdmission`; `TenantLimiter` is `TenantConcurrencyLimiter`, as the steps of the
--     requests that it lets in; `RequestContext` is the type of that name with the functions that
--     find out who sent a request. Of durable.rs, `DurableStore` is the backend in memory.
--     Of batch_api.rs, `Batch` has the records and `page_after`; `Service` is the state of the
--     server that a batch uses, with the writes of output files; `Input`, `Tally` and `OpenAi` are
--     `run_openai_batch` with what it calls, in the order of the source; `Handlers` are the handlers
--     of files and of batches, from their parameters to the record that they answer with;
--     `Anthropic` has the run and the handlers of the batches of messages, and `Recovery` is
--     `recover_durable_jobs` for the batches of both kinds; `Dispatch` makes the bodies and headers
--     of their requests. A future that races with a cancellation is a result that may be
--     missing, and the results come in any order. The token of a batch is a Boolean at each point
--     where the source reads it. The clock and the source of ids are functions of how often they
--     were read.
--   ContextStore: crates/context-store/src/lib.rs. The options of an assembly, `choose_chunks` and
--     `render_chunks`; the terms of a query and the score of a chunk are parameters.
--   Tests: concrete runs, and the theorems at inputs that meet their hypotheses.
--
-- Fuel. The search for a free task id in `reconcile_under_target_orchestration_plan` is a `loop` in
-- the source; here it has one round more than there are ids, which is enough, since two suffixes
-- never give the same id. The loops of the kernel and of the retries are bounded in the source
-- (`MAX_ORCHESTRATION_REPAIR_ATTEMPTS`, `MAX_EMPTY_SYNTHESIS_RETRY_ATTEMPTS`,
-- `max_repair_attempts`, `max_retries`): here they recurse on how many rounds are left.
-- A client follows at most one page more than a listing has items, which is enough, since no page
-- before the last one is empty.
--
-- What is not modelled. Serialization by serde (the text of a plan, the parser of a verdict, and the
-- conversions of stored records to JSON values, `Codec`, are parameters; of a codec only that it
-- reads what it wrote is used), the cipher and the digests (parameters; theorems on the
-- store take the digests of tenants to be distinct and without a colon, and the identity of requests
-- takes them to be in hexadecimal), HTTP, and the texts of
-- the prompts with the options of the planner's requests (the record `Prompts`: the theorems hold
-- for all of them). Of `run_inner` the phases of the root agent, the continuation and the reasoning
-- summary, and the report. Of the gateway the translation of requests, the streams, the backend of
-- the durable store on the file system, the handlers that a batch's requests go to (parameters), the
-- recovery of background responses, the admission of providers, and the time of the waiting for a
-- semaphore; locks are never poisoned, jobs do not panic, and between the admission of a request and
-- its end no other one reaches the circuit breaker. The storage of contexts; the clients of the providers.
pub mod Prelude
pub mod BTreeMap
pub mod Protocol
pub mod Provider
pub mod Kernel
pub mod ApiServer
pub mod ContextStore
pub mod Tests
