-- ===== src/Lib.antt =====
-- SCCS OS: the agent operating system of this repository, its rules for workflows, agents, remote
-- calls, requests, tenants and skills.
--
-- The parts and the files that model them:
-- - Workflow: `DAGResolver` of sccsos/core/workflow/dag.py, with `WorkflowStepDef` of
--   sccsos/core/workflow/definition.py. Workflow/Dag.antt has `_validate` (`validate`, its search
--   `dfs`), `get_execution_order` (`layer_loop`, one round of it `release`) and `get_step`. The
--   children are about the dicts (Maps), a round (Release), the layers (Order) and what they hold
--   (Coverage), the search (Search), the two together (Validate) and the test for ids (Conflicts).
--   Workflow/Steps.antt is `StepExecutor` of sccsos/core/step_executor.py with its statements of
--   sccsos/core/db/crud.py: `execute_step` is one attempt, `execute_with_retry` the attempts in the
--   retry loop; Change and Trace are about what they do to the trace and the outputs, Rows about the
--   table `workflow_steps`. Workflow/Engine.antt is `WorkflowEngine` of
--   sccsos/core/workflow/engine.py: `execute`, its layers, `cancel_run` and `get_run_status`;
--   Layers, Outcome and Idle are about whole runs, Cancel about a run and calls of `cancel_run`.
-- - Agents: `LifecycleManager` of sccsos/core/lifecycle.py with the statements of
--   sccsos/core/db/crud.py that it runs (`insert_agent`, `update_agent_status`, `add_event`).
--   Agents/Lifecycle.antt has the objects in memory, the tables `agents` and `agent_events` and the
--   bus in one state `Manager`, and a method for each public method; `moved` is `_transition`.
--   Diagram gathers the methods in `apply`; Consistency, Status and History are about what they keep.
--   Agents/Supervisor.antt is sccsos/core/supervisor.py: `World` is the supervisor, the process
--   objects and the place where the monitor thread stands (`Phase`); `act` is one step of any
--   thread, and a run is a list of steps in any order. Agents/EventBus.antt is `LocalEventBus` of
--   sccsos/core/event_bus.py, with what the handlers do as an argument. Agents/Sessions.antt is
--   `AgentSessionManager` of sccsos/core/session.py, without `list_sessions`.
--   Agents/MemoryStore.antt is `MemoryStore` of sccsos/memory/memory_store.py on the rows of its
--   table; Promise has the memory that it promises and the answers that fit it, Agreement, Held,
--   Answers and Refinement are about the two together. Agents/DistributedSupervisor.antt is
--   sccsos/core/supervisor_distributed.py, one replica with the table that replicas share: `visit`
--   is the monitor's locked block for one name.
-- - Observability: Observability/Alerts.antt is sccsos/observability/alert_manager.py, with
--   `Auditor.record` of sccsos/observability/auditor.py (`record_entry`). A time in the table is a
--   text in one of two forms, and `at_least` compares the texts as SQLite does.
-- - Resilience: Resilience/CircuitBreaker.antt is sccsos/core/circuit_breaker.py, with its three
--   locked blocks as `preflight`, `on_failure` and `on_success`, a call of one thread as `call`, and
--   the interleavings of threads as the relation `Reach`. Resilience/Retry.antt is
--   sccsos/core/retry_policy.py, its loop `attempts`; Threaded has the loop over calls that change a
--   state, as the step executor uses it.
-- - Security: Security/RateLimit.antt is sccsos/security/ratelimit.py, Security/Rbac.antt is
--   sccsos/security/rbac.py and Security/Policy.antt is sccsos/security/policy.py.
-- - Tenancy: Tenancy/Quota.antt is sccsos/core/quota_manager.py. It counts the rows of `agents` that
--   the lifecycle manager writes.
-- - Skills: Skills/Validation.antt is the part of `validate` in sccsos/core/skill_review.py that
--   looks at a content, Skills/Review.antt is `SkillReviewManager` on its tables, with the comments
--   in Skills/Review/Comments.antt. Operations has the four operations that change a status as one; Moves,
--   Answers and History are about what they answer and write.
-- - Prelude: Boolean tests, lists, sets of texts, dicts as lists of items in insertion order, texts
--   by code points, and `Result` for calls that raise.
--
-- How the parts interact: a workflow's steps run in the layers that the resolver gives, each step in
-- the retry loop; the lifecycle manager announces its changes on the bus, and the quotas count the
-- rows that it writes; the supervisor starts the processes of agents again; calls of a message
-- broker go through the breaker, and requests through the roles, the limiter and the policy engine.
--
-- Numbers and time: counts are natural numbers. The clock, new ids and random parts are arguments.
-- Seconds of the breaker and ticks of the limiter are natural numbers. The limiter's level of tokens
-- is counted in shares of which `minute` make one token, so the rate `tokens_per_minute / 60` is
-- exact where the source has floats. Money is counted in one small unit, and sums are exact.
--
-- What stands outside is an argument. `Outside` has the template engine, the prompt guard, the
-- wrapping of a prompt and the adapter of the step executor, each free to answer differently at each
-- attempt. `Plan` says what the thread pool makes of a layer: the order in which its tasks take
-- effect, how many still run after a failure, which ran before a cancellation, and the number of
-- workers. The tasks of a
-- layer write under keys and to rows of their own, so tasks side by side are modelled one after the
-- other, in any order. A cancel event is a function that says before which attempt it is set; the
-- calls of `cancel_run` that set it are `cancel_run` on the engine's contexts.
-- Statements of the database, the tracer and the audit are taken not to raise.
--
-- Fuel: `layer_loop` has one round for each step, since each round schedules a step. `dfs` has the
-- depth of Python's stack as an argument and reports `recursion_error` below it, as Python does. The
-- retry loop runs by recursion on the attempts that are left.
--
-- Texts: `lower` and `strip` treat ASCII letters and blanks. Messages of exceptions, reasons and
-- logs are data: the values that they show, without the sentence around them. The text of an event's
-- detail is left out, and so are agent texts that are equal to the SQL fragment `datetime('now')`,
-- which `update_agent_status` would take for SQL. A handler that registers or removes handlers while
-- an event is delivered is left out too.
--
-- Not modelled: the YAML reader and the templates, the event buses on Redis and Kafka, the runner
-- and the adapters of agents, the knowledge base and the vector memory, tracing and billing, the
-- rating of skills and their market, the sandbox and the injection guard, which are parts of their
-- own, and the API, the command line, the schema and the database drivers, which are I/O and glue.
pub mod Prelude
pub mod Workflow
pub mod Agents
pub mod Resilience
pub mod Security
pub mod Tenancy
pub mod Skills
pub mod Observability
