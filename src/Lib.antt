-- ===== src/Lib.antt =====
-- The AgentStorm worker: a load test of an agent, as a model of worker/src/agentstorm_worker.
--
-- A worker takes a shard of a dataset. `WorkloadRunner.execute` (runner.py) lists its work, every
-- selected case once per iteration, and a few tasks take items from it. An item asks the circuit
-- breaker (circuit.py) for a permit, makes attempts until one succeeds or may not be repeated
-- (retry.py), records the outcome with the breaker, and evaluates the answer. An attempt calls an
-- adapter through the fault injection (faults.py), under a timeout; the adapter for
-- OpenAI-compatible endpoints (adapters/openai_compatible.py) repeats requests, runs tools and keeps
-- a ledger of tokens. Errors have a category, a code and flags (execution_errors.py), tokens have a
-- price (pricing.py), assertions judge the output (evaluators.py), and all results make a summary
-- with thresholds. Around it the process (__main__.py) reads the configuration and the dataset
-- (config.py), registers the run, claims a shard, writes and uploads the results (results.py), and
-- turns what happened into an exit code.
--
-- The files, with paths below worker/src/agentstorm_worker:
--   Models, Models.Json   models.py, and what json.loads returns
--   Config                the records of config.py; .Readers, .Scenario and .Reliability read the
--                         reliability section; .Scenario.Rules, .Scenario.Again,
--                         .Reliability.Validity
--   Config.Run            `load_run_config` and the other sections; .Sections, .Valid
--   Config.Dataset        `load_dataset` with the assertions; .Specs, .Accepted
--   Errors                execution_errors.py; Errors.Safety is proofs
--   Circuit               circuit.py: `acquire`, `record_terminal`; Circuit.Invariant, .Admission and
--                         .Probes replay calls in any order; .Refinement has the abstract breaker
--   Retry                 retry.py: `retry_eligibility`, `retry_backoff_ms`; .Eligibility, .Backoff
--   Pricing               pricing.py; .Rounding, .Order
--   Evaluators            evaluators.py: the registry, the assertions and their outcomes; .Prepared,
--                         .Answers, .Verdicts
--   Adapters              adapters/base.py and fake.py: a call is the tools it starts and how it ends
--   Faults                faults.py; .Selection and .Injection
--   Runner.Shards         `execute`: the selection of cases and the work; .Partition
--   Runner.Workers        `execute`: the tasks, as a step relation `Step` and `Reach`; .Once
--   Runner.Attempt        `_invoke_attempt`, with Runner.Metadata for the provider fields
--   Runner.Case           the loop of `_execute_permitted_case`; .Decisions, .Attempts, .Loops, and
--                         .Answered for the origin of a response (with Runner.Attempt.Answered)
--   Runner.Finish         `_execute_case` and what follows the loop; .Results, and .Judged with
--                         the evaluators
--   Runner.Configured     attempts and breaker under an accepted reliability section
--   Runner.Usage, Summary `_attempt_usage` and the like, `summarize`; Runner.Summary.Thresholds,
--                         .Percentile, .Order
--   Chat.Codes, Ledger    provider codes, retry delays and `retry_after_seconds`, `_Ledger`,
--                         `_status_error`
--   Chat.Validators       the validators of the target section; .Bounds
--   Chat.Completion       `_parse_completion`, `_parse_tool_call` and the other readers
--   Chat.Construction     `__init__` of the client, and `create_adapter` (adapters/__init__.py);
--                         .Sent and .Accepted, for an accepted run configuration
--   Chat.Post             `_post`, `_post_with_retry`; .Follows, .Retries
--   Chat.Tools, Run       `_execute_tools`, `run`; Chat.Tools.Tally, Chat.Run.Turns
--   Scheduler             scheduler.py: `_wait_for_grant`, `permit`; .Waiting, .Served with the
--                         replies of the result API, and .Renewal with the task `renew` and the body
--                         as a step relation
--   Results               results.py: a request and what is made of its reply; .Payload and
--                         .Registration build what is sent; .Replies, .Permits, .Payload.Sensitive,
--                         .Registration.RoundTrip
--   Worker                __main__.py: `execute`, `_finish_cancelled`, `main`; .Settings reads the
--                         environment; .Effects, .History, .Connected and .Exits follow the calls;
--                         .Lease has the renewal of a shard's lease as a step relation
--   Telemetry             telemetry.py: the sanitiser and the client that applies it; .Cleaning,
--                         .Exported, and .Spans for the spans of OpenTelemetry
--   Tests                 every theorem below at an input
--   Prelude               shared names, lists, texts, rounding
--
-- Modelling. State is passed explicitly: the breaker is a record, and since its methods hold a lock
-- a history of it is a list of calls. The clock is a natural number of nanoseconds, read where the
-- code reads it. Costs are whole units of 10^-12 USD, a sum of them is rounded to 28 digits, and probabilities, ratios and rates are exact
-- fractions where the code has floats. What the code only asks for is an argument: the first eight
-- bytes of a SHA-256 digest (`digest_number`, with its bound as a hypothesis where it matters),
-- `json.loads` and what Python makes of a text (the record `Python`), `urlsplit` and quoting (`Web`),
-- regular expressions, schemas and plugins (`Libraries`), the network, the tools, and for each
-- attempt the readings of the clock and the stop event. What the calls of a process do is a record
-- of readings too (`Outside`), and the process leaves the list of its calls. A `CancelledError` is
-- a result of its own.
--
-- Loops over lists are structural. The loop of attempts has fuel, and as much as the configured
-- attempts is enough; the requests and the turns of a chat have fuel one above their maximum, and
-- the theorems on them say that it is never used up.
--
-- The wait for a grant has fuel: one more than the nanoseconds to the deadline is enough. The
-- rounding of a sum of costs has fuel for 128 digits, more than 10^64 costs of 64 digits make.
--
-- Left out: the spans of a run, which no result depends on; a NaN among the waits of the chat
-- client's constructor; argument parsing and signals; the adapter for the agents SDK, the
-- promptfoo integration and the benchmarks; and the Go services.
mod Prelude
pub mod Models
pub mod Config
pub mod Errors
pub mod Circuit
pub mod Retry
pub mod Pricing
pub mod Adapters
pub mod Faults
pub mod Evaluators
pub mod Runner
pub mod Scheduler
pub mod Results
pub mod Worker
pub mod Telemetry
pub mod Chat
mod Tests
