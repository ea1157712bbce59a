-- ===== src/Lib.antt =====
-- Database Alert Agent: what its core does, and what its design relies on.
--
-- The program receives database alerts, lets a worker investigate each of them in a run, and sends
-- the result as a notification. Several worker processes share one database; the core is the
-- repository that keeps alerts, runs, events, checkpoints and notifications consistent between
-- them, and the graph in which the agent investigates. A worker claims a run under a lease with a
-- fencing token; every write of the run is fenced by both. A run whose worker died is taken
-- over under the next token, from its last checkpoint.
-- The end of a run writes its result, a progress row, a pause of the dispatch switch after some
-- model failures, and a row of the outbox, all in one transaction; the outbox is delivered later.
--
-- Database.antt has the tables (the `...Row` classes of app/adapters/persistence.py) and the
-- statuses (app/domain/models.py). The other parts:
--   Dispatch     the dispatch switch: pause, validation and resume, by its version
--   Runs         investigation runs: Claims/Defs (create_run, create_run_for_reanalyze),
--                Claims/Reclaim (reclaim_expired_run), Leases (renew_run_lease, update_run,
--                append_progress), Cancellation, Finalize (finalize_run). Consistency has the
--                invariant of the table, Steps the transactions as a relation and that each of them
--                respects it, Fencing, Exclusive and Takeover the consequences
--   Heartbeat    the heartbeat of RunLeaseGuard in app/agent_runtime/leases.py
--   Outbox       the notification outbox, and the loop of deliver_pending_notifications in
--                app/application/service.py
--   Streams      events and checkpoints of a run: Loading and Loaded have the reading of checkpoints,
--                Writes and Retried their pending writes, Sink has InMemoryEventSink of
--                app/agent_runtime/events.py and RepositoryEventSink of
--                app/agent_runtime/persistence.py
--   Budget       the budget ledgers of app/agent_runtime/budgets.py, each with its chain of parents
--   Polling      the pagination loop of FlashDutyAlertPoller, the weekly retention slot and the poll
--                delay in app/application/scheduler.py
--   Invocations  tool invocations: their lifecycle check (ToolInvocation of
--                app/agent_runtime/contracts.py), the table (Repository), RepositoryInvocationStore
--                (Store, Transitions, History) and InvocationExecutor of
--                app/agent_runtime/execution.py (Executor, with Ends, Stages, Execution, Total)
--   RedisWorker  the Redis worker of app/workers/redis.py: envelopes, retries, settling of a message
--   Sql          the lexical SQL guard of app/adapters/archery_sql.py: Sql (_scan), Tokens (canonical_sql,
--                mysql_identifier_paths), Lengths, Scanning, Quoting, Canonical; a text is its code points
--   Registry     ActiveAnalysisRegistry of app/application/analysis_control.py, with the ends of its
--                tasks and their callbacks as events
--   Agent        the investigation graph of app/agents: the nodes (Nodes, React, Conclude), the graph and a run of
--                it (Graph), with the calls that it makes; what a node can return (Outcomes) and call
--                (Calls, NodeCalls), and what follows for a run (Rounds, Verdict, Tools, Fenced,
--                Unasked, Replay)
--   Conclusions  what an investigation may conclude: the eligibility of evidence (app/domain/models.py), and
--                app/application/validation.py: the rows of slow-query history (History), the policy on
--                root causes (Policy), RuleConclusionValidator (Refs, Rules)
-- Prelude has tables as lists, results, and the rules for what an operation ensures. The modules
-- named Samples and Examples compute concrete transactions.
--
-- A method of the repository is a function from its arguments, the time and the database to a
-- result. The row locks of the code make a method one transaction, so an interleaving of workers is
-- a sequence of these functions; an exception rolls the transaction back and is an `err`. Values
-- that the code draws (UUIDs) are arguments. A UUID is a number, a time its microseconds, a JSON
-- document or an event a text, an error text comes without the identifiers in it. Numbers are not
-- bounded, as in Python.
--
-- Every function is total by structural recursion; three loops are on fuel: the run of the graph, whose
-- recursion limit is that of the code, and which Agent/Rounds shows to be enough; the pagination loop,
-- which ends by what the server answers, and which Polling/Pages bounds by the number of alerts in the
-- window; and the loop of the SQL scanner, for which Sql/Scanning shows that the length of the text and
-- one more is enough.
--
-- Wall times of the budget ledgers are whole numbers of seconds, on which the floats of the code are exact
-- up to 2 ^ 53; with fractions their sums are rounded. What sanitization makes of a payload is given.
--
-- Not modelled: the columns that no modelled method tests, the redaction and cutting of texts, the
-- unique key of the outbox on run and kind, save_analysis, set_status, the retention clean-up, the
-- argument policy of tools, the results and artifacts of invocations, mysql_table_references and
-- is_simple_single_table_select of the SQL guard, the read loop of the Redis worker, and the parts
-- outside the core: the dispatch of a tool and the checkpointer of the graph, the model and MCP adapters,
-- the HTTP interface and the front end. What the graph asks of these is given to it.
pub mod Prelude
pub mod Database
pub mod Dispatch
pub mod Runs
pub mod Heartbeat
pub mod Outbox
pub mod Streams
pub mod Budget
pub mod Polling
pub mod Agent
pub mod Conclusions
pub mod Invocations
pub mod RedisWorker
pub mod Registry
pub mod Sql
