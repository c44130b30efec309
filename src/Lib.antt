-- ===== src/Lib.antt =====
-- A model of the core of AIAgent, an assistant platform with organizations, durable Runs and tools.
--
-- Paths are those of the repository, below src/ai_agent. Every service works on rows of a database; a
-- model of a service takes the tables as a record of lists and gives the new tables back, with what the
-- method returns. A method is one transaction, so its writes happen all at once or, when it raises, not
-- at all; only the login commits its audit record before it raises.
-- The clock, fresh ids, fresh tokens, random draws and the rows that other transactions have
-- locked are arguments. A test of access that the source makes in a transaction of its own, just before,
-- reads the same tables here. A UUID is a natural number; instants and durations are natural numbers of
-- microseconds (of milliseconds inside the Redis scripts), ratios are in millionths, costs in
-- micros. The floats of the budget of an Agent run are numbers with their arithmetic as a parameter.
--
-- The parts, and how they meet:
-- * Runs (runs/jobs.py, with the rows of persistence/models.py): the durable queue. A submission adds a
--   job; workers claim it under a lease, renew the lease, mark the start of the execution, and give the
--   job back or finish it; expired leases are swept. Rows has the tables, Retry `_retry_delay`, Leases the
--   private helpers, Claims `claim`, Jobs the calls under a lease, Durable the methods of
--   conversations/service.py that end a Run and its job, Answers what else they write, Recovery `recover_expired` and
--   `cancel_queued`. Lifecycle is the life of one row as a step relation; its children have the
--   methods as steps of it (Leased, Claiming, Recovering, Ending), its invariant (Invariant) and the
--   histories of the queue (Reachable). Ended is about Runs that are over; Revoked, Held, Fencing, Order,
--   Sweep and Exclusive are about the lease, the queue's order, the sweep and the owner of a job.
-- * Agents (agents/control.py): managed Agents. Config has the settings, Rows the tables, Drafts the drafts,
--   versions and the default Agent, Release `release` with its gate and its key, Resolve what a Run uses.
--   History is the tables under the calls of the service, with children on the deployments, the versions
--   and the default Agent; Evidence is about what a release rests on. Single is `SingleAgent.run` of
--   agents/single_agent.py, Budget its limits, Model what it exchanges with a model and a gateway, which
--   are functions of what the run did so far; Rounds and its children (Calls, Bounds, Results) are proofs.
-- * Evaluations (evaluations/service.py): Rows has the tables, one store with those of Agents, Suite the
--   validators, Datasets and Policies what a run is queued from, Execution and Completion the methods that
--   move its status, Gate `assess_release`, which the release of Agents calls. Lifecycle is the life of a
--   run, with children on the table (Rows), the methods (Methods, Recovering) and histories (Reachable).
--   Cases and Executor are evaluations/executor.py, which runs the agent of Agents on every case; Ending,
--   Verdicts, Replay (of a request for a run) and Snapshots (of datasets) are proofs.
-- * Governance (governance/quota.py): the admission of a Run and its daily budgets, which the executor of
--   Runs calls. Redis is the server as an interface with the documented laws of the commands used, Keys
--   the keys and settings, Scripts the Lua scripts, each one step of the server, and Quota the methods of
--   `RedisRunQuota`. Its children are Sums and Admission (lemmas), Limits, Refusal, Rounds, Durable,
--   Expiry and Switch. The expiry of keys is handed to the server but is no event of a script. Retention is
--   `prune` of governance/retention.py, which deletes old audit records.
-- * Identity (identity/service.py): users, organizations and roles. Rows, Permissions, Access, Members and
--   Organizations are the code, and Local the passwords and the login of identity/local.py;
--   Administrators, Roles, Revocation, Founding and Upsert are proofs.
--   Errors has the errors of errors.py and the result of a method that may raise.
-- * Mcp (mcp/gateway.py): RateLimiter is the sliding window of calls in memory and in Redis, CircuitBreaker
--   the failures of a server, Gateway `McpGateway.call` with its child Call. The catalog, JSON schemas and
--   the server are parameters there.
-- * Audit (audit/service.py): AuditRequest is a call of `record`, which the other parts keep newest first;
--   Redaction is `sanitize_details`, Integrity `record` with its signature, Verify `verify`. What the code
--   takes from Python (texts, URLs, JSON, HMAC) is a parameter. Json has the JSON values.
-- * Prelude has the shared names and lemmas; Tests has concrete inputs, with a small Redis server.
--
-- All functions are structural recursions on lists, JSON values and the number of rounds that the
-- settings of a run allow, so no fuel is used. A loop that the source bounds (`recover_expired` by its
-- limit) has the same bound here.
--
-- Not modelled: rows and columns that this code does not use, metrics but the counter of Runs, and the
-- listings and counts that only read. The other services (conversations/service.py but for the
-- job and the end of a Run, runs/executor.py, the tasks of evaluations/executor.py,
-- connections/service.py, the rest of mcp) are not modelled; the HTTP layer, the clients of other
-- systems, the command line, tracing and the migrations are input and output.
pub mod Prelude
pub mod Errors
pub mod Json
pub mod Audit
pub mod Runs
pub mod Agents
pub mod Evaluations
pub mod Governance
pub mod Identity
pub mod Mcp
pub mod Tests
