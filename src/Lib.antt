-- ===== src/Lib.antt =====
-- A verification library for FinAgentPlatform, the platform on which teachers run data-analysis
-- agents: an api accepts runs, workers execute them leg by leg, sweeps end what was abandoned, and
-- consumers read the outbox of finished runs. All of them share the tables `runs` and
-- `memory_jobs` and the event log, and none holds a lock across statements, so what keeps them
-- apart is the condition of each single update. The development models these updates and what
-- rests on them.
--
-- The files and the code. Paths are from the root of the repository.
--   Schema, Schema/Status: the rows and enumerations of src/app/run/repository.py,
--     src/app/memory/job.py and src/app/event/model.py; `Db` is the two tables together.
--   Event: the envelope and the payload classes of src/app/event/model.py, and `LoggedEvent`.
--   Run/Repository: the methods of `RunRepository` that write, as functions from the database to
--     the answer and the database after it. Its children: Table (the primary key and one row under
--     an update), Calls (a sequence of statements, that is, an interleaving of all processes),
--     Lifecycle (the state machine of a row), Finality and History (who ends a run), Tokens and
--     Ledger (the token columns), Answers (what `start` tells the worker), Outbox and OutboxKept
--     (the memory jobs that `succeed` stores).
--   Run/Query: `get`, `unfinished`, `live_count`, `pending_count`, `active_run`.
--   Run/Decision: src/app/run/decision.py, the check of a teacher's decisions and their order.
--   Run/Replay: src/app/run/replay.py, the joining of increments.
--   Run/Sweep: `sweep` of src/app/run/reaper.py and of src/app/run/approval.py, on the database and
--     the event log, with the statements of other processes before each update. Children: Loop and
--     Exact (nothing sent in between), Settled (others write too), Race (an approval).
--   Memory/Job: `MemoryJobRepository`, the consumers' side of the outbox. Children:
--     Queue (which job a claim takes), Exclusive (claims whose transactions overlap).
--   Run/Log: src/app/run/log.py and src/app/run/archive.py, the Redis stream of a run and the table
--     that keeps what the stream drops. Children: Pack (an identifier as one number), Slices (a
--     list of events cut in two), Rows (the rows of one run), Complete (a history of appends).
--   Run/Pages: `list_by_thread` and src/cursor.py. Children: Sorted (the order of the rows),
--     Cuts (a page as the front of what is left), Complete (a client that asks for page after page;
--     it gets as many calls as there are runs and one more, which is enough since each page but the
--     last has at least one run).
--   Memory/Usage: the usage of the memory models in src/app/memory/job.py.
--   Quota: src/app/quota/usage.py and src/app/quota/policy.py; Booking relates them to a run.
--   Sandbox/Path: the translation of paths in src/app/sandbox/path.py.
--   Sandbox/Pool: src/app/sandbox/pool.py, one operation for each method under the lock; what runs
--     without the lock runs between the operations and while an eviction waits. Children: Slots (the table of slots), Cases (what an eviction comes to),
--     Places and Bounds (the places taken), Holders and Busy (who keeps a container), Settled (the
--     queue after a pump), Leak (two waiters of one thread).
--   Run/Executor: `_drive` of src/app/run/executor.py, as the list of its effects on the database, the
--     log, the pool and the agent, with the statements of the other processes in between. Children:
--     Usage (the tokens of a chunk), Pending (the path of an interrupt), Trace (what a list of
--     effects amounts to), Balance and Announced (who tells the end of a run), Returned (the
--     sandbox), Heard (what is taken from the stream).
--   Task/Queue: src/app/task/queue.py over one Redis stream. Children: Claim (the loop of `_claim`: its
--     fuel is one more than the pending list is long, and each turn goes on behind the entry it
--     found), Missed (what it does not find), Kept, Delivery and History (the pending list over a
--     history), Flight (`in_flight`).
--   Task/Spared: the queue and the sweep of orphans together.
--   Task/Worker: src/app/worker/loop.py. Children: Taken (what a delivery does to the messages in the
--     hands of the consumer), Slots (the tasks of the worker).
--   Run/Route: cancel_run and approve_run of src/app/api/route/run.py, over src/app/run/submitter.py.
--     Children: Approved (an approval on each branch), Unbooked (a cancellation before the worker's).
--   Quota/Rate: RateLimiter of src/app/quota/rate.py. Child: Window (what any window of time sees).
--   Mcp: McpRepository of src/app/preset/mcp.py. Children: Circuit (src/app/agent/circuit.py),
--     Reviewed (the table over a history), Tripped (failures one after another).
--   Prelude: lists, strings and table queries that these share. Examples: sample data.
--
-- How the code is read. An `UPDATE … WHERE` is one transaction and is a function of the whole
-- table; the answer `bool(rowcount)` is whether some row matched. A UUID is its number; `UUID(…)`
-- and `UUID.hex` are the parameters `parse` and `hex`, of which some theorems suppose that `hex`
-- is undone by `parse`, or that it is injective. The clock, the fresh identifiers and the rows
-- that other transactions have locked are arguments. A time is a number of microseconds, so a
-- cutoff before the origin stops at 0. JSON columns are their serialised text.
--
-- Every loop of the code is a recursion on a list, but for that of `_claim`, which has fuel. Token counters are
-- Python integers in the code and natural numbers here.
--
-- Not modelled: foreign keys, connection failures, the validation of JSON by pydantic, the wording
-- of messages and of logs, the agent itself and its mapper of chunks, the
-- `follow` loop of the event log, the containers behind the sandbox pool, and the catalogues and
-- accounts, which no part above depends on.
pub mod Prelude
pub mod Schema
pub mod Event
pub mod Run
pub mod Memory
pub mod Quota
pub mod Sandbox
pub mod Task
pub mod Mcp
pub mod Examples
