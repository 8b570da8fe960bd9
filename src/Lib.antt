-- ===== src/Lib.antt =====
-- A model of go-flywheel's job runtime, internal/core: a queue of jobs in a SQL database, claimed by
-- runners under a lease and finalized under the fence of that claim.
--
-- The parts. A Client stamps, builds and inserts rows (client.go, insert_stamp.go, registry.go,
-- base.go, batch.go) under the unique indexes (indexes.go). A driver claims rows for a runner
-- (Dequeue), extends a lease (RenewLease), and ends an attempt in one transaction (Finalize), which
-- advances the job as planFinalize decides, inserts the worker's follow-ups in chunks, and fires the
-- parent's barrier when no child of it is pending. The sweep takes back, batch by batch, the jobs
-- whose lease expired (Sweep): it discards those whose attempts or crash budget are spent, makes the
-- others available, marks their runs crashed, and checks the barriers of the discarded ones' parents.
-- Operators pause, resume, reschedule, reprioritize, retry, cancel and delete single jobs (Controls),
-- and pause and cap queues (Queues): a Runner refreshes its view of them, claims from the open ones
-- only, and dispatches what it claimed onto the slots of its pool (Dispatch), with permits of a
-- limiter that the processes sharing a database share (Limiter). Runtime puts the transactions on the
-- jobs table together: a step is any one of them, by any process, and a database is reachable when
-- steps lead to it from an empty one.
--
-- The files; the names of sources are of files of internal/core. Base and its children hold tests,
-- list forms of SQL statements, and integers. Types, Rows, Env and Work are the wire vocabulary
-- (types.go, errors.go), the tables (rows.go), what comes from outside, and what a worker sees. Text
-- is truncate of driver.go, and Plan is its planFinalize and jobFinalizeUpdate. Insert has Stamp
-- (insert_stamp.go), Row (buildRow, buildChildRow, applyTo), Conflict (indexes.go, BeforeCreate,
-- conflictInsertChunk), Blocks (which rows keep a row out) and Client (insert and enqueue of
-- client.go). Driver has Opts (DriverOpts), FollowUps (insertFollowUps), Barrier
-- (fireBarrierIfComplete), Finalize, Claim (Dequeue, RenewLease) and Sweep (reclaimExpired) with
-- Sweep.Batch (crashStaleStubs, sweepBatch, sweep). Controls is job_controls.go, and Controls.Retry has RetryJobWithOptions and CancelJob of schedule.go. Pool is
-- the slot pool of runner.go, Dispatch its claimAndDispatch, unknownKindDeferral, resolveTimeout and
-- classify, and Schedule is intervalBuckets of scheduler.go. Limiter is limiter_db.go (Acquire,
-- Release, NewDBLimiter), with Limiter.Budget for SetLimiterBudget. Queues is queues.go and
-- queue_state.go. Stats.Hist is stats_hist.go. Runtime has the steps, and Runtime.Lifecycle the moves
-- of a job's state that each kind of step may make (Store.Evolves). Store holds what the
-- proofs share: updates, uniqueness, rows named by id, counts, and the well-formed table. Examples
-- are concrete runs.
--
-- How state corresponds. A Db is the tables as lists of rows in some order; a statement
-- `UPDATE .. WHERE` is `update_where`, a query is `select` or `find`, and a transaction that returns
-- an error leaves the tables as they were. Instants are nanoseconds since Go's zero time. ORDER BY is
-- a parameter with the laws of Store.Ids (the same rows, sorted), so that ties are open. Sums of
-- integers are not wrapped; the products of the limiter's refill, and the numbers that the histogram
-- parses, wrap as 64-bit words. An attempt on an inline pool, of one slot, ends before its start
-- returns; on any other pool it ends in a later step.
--
-- Fuel. The chunk loop runs on one unit for each row, and each chunk takes at least one row.
-- The sweep runs on one batch more than the table has expired rows: a batch that is not the last
-- ends at least one lease, and nothing in it starts one.
--
-- Not modelled: failures of statements themselves, the JSON of a stack, error fingerprints, progress
-- columns, the in-memory token bucket and the quantiles of histograms, which compute in floating
-- point, the goroutines and timers of attempts, the sweep of expired limiter holds, and the functions
-- of third-party packages, which are fields of Env.Lib or arguments. The bounds of the histogram's
-- buckets are an argument too, since the source computes them in floating point.
pub mod Base
pub mod Types
pub mod Rows
pub mod Env
pub mod Text
pub mod Work
pub mod Plan
pub mod Insert
pub mod Store
pub mod Dispatch
pub mod Driver
pub mod Controls
pub mod Examples
pub mod Pool
pub mod Limiter
pub mod Queues
pub mod Runtime
pub mod Schedule
pub mod Stats
