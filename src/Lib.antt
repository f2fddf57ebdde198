-- ===== src/Lib.antt =====
-- rdstail follows the log files of RDS database instances through the AWS API and ships their lines to
-- sinks, at least once and across rotations, restarts and crashes. This library models the parts of
-- the program that decide whether a line is lost, repeated or split, and proves what they promise.
--
-- Parts, and how they interact. A worker (internal/pipeline/worker.go) polls one instance. For each
-- poll it plans which files to read (planRotation), and drains each of them (drainFile): it pulls
-- portions through the fetcher (internal/source/rds), which groups raw lines into records, batches
-- them, writes each batch to the sinks (internal/sink), and only then stores a checkpoint
-- (internal/state), from which the next poll or the next process goes on.
--
-- Files:
--   Prelude, Text   what Go's strings, slices, maps and strconv do, on bytes and native numbers
--   Record          pkg/logrecord/logrecord.go and the Checkpoint of internal/state/store.go
--   Failure         errors, as the list of the causes that errors.Is and errors.As find
--   Source          internal/source/rds: Hour (rotation.go: HourID, SplitRotated, ParseHourMarker),
--                   Marker (OffsetMarker), FileMeta, Lines (parseRecords, JoinContinuation),
--                   Truncation (the 1 MB notice), Portion (download, pullRaw, PullPortion),
--                   Events (events.go: IsRestartEvent, PollRestartEvents), Instances
--                   (discovery.go: DiscoverInstances), Discovery
--                   (DiscoverFiles, classifier.go), SkipToEnd, Ranges (ReadRange, cutRange)
--   Pipeline        internal/pipeline/worker.go: Position (rewindMarker, markerStillValid, anchorSize),
--                   Ring (rememberShipped, dropAlreadyShipped), Restart (NotifyRestart, pendingRestart,
--                   markRestartHandled, noteServerStart), Marks (recordMark, markBefore), Delay
--                   (nextPollDelay, noteProgress), Errors (rememberErrors, dropShippedErrors), Rotation
--                   (planRotation; Whole is its loop over the base files), Drain (drainFile: Absorb takes in a chunk, Flush is the closure
--                   flush, Loop is the pagination loop, File is the part before it, ReadOn calls parallelDrain and the loop), Parallel
--                   (parallelDrain), Poll (pollOnce, drainAll, Run), Phases
--                   (splitErrorLogPhases, eligibleFiles); internal/pipeline/scheduler.go: Scheduler
--                   (Run), Watch (watchRestarts)
--   Sink            internal/sink: the fan-out, and the filter, retry and DLQ decorators as
--                   factory/factory.go stacks them
--   State           internal/state: the memory store, the file store with the steps of its write, and in
--                   Sqlite (checkpoints, migrations) and Dlq (the dead-letter table) the SQLite store
--   Replay          internal/replay/replay.go: Run, over Dlq and Sink
--   Shard           internal/shard/shard.go: Parse and Owns
--   Config          internal/config/config.go: the schema, Defaults (defaults, applyPostDefaults), Regions
--                   (expandRegions), Checks (Validate); the other modules are about what it accepts
--   Tests           the theorems applied to concrete inputs
--
-- What the sinks cannot deliver, the DLQ decorator parks in the table of State.Dlq, from which Replay
-- writes it to the sinks again. A SQL statement is the function of the tables that SQL says it is.
--
-- The scheduler runs one worker for each instance that is configured or discovered; its goroutines are
-- the tasks of a pool. TaskStep is what any of them may do next, RefreshStep what a refresh does, and
-- PoolSteps starts the configured instances first and then lets these stand in any order. It also passes restarts that RDS reports on to the workers.
--
-- A module under one of these holds theorems about it and is named for what they prove. State is passed
-- explicitly: a worker's maps are the record Memory, the variables of drainFile the record Drain, the
-- in-memory map and the disk of the file store Entries and Disk. What is not under this repository is
-- an argument whose answers may depend on all that happened before: Outside (the API, the sink, the
-- store, the clock and the context of a drain, by the journal of events), Environment (of a sink, by
-- its trace), the API of Portion by its calls. Errors are values, and every call may fail.
--
-- Bounds. Sizes, offsets and times are natural numbers; parse_int keeps the 64-bit range of
-- strconv.ParseInt, and other sums stay far below 2^63 in the source. A time is in nanoseconds since
-- Go's zero time. The pagination loop of drainFile runs on fuel, one unit for a chunk, as do the waves of
-- parallelDrain before it, and drainFile says whether more is needed; drain_file-ends gives the fuel that
-- is enough. pullRaw is bounded by its own attempts,
-- and so are retries. The page loop of a replay runs on one unit of fuel for each row and one more, which
-- replay_pages-IsEnding shows to be enough. So do the loops of the fetcher: read_range-returns and
-- skip_to_end-returns give the fuel that is enough. Run goes on until its context is done, so it is modelled for any number of polls.
--
-- Not modelled: drains of several files at once; the line parsers of internal/parse (an argument); the concrete sinks; reading the
-- configuration file, command line, metrics, reports and logging. The hash of de-duplication, JSON,
-- jitter and growth in floating point are arguments.
pub mod Prelude
pub mod Text
pub mod Record
pub mod Failure
pub mod Source
pub mod Pipeline
pub mod Sink
pub mod State
pub mod Config
pub mod Replay
pub mod Shard
pub mod Tests
