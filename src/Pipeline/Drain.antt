-- ===== src/Pipeline/Drain.antt =====
-- internal/pipeline/worker.go: drainFile, which reads one log file and ships it. Its collaborators
-- (the fetcher, the sink, the state store, the clock and the context) are an interface: an answer may
-- depend on everything that was read, shipped and stored before, which the journal holds.
pub mod Absorb
pub mod Flush
pub mod Loop
pub mod Journal
pub mod ReadOn
pub mod Absorbed
pub mod Chained
pub mod Flushed
pub mod Safety
pub mod Ends
pub mod File
use rdstail.Prelude.{ℕ, Bool, false, Option, List, [], Bytes}
use rdstail.Prelude.Int.{ℤ}
use rdstail.Record.{LogRecord, Checkpoint, Time}
use rdstail.Failure.{Failure, Result}
use rdstail.Source.FileMeta.{FileMeta}
use rdstail.Source.Portion.{Chunk}
use rdstail.Pipeline.Ring.{ShippedRing}
use rdstail.Pipeline.Restart.{Restarts}
use rdstail.Pipeline.Marks.{MarkAt}
use rdstail.Pipeline.Errors.{Errors}

-- What a drain does to its collaborators; a failed call is an event too.
pub data Event : Type 0 where
  -- PullPortion at a marker returned a chunk.
  pulled : Bytes → Chunk → Event
  -- parallelDrain read a wave from a marker up to another: its records.
  read_wave : Bytes → Bytes → List LogRecord → Event
  -- The sink acknowledged a batch.
  delivered : List LogRecord → Event
  -- The store made a checkpoint durable.
  stored : Checkpoint → Event
  pull_failed write_failed store_failed : Event

-- Newest first.
abbrev pub Journal : Type 0
Journal = List Event

pub record Outside : Type 0 where
  -- ctx.Err()
  pub cancelled : Journal → Option Failure
  pub pull : Journal → Bytes → Bytes → Result Chunk
  -- sink.Write and store.Set: `none` is a nil error.
  pub write : Journal → List LogRecord → Option Failure
  pub set : Journal → Bytes → Checkpoint → Option Failure
  pub now : Journal → Time
  -- FNV-1a of a message
  pub error_key : Bytes → ℕ
  -- serverReady.MatchString
  pub server_ready : Bytes → Bool

-- What of an InstanceWorker and its configuration does not change during a drain.
pub record Settings : Type 0 where
  pub max_batch_bytes : ℕ
  pub max_batch_records : ℕ
  pub groups_multiline : Bool
  pub parallel_reads : ℕ
  pub started : Time
  pub horizon : Time

-- The mutable maps of an InstanceWorker.
pub record Memory : Type 0 where
  pub shipped : Bytes → Option ShippedRing
  pub restarts : Restarts
  pub marks : Bytes → List MarkAt
  pub errors : Errors
  pub stalls : Bytes → ℕ

-- The variables of drainFile's loop.
pub record Drain : Type 0 where
  pub prev : Checkpoint
  pub marker : Bytes
  pub shipped : ℕ
  pub pending : List LogRecord
  pub pending_bytes : ℕ
  pub last_start : Bytes
  pub last_start_skip : Bool
  pub skip_leading : Bool
  pub dedupe : Bool
  pub drop_first : Bool
  pub consumed : ℕ → ℕ
  pub dedupe_until : ℤ
  -- A restart that is committed at the first checkpoint, with its generation.
  pub restarted : Bool
  pub restart_gen : ℕ

-- Where reading starts with nothing pending.
abbrev pub start_at : Checkpoint → Bool → Bool → ℤ → Bool → ℕ → Drain
start_at prev dedupe drop_first dedupe_until restarted gen = record {
  prev = prev;
  marker = prev.marker;
  shipped = 0;
  pending = [];
  pending_bytes = 0;
  last_start = prev.marker;
  last_start_skip = false;
  skip_leading = prev.skip_continuation;
  dedupe = dedupe;
  drop_first = drop_first;
  consumed = λ h. 0;
  dedupe_until = dedupe_until;
  restarted = restarted;
  restart_gen = gen;
}
