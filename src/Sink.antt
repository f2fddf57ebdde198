-- ===== src/Sink.antt =====
-- internal/sink: the Sink contract and the fan-out. The concrete sinks, the DLQ store, the clock and
-- the context are an environment, whose answers may depend on everything that happened before, which
-- the trace holds.
pub mod Decorate
pub mod Retry
pub mod Ack
pub mod Filters
pub mod Fanout
use rdstail.Prelude.{
  ℕ, zero, suc, ◌+◌, ◌&&◌, ◌||◌, Bool, true, false, Option, none, some, List, [], ◌∷◌, ◌++◌, Bytes,
  codes, same, ltb, leb, keep_if, if◌then◌else◌,
}
use rdstail.Prelude.Int.{ℤ, pos, negsuc}
use rdstail.Record.{LogRecord, Time, is_zero, before}
use rdstail.Failure.{Failure, has_cause, permanent, canceled, deadline_exceeded}

pub data Act : Type 0 where
  -- One Write of the named concrete sink, and its answer; `none` is a nil error.
  tried : Bytes → List LogRecord → Option Failure → Act
  -- The pause between two attempts.
  waited : ℕ → Act
  -- DLQPut with the sink's name, the batch id and the payload.
  parked : Bytes → Bytes → Bytes → Act
  park_failed : Act

-- Newest first.
abbrev pub Trace : Type 0
Trace = List Act

-- Sink
pub record Sink : Type 0 where
  pub name : Bytes
  pub write : Trace → List LogRecord → Option Failure × Trace

pub record Environment : Type 0 where
  -- ctx.Err()
  pub cancelled : Trace → Option Failure
  -- ctx.Err() if the context ends before the pause does
  pub interrupted : Trace → Option Failure
  -- backoff(attempt), of which the jitter is random
  pub backoff : Trace → ℕ → ℕ
  -- json.Marshal; `none` is an error.
  pub marshal : List LogRecord → Option Bytes
  -- DLQPut
  pub park : Trace → Bytes → Bytes → Bytes → Option Failure
  -- strings.ToUpper
  pub to_upper : Bytes → Bytes

-- A concrete sink that answers so.
unfoldable pub endpoint : Bytes → (Trace → List LogRecord → Option Failure) → Sink
endpoint name answer = record {
  name = name;
  write = λ t recs. (answer t recs, tried name recs (answer t recs) ∷ t);
}

-- errors.Join
abbrev pub join : Option Failure → Option Failure → Option Failure
join none e = e
join (some d) none = some d
join (some d) (some e) = some (d ++ e)

-- Fanout.Write
unfoldable pub fanout_write : List Sink → Trace → List LogRecord → Option Failure × Trace
fanout_write [] t recs = (none, t)
fanout_write (s ∷ ss) t recs =
    let (e, t') = s.write t recs in let (es, t'') = fanout_write ss t' recs in (join e es, t'')
