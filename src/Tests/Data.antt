-- ===== src/Tests/Data.antt =====
-- A log file of two chunks, a store and a sink that answer, and what a worker starts with.
use rdstail.Prelude.{
  ℕ, ◌*◌, ◌^◌, ◌==◌, ◌&&◌, true, false, none, [], ◌∷◌, Bytes, codes, length, same, if◌then◌else◌,
  Bool,
}
use rdstail.Record.{LogRecord, Checkpoint}
use rdstail.Failure.{Result, ok}
use rdstail.Source.Lines.{LineContext}
use rdstail.Pipeline.Parallel.{Ranged}
use rdstail.Source.FileMeta.{FileMeta}
use rdstail.Source.Portion.{Chunk}
use rdstail.Pipeline.Restart.{no_restarts}
use rdstail.Pipeline.Drain.{Outside, Settings, Memory, Drain, start_at}
use rdstail.Prelude.Int.{pos}
use rdstail.Pipeline.Drain.File.{Start, beginning, end, Lookups}

abbrev pub line : Bytes → LogRecord
line message = record {
  instance_id = codes "db-1";
  engine = codes "mysql";
  log_file = codes "slowquery/mysql-slowquery.log";
  timestamp = 1;
  severity = codes "ERROR";
  message = message;
  marker = [];
  batch_id = codes "b1";
  audit = none;
  truncated = false;
}

abbrev pub file : FileMeta
file = record { name = codes "slowquery/mysql-slowquery.log"; size = 100; last_written_ms = 1000 }

abbrev pub chunk : Bytes → Bytes → Bool → Chunk
chunk message next pending = record {
  log_file = file.name;
  records = line message ∷ [];
  prev_marker = [];
  next_marker = next;
  bytes = 2;
  additional_pending = pending;
  batch_id = codes "b1";
  leading_continuation = false;
  truncated_lines = 0;
}

-- Reading at the beginning gives a chunk with more behind it; any other read gives the last chunk.
abbrev pub outside : Outside
outside = record {
  cancelled = λ log. none;
  pull = λ log f marker.
      if same marker (codes "0")
      then ok (chunk (codes "a") (codes "x:2") true)
      else ok (chunk (codes "b") (codes "x:4") false);
  write = λ log recs. none;
  set = λ log f c. none;
  now = λ log. 5;
  error_key = length;
  server_ready = λ m. false;
}

abbrev pub settings : Settings
settings = record {
  max_batch_bytes = 0;
  max_batch_records = 0;
  groups_multiline = true;
  parallel_reads = 1;
  started = 0;
  horizon = 0;
}

abbrev pub memory : Memory
memory = record {
  shipped = λ f. none;
  restarts = no_restarts;
  marks = λ f. [];
  errors = record { recent = []; pruned = 0 };
  stalls = λ f. 0;
}

abbrev pub from_start : Start
from_start = record {
  start_from = beginning;
  initial_files = λ f. false;
  initial_size = λ f. none;
  horizon = 0;
}

abbrev pub from_end : Start
from_end = record from_start { start_from = end; initial_files = λ f. true }

-- A file that has shrunk to six bytes since its size was listed.
abbrev pub content : Bytes
content = codes "a\nb\nc\n"

abbrev pub backlog : FileMeta
backlog = record { name = codes "error/postgresql.log"; size = 3 * 2 ^ 20; last_written_ms = 1 }

abbrev pub read_from_start : ℕ → Bool → Result (Bytes × ℕ)
read_from_start start line_start =
    if line_start && (start == 0) then ok (content, 6) else ok ([], 6)

abbrev pub context : LineContext
context = record { instance_id = codes "db-1"; engine = codes "postgres"; parser = none; now = 9 }

abbrev pub ranged : Ranged
ranged = record {
  read_range = λ log start end line_start. read_from_start start line_start;
  context = λ log. context;
  sha256 = λ s. s;
}

abbrev pub begun : Checkpoint
begun = record {
  marker = codes "x:0";
  bytes_written = 0;
  file_size = 0;
  last_written = 0;
  skip_continuation = false;
}

abbrev pub lookups : Lookups
lookups = record { get = λ f. ok none; skip_to_end = λ f size. ok (codes "x:4"); ranged = ranged }

abbrev pub checkpoint : Checkpoint
checkpoint = record {
  marker = codes "x:4";
  bytes_written = 4;
  file_size = 100;
  last_written = 0;
  skip_continuation = false;
}

-- A drain that recovers from the first restart.
abbrev pub recovering : Drain
recovering = start_at checkpoint true true (pos 4) true 1
