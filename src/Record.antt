-- ===== src/Record.antt =====
-- pkg/logrecord/logrecord.go and the checkpoint of internal/state/store.go.
use rdstail.Prelude.{ℕ, Bool, false, Option, List, [], ◌∷◌, ◌++◌, Bytes, ltb, ◌==◌}

-- time.Time, in nanoseconds since Go's zero time; `IsZero` is 0.
abbrev pub Time : Type 0
Time = ℕ

abbrev pub is_zero : Time → Bool
is_zero t = t == 0

-- a.Before(b), and a.After(b)
abbrev pub before : Time → Time → Bool
before a b = ltb a b

abbrev pub after : Time → Time → Bool
after a b = ltb b a

pub record Audit : Type 0 where
  pub kind : Bytes
  pub class : Bytes
  pub command : Bytes
  pub object_type : Bytes
  pub object_name : Bytes

pub record LogRecord : Type 0 where
  pub instance_id : Bytes
  pub engine : Bytes
  pub log_file : Bytes
  pub timestamp : Time
  pub severity : Bytes
  pub message : Bytes
  pub marker : Bytes
  pub batch_id : Bytes
  pub audit : Option Audit
  pub truncated : Bool

-- state.Checkpoint
pub record Checkpoint : Type 0 where
  pub marker : Bytes
  pub bytes_written : ℕ
  pub file_size : ℕ
  pub last_written : Time
  pub skip_continuation : Bool

-- Checkpoint{}
abbrev pub no_checkpoint : Checkpoint
no_checkpoint = record {
  marker = [];
  bytes_written = 0;
  file_size = 0;
  last_written = 0;
  skip_continuation = false;
}

-- The log text that records carry: their messages, each ended by a newline.
abbrev pub text : List LogRecord → Bytes
text [] = []
text (r ∷ rs) = r.message ++ b'\n' ∷ text rs
