-- ===== src/Source/Portion.antt =====
-- internal/source/rds/fetcher.go: the calls of the RDS API, with recovery of truncated responses.
-- The API (github.com/aws/aws-sdk-go-v2) is an argument: its answer to a call may depend on every
-- call made before, so any sequence of answers is allowed.
pub mod Recovery
use rdstail.Prelude.{
  is_empty, ℕ, zero, suc, ◌+◌, ◌-◌, min, Bool, true, false, Option, none, some, List, [], ◌∷◌, ◌++◌,
  Bytes, codes, take, length, ltb, leb, ◌==◌, same, ◌&&◌, ◌*◌, ◌/◌, ◌%◌, if◌then◌else◌,
}
use rdstail.Prelude.Int.{ℤ, pos, negsuc}
use rdstail.Record.{LogRecord}
use rdstail.Failure.{Result, ok, err, other}
use rdstail.Text.{last_index_byte}
use rdstail.Source.Marker.{marker_beginning, make_marker, offset_marker}
use rdstail.Source.Lines.{LineContext, parse_records}
use rdstail.Source.Truncation.{is_truncated, strip_truncation_notice, complete_lines}

-- One DownloadDBLogFilePortion call; `lines` is NumberOfLines.
pub record Call : Type 0 where
  pub log_file : Bytes
  pub marker : Bytes
  pub lines : Option ℕ

-- What of its answer is read: aws.ToString and aws.ToBool of the fields.
pub record Response : Type 0 where
  pub log_text : Bytes
  pub marker : Bytes
  pub pending : Bool

abbrev pub max_lines_per_call : ℕ
max_lines_per_call = 10000

-- rawPortion
pub record RawPortion : Type 0 where
  pub log_text : Bytes
  pub next : Bytes
  pub pending : Bool
  pub truncated : ℕ

-- Chunk
pub record Chunk : Type 0 where
  pub log_file : Bytes
  pub records : List LogRecord
  pub prev_marker : Bytes
  pub next_marker : Bytes
  pub bytes : ℕ
  pub additional_pending : Bool
  pub batch_id : Bytes
  pub leading_continuation : Bool
  pub truncated_lines : ℕ

unfoldable pub raw_portion : Response → RawPortion
raw_portion resp =
    if is_truncated resp.log_text
    then record {
      log_text = strip_truncation_notice resp.log_text;
      next = resp.marker;
      pending = resp.pending;
      truncated = 1;
    }
    else record {
      log_text = resp.log_text;
      next = resp.marker;
      pending = resp.pending;
      truncated = 0;
    }

hex_digit : ℕ → ℕ
hex_digit n = if ltb n 10 then b'0' + n else b'a' + n - 10

-- hex.EncodeToString
hex : Bytes → Bytes
hex [] = []
hex (b ∷ s) = hex_digit (b / 16) ∷ hex_digit (b % 16) ∷ hex s

-- BatchID, over crypto/sha256
unfoldable pub batch_id : (Bytes → Bytes) → Bytes → Bytes → Bytes → Bytes → Bytes
unfolding hex hex_digit
batch_id sha256 instance_id log_file prev_marker next_marker = hex (
    take 8
      (sha256 (instance_id ++ b'|' ∷ (log_file ++ b'|' ∷ (prev_marker ++ b'|' ∷ next_marker)))))

-- records[len(records)-1].Truncated = true
abbrev pub mark_last : List LogRecord → List LogRecord
mark_last [] = []
mark_last (r ∷ []) = record r { truncated = true } ∷ []
mark_last (r ∷ r' ∷ rs) = r ∷ mark_last (r' ∷ rs)

-- The chunk that PullPortion makes of a raw portion, in the fetcher's context.
unfoldable pub chunk_of : (Bytes → Bytes) → LineContext → Bytes → Bytes → RawPortion → Chunk
unfolding batch_id
chunk_of sha256 f log_file marker raw = record {
  log_file = log_file;
  records =
      if raw.truncated == 0
      then (parse_records f log_file raw.log_text).0
      else mark_last (parse_records f log_file raw.log_text).0;
  prev_marker = marker;
  next_marker = raw.next;
  bytes = length raw.log_text;
  additional_pending = raw.pending;
  batch_id = batch_id sha256 f.instance_id log_file marker raw.next;
  leading_continuation = (parse_records f log_file raw.log_text).1;
  truncated_lines = raw.truncated;
}

module _ (api : List Call → Call → Result Response) where
  -- download: the answer, and the calls made so far, newest first
  unfoldable pub download : Bytes → Bytes → Option ℕ → List Call → Result Response × List Call
  download log_file marker lines calls =
      let c : Call = record { log_file = log_file; marker = marker; lines = lines } in
      (api calls c, c ∷ calls)

  -- The loop of pullRaw; `left` counts the attempts that remain, 4 - attempt.
  unfoldable pub pull_attempts :
      ℕ → Bytes → Bytes → Option ℕ → List Call → Result RawPortion × List Call
  unfolding download raw_portion
  pull_attempts zero log_file marker lines calls =
      let (answer, calls') = download log_file marker lines calls in
      elim answer [ err e ↦ (err e, calls') | ok resp ↦ (ok (raw_portion resp), calls') ]
  pull_attempts (suc left) log_file marker lines calls =
      let (answer, calls') = download log_file marker lines calls in
      elim answer [
        | err e ↦ (err e, calls')
        | ok resp ↦
            let again =
              pull_attempts left log_file marker
                (some (min (complete_lines resp.log_text) max_lines_per_call)) calls' in
            let stop : Result RawPortion × List Call = (ok (raw_portion resp), calls') in
            if is_truncated resp.log_text
            then (if complete_lines resp.log_text == 0 then stop else again)
            else stop
      ]

  -- pullRaw
  unfoldable pub pull_raw : Bytes → Bytes → List Call → Result RawPortion × List Call
  unfolding pull_attempts
  pull_raw log_file marker calls = pull_attempts 4 log_file marker none calls

  -- PullPortion, for a named log file
  unfoldable pub pull_portion :
      (Bytes → Bytes) → LineContext → Bytes → Bytes → List Call → Result Chunk × List Call
  unfolding pull_raw chunk_of
  pull_portion sha256 f [] marker calls = (err (other ∷ []), calls)
  pull_portion sha256 f (c ∷ log_file) marker calls =
      let (raw, calls') =
        pull_raw (c ∷ log_file) (if is_empty marker then marker_beginning else marker) calls in
      elim raw [
        | err e ↦ (err e, calls')
        | ok portion ↦ (ok (chunk_of sha256 f (c ∷ log_file) marker portion), calls')
      ]
