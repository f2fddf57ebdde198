-- ===== src/Source/Lines.antt =====
-- internal/source/rds/fetcher.go: raw log text to records. The line parser of an engine
-- (internal/parse) is an argument, as the `parse.Parser` interface is a field of the fetcher.
pub mod Conservation
pub mod Size
pub mod Leading
use rdstail.Prelude.{
  is_empty, ℕ, ◌+◌, ◌^◌, Bool, true, false, not, ◌||◌, Option, none, some, List, [], ◌∷◌, ◌++◌,
  Bytes, leb, length, if◌then◌else◌,
}
use rdstail.Record.{LogRecord, Audit, Time, is_zero}
use rdstail.Text.{split_on}

-- parse.Meta
pub record Meta : Type 0 where
  pub timestamp : Time
  pub severity : Bytes
  pub audit : Option Audit

abbrev pub no_meta : Meta
no_meta = record { timestamp = 0; severity = []; audit = none }

abbrev pub max_record_bytes : ℕ
max_record_bytes = 2 ^ 20

abbrev is_some {ℓ} : {A : Type ℓ} → Option A → Bool
is_some none = false
is_some (some a) = true

-- What of a Fetcher the parsing reads: its fields and its clock's answer.
pub record LineContext : Type 0 where
  pub instance_id : Bytes
  pub engine : Bytes
  pub parser : Option (Bytes → Meta)
  pub now : Time

abbrev pub meta_of : LineContext → Bytes → Meta
meta_of f line = elim f.parser [ none ↦ no_meta | some parse ↦ parse line ]

-- The line begins a record: always, with no parser.
abbrev pub starts_record : LineContext → Bytes → Bool
starts_record f line = elim f.parser [
  | none ↦ true
  | some parse ↦
      not (is_empty (parse line).severity)
      || not (is_zero (parse line).timestamp)
      || is_some (parse line).audit
]

-- The loop's variables: `out`, `lastTS` and `leadingCont`.
pub record Parsed : Type 0 where
  pub out : List LogRecord
  pub last_ts : Time
  pub leading_cont : Bool

-- last.Message += "\n" + line, where that fits: `none` leaves the record as it is.
unfoldable pub extend_last : Bytes → List LogRecord → Option (List LogRecord)
extend_last line [] = none
extend_last line (r ∷ []) =
    if leb (length r.message + 1 + length line) max_record_bytes
    then some (record r { message = r.message ++ b'\n' ∷ line } ∷ [])
    else none
extend_last line (r ∷ r' ∷ rs) = elim (extend_last line (r' ∷ rs)) [
  | none ↦ none
  | some rest ↦ some (r ∷ rest)
]

-- The header's time, else the last one seen, else the fetch time.
abbrev event_time : Meta → Time → Time → Time
event_time meta last_ts now =
    if not (is_zero meta.timestamp)
    then meta.timestamp
    else if not (is_zero last_ts)
    then last_ts
    else now

-- `out = append(out, rec)`
unfoldable pub push_record : LineContext → Bytes → Bytes → Bool → Parsed → Parsed
push_record f log_file line leading a = record {
  out =
      a.out
      ++ record {
        instance_id = f.instance_id;
        engine = f.engine;
        log_file = log_file;
        timestamp = event_time (meta_of f line) a.last_ts f.now;
        severity = (meta_of f line).severity;
        message = line;
        marker = [];
        batch_id = [];
        audit = (meta_of f line).audit;
        truncated = false;
      }
        ∷ [];
  last_ts =
      if not (is_zero (meta_of f line).timestamp) then (meta_of f line).timestamp else a.last_ts;
  leading_cont = leading;
}

abbrev pub continue_line : LineContext → Bytes → Bytes → Parsed → Option (List LogRecord) → Parsed
continue_line f log_file line a (some out) = record a { out = out }
continue_line f log_file line a none = push_record f log_file line a.leading_cont a

-- The loop's body.
unfoldable pub add_line : LineContext → Bytes → Bytes → Parsed → Parsed
add_line f log_file line a =
    if is_empty line
    then a
    else if starts_record f line
    then push_record f log_file line a.leading_cont a
    else if is_empty a.out
    then push_record f log_file line true a
    else continue_line f log_file line a (extend_last line a.out)

unfoldable pub add_lines : LineContext → Bytes → List Bytes → Parsed → Parsed
unfolding add_line extend_last push_record
add_lines f log_file [] a = a
add_lines f log_file (line ∷ lines) a = add_lines f log_file lines (add_line f log_file line a)

-- parseRecords: the records, and whether the text begins with continuation lines
unfoldable pub parse_records : LineContext → Bytes → Bytes → List LogRecord × Bool
unfolding add_lines split_on
parse_records f log_file raw =
    if is_empty raw
    then ([], false)
    else (let a =
          add_lines f log_file (split_on b'\n' raw)
            (record { out = []; last_ts = 0; leading_cont = false }) in
        (a.out, a.leading_cont))

-- JoinContinuation
unfoldable pub join_continuation : LogRecord → LogRecord → Option LogRecord
join_continuation prev next =
    if leb (length prev.message + 1 + length next.message) max_record_bytes
    then some (record prev {
      message = prev.message ++ b'\n' ∷ next.message;
      truncated = prev.truncated || next.truncated;
    })
    else none
