-- ===== src/Tests/Reading.antt =====
-- Reading portions and grouping their lines, on concrete texts.

use rdstail.Text.{has_byte}
use rdstail.Prelude.{
  if◌then◌else◌, sym, ap, ◌==◌, ℕ, ◌≡◌, ◌⊎◌, refl, Bool, true, false, none, some, List, [], ◌∷◌,
  ◌++◌, Bytes, codes, All,
}
use rdstail.Record.{LogRecord, text}
use rdstail.Failure.{Result, ok, err}
use rdstail.Text.{split_on}
use rdstail.Source.Hour.{HourId, split_rotated}
use rdstail.Source.Lines.{Meta, LineContext, parse_records}
use rdstail.Source.Lines.Conservation.{line_text, text-parse_records}
use rdstail.Source.Lines.Size.{IsBounded, parse_records-IsBounded}
use rdstail.Source.Truncation.{truncation_notice, is_truncated, complete_lines}
use rdstail.Source.Portion.{Call, Response, RawPortion, pull_raw}
use rdstail.Source.Portion.Recovery.{IsCutAfter, newlines, pull_raw-recovers}
use rdstail.Tests.Data.{line}

abbrev hour : ℕ → HourId
hour n = record { date = codes "2026-10-10"; hour = n }

split_rotated_test :
    split_rotated (codes "general/mysql-general.log.2026-10-10.7")
    ≡ some (codes "general/mysql-general.log", hour 7)
unfolding split_rotated
split_rotated_test = refl

-- A parser that takes a line that begins with `E` for a header.
abbrev headers : Bytes → Meta
headers [] = record { timestamp = 0; severity = []; audit = none }
headers (c ∷ cs) = record { timestamp = if c == b'E' then 5 else 0; severity = []; audit = none }

abbrev context : LineContext
context = record {
  instance_id = codes "db-1";
  engine = codes "mysql";
  parser = some headers;
  now = 9;
}

abbrev raw : Bytes
raw = codes "tail\nE one\n\n  more\nE two\n"

text-parse_records_example :
    text (parse_records context (codes "f") raw).0 ≡ line_text (split_on b'\n' raw)
text-parse_records_example = text-parse_records context (codes "f") raw

parse_records-IsBounded_example : All IsBounded (parse_records context (codes "f") raw).0
parse_records-IsBounded_example = parse_records-IsBounded context (codes "f") raw

abbrev joined : LogRecord
joined = record (line (codes "E one")) { message = codes "E one\n  more" }

-- RDS cuts an answer with no limit on the lines, and honours a limit.
abbrev api : List Call → Call → Result Response
api calls c = elim c.lines [
  | none ↦ ok (record {
    log_text = codes "a\ncu\n" ++ truncation_notice;
    marker = codes "17:90";
    pending = true;
  })
  | some n ↦ ok (record { log_text = codes "a\n"; marker = codes "17:2"; pending = true })
]

abbrev whole : RawPortion
whole = record { log_text = codes "a\n"; next = codes "17:2"; pending = true; truncated = 0 }

abbrev is_cut : Result Response → Bool
is_cut (ok resp) = is_truncated resp.log_text
is_cut (err e) = false

abbrev text_of : Result Response → Bytes
text_of (ok resp) = resp.log_text
text_of (err e) = []

pull_raw-recovers_example :
    (whole.truncated ≡ 0)
    ⊎ ((resp : Response) × (before : Bytes) × (cut : Bytes) × (api []
            (record { log_file = codes "f"; marker = codes "0"; lines = none })
          ≡ ok resp)
        × IsCutAfter before cut resp.log_text
        × (newlines before ≡ 0))
unfolding pull_raw is_truncated complete_lines has_byte
pull_raw-recovers_example =
    pull_raw-recovers api (codes "f") (codes "0")
      (λ calls resp answered cut. (codes "a\n", codes "cu", (ap text_of (sym answered), refl)))
      (λ calls resp resp' before cut answered shape answered'. sym (ap is_cut answered')) [] whole
      refl
