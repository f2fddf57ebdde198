-- ===== src/Tests/Parking.antt =====
-- The SQLite tables and replays, on concrete values.
use rdstail.Failure.{has_cause}
use rdstail.State.Dlq.{dlq_list}
use rdstail.Prelude.{first, ◌++◌, same}
use rdstail.Prelude.{
  ℕ, zero, suc, ◌+◌, ◌≡◌, ◌⊎◌, refl, true, false, Option, none, some, List, [], ◌∷◌, Bytes, codes,
  arith, All, IsIn,
}
use rdstail.Prelude.Int.{pos}
use rdstail.Record.{LogRecord, Checkpoint}
use rdstail.Failure.{Failure, other, ok}
use rdstail.Source.FileMeta.{unix_milli}
use rdstail.Sink.{Trace, Environment, endpoint}
use rdstail.Sink.Decorate.{retry_from, with_retry, further_attempts}
use rdstail.State.{find, entry_of, to_unix_milli}
use rdstail.State.Sqlite.{Row, Schema, Statement, migrate, bump_version, sqlite_get}
use rdstail.State.Sqlite.Rows.{
  set_to, delete_of, rows_after, abstract_after, view, sqlite_get-refines,
}
use rdstail.State.Sqlite.Migration.{IsCurrent, never, migrate-resumes}
use rdstail.State.Dlq.{DlqRow, Dlq, dlq_put, dlq_count}
use rdstail.State.Dlq.Order.{
  DlqSteps, empty_dlq, IsNumbered, stay, go_on, putting, DlqSteps-given_once,
}
use rdstail.Replay.{
  SinkConfig, Options, Outside, Replay, is_enough, run, start, by_name, replay_pages,
}
use rdstail.Replay.Counting.{run_counts}
use rdstail.Replay.Delivery.{IsDelivered, run_delivers}
use rdstail.Replay.Emptying.{IsCalm, run_returns, run_empties}
use rdstail.Tests.Data.{line, checkpoint}

abbrev row : ℕ → Bytes → Bytes → DlqRow
row id sink payload = record {
  id = id;
  sink_name = sink;
  batch_id = codes "b1";
  payload = payload;
  reason = codes "refused";
  created_ms = pos 5;
}

-- The row 2 was deleted before.
abbrev parked : Dlq
parked = record {
  rows =
      row 1 (codes "s3") (codes "x")
      ∷ row 3 (codes "http") (codes "y")
      ∷ row 4 (codes "s3") (codes "z")
      ∷ [];
  last_id = 4;
}

parked-IsNumbered : IsNumbered parked
parked-IsNumbered = (
  (omega arith, (omega arith, (omega arith, tt))),
  (omega arith, (omega arith, (omega arith, tt))),
)

abbrev quiet : Environment
quiet = record {
  cancelled = λ t. none;
  interrupted = λ t. none;
  backoff = λ t n. n;
  marshal = λ recs. some [];
  park = λ t name batch payload. none;
  to_upper = λ s. s;
}

abbrev accepting : Trace → List LogRecord → Option Failure
accepting t recs = none

abbrev calm : Outside
calm = record {
  env = quiet;
  ended = λ t n. none;
  build = λ t c. ok accepting;
  unmarshal = λ payload. some (line payload ∷ []);
  list_refused = λ t n. none;
  delete_refused = λ t n. none;
}

-- Each write is refused.
abbrev stormy : Outside
stormy = record calm { build = λ t c. ok (λ u recs. some (other ∷ [])) }

abbrev sinks : List SinkConfig
sinks = record { name = codes "s3"; max_attempts = pos 2 } ∷ []

abbrev options : Options
options = record { sink_filter = codes "s3"; limit = pos 0; dry_run = false; page_size = pos 1 }

-- What a run that returned leaves.
abbrev left_by : Option (Replay × Option Failure) → Replay
left_by none = start parked []
left_by (some (r, e)) = r

abbrev after_calm : Replay
after_calm = left_by (run calm sinks options parked [])

abbrev after_storm : Replay
after_storm = left_by (run stormy sinks options parked [])

unlimited : (k : ℕ) → is_enough options.limit k ≡ false
unlimited k = refl

run_counts_example :
    (after_storm.counts.replayed + after_storm.counts.failed + after_storm.counts.skipped ≡ 2)
    × (dlq_count none after_storm.dlq options.sink_filter
        ≡ ok (after_storm.counts.failed + after_storm.counts.skipped))
unfolding run replay_pages dlq_count same dlq_list has_cause
run_counts_example =
    run_counts stormy sinks options parked [] after_storm 2 parked-IsNumbered unlimited refl refl
      refl

run_delivers_example :
    All (λ r. IsIn r after_calm.dlq.rows ⊎ IsDelivered calm r after_calm.trace) parked.rows
unfolding run replay_pages dlq_list same
run_delivers_example =
    run_delivers calm sinks options parked [] after_calm none parked-IsNumbered refl

run_returns_example :
    (r : Replay) × (e : Option Failure) × (run stormy sinks options parked [] ≡ some (r, e))
run_returns_example = run_returns stormy sinks options parked [] parked-IsNumbered

accepting-IsWilling :
    (name : Bytes) (left attempt : ℕ) (t : Trace) (recs : List LogRecord)
    → (retry_from quiet (endpoint name accepting) recs left attempt t).0 ≡ none
unfolding retry_from endpoint
accepting-IsWilling name zero attempt t recs = refl
accepting-IsWilling name (suc left) attempt t recs = refl

calm-IsCalm : IsCalm calm
unfolding with_retry
calm-IsCalm = (
  λ t n. refl,
  λ t n. refl,
  λ t n. refl,
  λ t c. (
    accepting,
    refl,
    λ u recs. accepting-IsWilling c.name (further_attempts quiet c.max_attempts) 1 u recs,
  ),
)

run_empties_example :
    (r : Replay) × (run calm sinks options parked [] ≡ some (r, none))
    × (r.counts.replayed ≡ 2)
    × (dlq_count none r.dlq options.sink_filter ≡ ok 0)
unfolding dlq_count by_name find same
run_empties_example =
    run_empties calm sinks options parked [] 2 calm-IsCalm parked-IsNumbered unlimited refl
      ((_, refl, (_, refl)), ((_, refl, (_, refl)), tt)) refl

abbrev put_row : DlqRow
put_row = record (row 1 (codes "s3") (codes "x")) { created_ms = to_unix_milli (unix_milli 5) }

abbrev one_put : Dlq
one_put = record { rows = put_row ∷ []; last_id = 1 }

abbrev two_put : Dlq
two_put = record {
  rows =
      one_put.rows
      ++ record (row 2 (codes "s3") (codes "x")) { created_ms = to_unix_milli (unix_milli 5) } ∷ [];
  last_id = 2;
}

first_put : DlqSteps empty_dlq one_put
unfolding dlq_put to_unix_milli
first_put = go_on stay (
    putting (unix_milli 5) (codes "s3") (codes "b1") (codes "x") (codes "refused") {d' = one_put}
      refl)

DlqSteps-given_once_example : put_row ≡ put_row
unfolding dlq_put to_unix_milli
DlqSteps-given_once_example =
    DlqSteps-given_once (put_row) (put_row) first_put
      (go_on stay (
        putting (unix_milli 5) (codes "s3") (codes "b1") (codes "x") (codes "refused")
          {d' = two_put} refl))
      first first refl

abbrev db : Bytes
db = codes "db-1"

abbrev log : Bytes
log = codes "error.log"

abbrev later : Checkpoint
later = record checkpoint { marker = codes "n" }

abbrev at_8 : Row
at_8 = record { instance_id = db; log_file = log; entry = entry_of checkpoint; updated_at = pos 8 }

sqlite_get-refines_example :
    sqlite_get none
      (rows_after
        ((none, set_to (unix_milli 9) db log later) ∷ (some (other ∷ []), delete_of db log) ∷ [])
        (at_8 ∷ []))
      db
      log
    ≡ ok (
        abstract_after
          ((none, set_to (unix_milli 9) db log later) ∷ (some (other ∷ []), delete_of db log) ∷ [])
          (view (at_8 ∷ []))
          db
          log)
sqlite_get-refines_example =
    sqlite_get-refines
      ((none, set_to (unix_milli 9) db log later) ∷ (some (other ∷ []), delete_of db log) ∷ [])
      (at_8 ∷ []) db log

abbrev at_9 : Row
at_9 = record at_8 { updated_at = to_unix_milli (unix_milli 9) }

abbrev version_1 : Schema
version_1 = record { has_tables = true; versions = 1 ∷ []; has_skip = false }

-- The version is not recorded at first.
abbrev cut_short : Statement → Option Failure
cut_short bump_version = some (other ∷ [])
cut_short q = none

migrate-resumes_example :
    ((migrate never (migrate cut_short version_1).1).0 ≡ none)
    × IsCurrent (migrate never (migrate cut_short version_1).1).1
migrate-resumes_example = migrate-resumes cut_short version_1 (λ h. absurd (omega (arith, h)))
