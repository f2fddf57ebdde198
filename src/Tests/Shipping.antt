-- ===== src/Tests/Shipping.antt =====
-- Hand-over at rotation, sinks and stores, on concrete values.
use rdstail.Prelude.{
  IsIn, inl, ℕ, ◌≡◌, ◌⊎◌, refl, Bool, true, false, Option, none, some, List, [], ◌∷◌, ◌++◌, Bytes,
  codes, arith, same, take, update,
}
use rdstail.Prelude.Int.{pos}
use rdstail.Record.{LogRecord, Checkpoint}
use rdstail.Failure.{Failure, has_cause, permanent, other}
use rdstail.Source.Hour.{parse_hour_marker}
use rdstail.Source.Marker.{marker_beginning}
use rdstail.Pipeline.Rotation.{RotatedFile, Store, at_marker, plan_base}
use rdstail.Pipeline.Rotation.Hours.{no_faults}
use rdstail.Pipeline.Rotation.HandOver.{plan_base-left_for}
use rdstail.Sink.{Trace, Sink, Environment, endpoint}
use rdstail.Sink.Decorate.{FilterConfig, with_retry, build}
use rdstail.Sink.Ack.{wanted, IsHandled, build-IsHandled}
use rdstail.Sink.Retry.{tries, with_retry-gives_up}
use rdstail.State.{Entries, Entry, entry_of}
use rdstail.State.File.{FileOp, Disk, apply_ops, file_set}
use rdstail.State.File.Durable.{file_set-crash}
use rdstail.Source.Hour.{compare_hour}
use rdstail.Tests.Data.{line, checkpoint}

abbrev base : Bytes
base = codes "mysql-general.log"

abbrev rotated : ℕ → Bytes → RotatedFile
rotated hour suffix = record {
  meta = record { name = base ++ b'.' ∷ suffix; size = 50; last_written_ms = 1 };
  id = record { date = codes "2026-10-10"; hour = hour };
}

abbrev first : RotatedFile
first = rotated 7 (codes "2026-10-10.7")

abbrev second_hour : RotatedFile
second_hour = rotated 8 (codes "2026-10-10.8")

abbrev in_hour : Checkpoint
in_hour = at_marker (codes "2026-10-10.7:30")

-- Only the base has a checkpoint, in the first hour.
abbrev store : Store
store = update (λ f. none) base (some in_hour)

at_front : IsIn first (first ∷ second_hour ∷ [])
at_front = rdstail.Prelude.first

plan_base-left_for_example :
    ((plan_base no_faults base (first ∷ second_hour ∷ []) false store).1 second_hour.meta.name
      ≡ some (at_marker marker_beginning))
    × ((plan_base no_faults base (first ∷ second_hour ∷ []) false store).1 base
        ≡ some (at_marker marker_beginning))
unfolding parse_hour_marker compare_hour same
plan_base-left_for_example =
    plan_base-left_for base (first ∷ []) second_hour [] false store in_hour first.id 30
      ((λ e. ground (arith, e), tt), (tt, tt))
      (λ e. ground (arith, e), (λ e. ground (arith, e), tt)) refl refl (inl (first, at_front, refl))
      refl

abbrev pub environment : Environment
environment = record {
  cancelled = λ t. none;
  interrupted = λ t. none;
  backoff = λ t n. n;
  marshal = λ recs. some (codes "[]");
  park = λ t name batch payload. none;
  to_upper = λ s. s;
}

abbrev refuses : Trace → List LogRecord → Option Failure
refuses t recs = some (other ∷ [])

abbrev errors_only : FilterConfig
errors_only = record { min_severity = codes "ERROR"; severities = [] }

build-IsHandled_example :
    IsHandled environment
      (codes "s3")
      (wanted environment (some errors_only) (line (codes "a") ∷ []))
      ((build environment true (pos 2) (some errors_only) (endpoint (codes "s3") refuses)).write []
        (line (codes "a") ∷ [])).1
unfolding build same endpoint has_cause
build-IsHandled_example =
    build-IsHandled environment (codes "s3") refuses true (pos 2) (some errors_only) []
      (line (codes "a") ∷ []) refl

with_retry-gives_up_example :
    (has_cause permanent (other ∷ []) ≡ true)
    ⊎ (tries
          ((with_retry environment (pos 3) (endpoint (codes "s3") refuses)).write []
            (line (codes "a") ∷ [])).1
        ≡ 3)
unfolding with_retry endpoint has_cause
with_retry-gives_up_example =
    with_retry-gives_up environment (codes "s3") refuses (line (codes "a") ∷ []) (λ t. refl)
      (λ t. refl) (pos 3) [] (other ∷ []) refl

abbrev sinks : List Sink
sinks = endpoint (codes "s3") refuses ∷ endpoint (codes "http") (λ t recs. none) ∷ []

abbrev is_error : LogRecord → Bool
is_error r = same r.severity (codes "ERROR")

abbrev is_a : LogRecord → Bool
is_a r = same r.message (codes "a")

-- The map with one entry, and an encoding that knows only it.
abbrev stored_entries : Entries Entry
stored_entries = (codes "db-1|f", entry_of checkpoint) ∷ []

abbrev marshal : Entries Entry → Option Bytes
marshal m = some (codes "{}")

abbrev unmarshal : Bytes → Option (Entries Entry)
unmarshal body = some stored_entries

abbrev disk : Disk
disk = record { doc = none; temp = none }

abbrev nothing_fails : FileOp → Bool
nothing_fails op = false

file_set-crash_example :
    let saved = file_set marshal unmarshal nothing_fails [] (codes "db-1") (codes "f") checkpoint in
    ((apply_ops (take 3 saved.ops) disk).doc ≡ none)
    ⊎ ((saved.failure ≡ none) × ((apply_ops (take 3 saved.ops) disk).doc ≡ marshal saved.entries))
file_set-crash_example =
    file_set-crash marshal unmarshal nothing_fails [] (codes "db-1") (codes "f") checkpoint disk 3
