-- ===== src/Pipeline/Drain/File.antt =====
-- drainFile from its start: the checkpoint that it reads, where a new file begins, and recovery from a
-- restart or a file that shrank, and the call of parallelDrain before its loop.
pub mod Chained
pub mod Ordinary
pub mod Outcome
use rdstail.Prelude.{
  ℕ, ◌-◌, ◌&&◌, Bool, true, false, not, Option, none, some, ◌∷◌, Bytes, ltb, if◌then◌else◌,
}
use rdstail.Prelude.Int.{ℤ, negsuc}
use rdstail.Record.{Checkpoint, Time, is_zero, before, after}
use rdstail.Failure.{Failure, Result, ok, err}
use rdstail.Source.FileMeta.{FileMeta, last_written}
use rdstail.Source.Marker.{offset_marker, marker_beginning}
use rdstail.Pipeline.Position.{rewind_marker, marker_still_valid, same_hour_file, anchor_size}
use rdstail.Pipeline.Restart.{pending_restart, mark_restart_handled, restart_margin}
use rdstail.Pipeline.Marks.{mark_before}
use rdstail.Pipeline.Drain.{
  stored, store_failed, Journal, Outside, Settings, Memory, Drain, start_at,
}
use rdstail.Pipeline.Drain.Flush.{Step}
use rdstail.Pipeline.Drain.ReadOn.{read_on}
use rdstail.Pipeline.Parallel.{Ranged}

-- config.StartFromBeginning and config.StartFromEnd
pub data StartFrom : Type 0 where
  beginning end : StartFrom

-- The start policy of a worker: initialFiles, initialSize and horizon are set at first discovery.
pub record Start : Type 0 where
  pub start_from : StartFrom
  pub initial_files : Bytes → Bool
  pub initial_size : Bytes → Option ℕ
  pub horizon : Time

-- startFor
unfoldable pub start_for : Start → FileMeta → StartFrom
start_for w file = elim w.start_from [
  | beginning ↦ beginning
  | end ↦
      if w.initial_files file.name
      then end
      else if not (is_zero w.horizon)
          && not (is_zero (last_written file))
          && not (after (last_written file) w.horizon)
      then end
      else beginning
]

-- What drainFile asks for before its loop: the stored checkpoint, where the current end is, and what a
-- wave of ranges reads.
pub record Lookups : Type 0 where
  pub get : Bytes → Result (Option Checkpoint)
  pub skip_to_end : Bytes → ℕ → Result Bytes
  pub ranged : Ranged

-- The restart a file has to be re-verified after: its time and its generation.
abbrev Pending : Type 0
Pending = Option (Time × ℕ)

-- Not written since before the restart: nothing to re-verify.
abbrev is_untouched : FileMeta → Time → Bool
is_untouched file at =
    not (is_zero (last_written file)) && before (last_written file) (at - restart_margin)

-- The pending restart that is left, and the memory with an untouched file marked.
unfoldable pub restart_for : FileMeta → Memory → Pending × Memory
unfolding last_written
restart_for file mem = elim (pending_restart file.name mem.restarts) [
  | none ↦ (none, mem)
  | some (at, gen) ↦
      if is_untouched file at
      then (none, record mem { restarts = mark_restart_handled file.name gen mem.restarts })
      else (some (at, gen), mem)
]

abbrev is_some : Pending → Bool
is_some none = false
is_some (some p) = true

abbrev gen_of : Pending → ℕ
gen_of none = 0
gen_of (some (_, gen)) = gen

-- A mark of the same hour file.
abbrev from_mark : Bytes → Option Bytes → Bytes
from_mark marker none = marker
from_mark marker (some m) = if same_hour_file m marker then m else marker

-- The marker to rewind from: where reading was before the restart.
abbrev rewind_from : FileMeta → Checkpoint → Pending → Memory → Bytes
rewind_from file prev none mem = prev.marker
rewind_from file prev (some (at, gen)) mem =
    from_mark prev.marker (mark_before (at - restart_margin) (mem.marks file.name))

abbrev until_of : Option (Bytes × ℤ) → ℤ
until_of none = negsuc 0
until_of (some (_, off)) = off

-- The loop's first variables, for a file with the checkpoint `prev`.
unfoldable pub resume : FileMeta → Bool → Checkpoint → Pending → Memory → Drain
resume file found prev restart mem =
    let shrank =
      found && ltb file.size prev.file_size && not (marker_still_valid prev.marker file.size) in
    let (start, drop_first) = rewind_marker (rewind_from file prev restart mem) file.size in
    if (if shrank then true else is_some restart)
    then start_at (record prev { marker = start; skip_continuation = false }) true drop_first
        (until_of (offset_marker prev.marker)) (is_some restart) (gen_of restart)
    else start_at prev false false (negsuc 0) false 0

abbrev loop_from :
    ℕ
    → Outside
    → Settings
    → Ranged
    → FileMeta
    → Bool
    → Checkpoint
    → Journal
    → Pending × Memory
    → Bool × Step
loop_from fuel o w x file found prev log (restart, mem) =
    read_on fuel o w x file (resume file found prev restart mem) mem log

-- A file that starts at its end ships nothing: its tail is stored.
unfoldable pub skip_file : Outside → FileMeta → Result Bytes → Drain → Memory → Journal → Step
skip_file o file (err e) d mem log = record { failure = some e; drain = d; memory = mem; log = log }
skip_file o file (ok tail) d mem log =
    let ckpt : Checkpoint = record {
      marker = tail;
      bytes_written = 0;
      file_size = file.size;
      last_written = last_written file;
      skip_continuation = false;
    } in
    elim (o.set log file.name ckpt) [
      | some e ↦ record { failure = some e; drain = d; memory = mem; log = store_failed ∷ log }
      | none ↦ record {
        failure = none;
        drain = record d { prev = ckpt };
        memory = mem;
        log = stored ckpt ∷ log;
      }
    ]

abbrev from_beginning : FileMeta → Checkpoint
from_beginning file = record {
  marker = marker_beginning;
  bytes_written = 0;
  file_size = file.size;
  last_written = 0;
  skip_continuation = false;
}

-- drainFile, for at most so many waves and so many chunks; true if more are needed.
unfoldable pub drain_file :
    ℕ → Outside → Settings → Start → Lookups → FileMeta → Memory → Journal → Bool × Step
drain_file fuel o w start l file mem log =
    let fresh = start_at (from_beginning file) false false (negsuc 0) false 0 in
    elim (l.get file.name) [
      | err e ↦ (false, record { failure = some e; drain = fresh; memory = mem; log = log })
      | ok (some prev) ↦ loop_from fuel o w l.ranged file true prev log (restart_for file mem)
      | ok none ↦ elim (start_for start file) [
        | beginning ↦ loop_from fuel o w l.ranged file false (from_beginning file) log (none, mem)
        | end ↦ (
          false,
          skip_file o file
              (l.skip_to_end file.name (anchor_size file.size (start.initial_size file.name))) fresh
              mem log,
        )
      ]
    ]
