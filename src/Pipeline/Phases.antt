-- ===== src/Pipeline/Phases.antt =====
-- internal/pipeline/worker.go: which of the listed files a poll drains, and in which of two phases.
pub mod Partition
use rdstail.Prelude.{Bool, true, false, not, ◌||◌, ◌&&◌, List, [], ◌∷◌, keep_if, if◌then◌else◌}
use rdstail.Record.{Time, is_zero, before}
use rdstail.Source.FileMeta.{FileMeta, last_written}
use rdstail.Pipeline.Errors.{is_error_log, is_error_running_log}

-- hasRealtime
unfoldable pub has_realtime : List FileMeta → Bool
unfolding is_error_log
has_realtime [] = false
has_realtime (f ∷ files) = is_error_log f.name || has_realtime files

-- splitErrorLogPhases
unfoldable pub split_error_log_phases : List FileMeta → List FileMeta × List FileMeta
unfolding has_realtime is_error_running_log
split_error_log_phases files =
    if has_realtime files
    then (
      keep_if (λ f. not (is_error_running_log f.name)) files,
      keep_if (λ f. is_error_running_log f.name) files,
    )
    else (files, [])

-- eligibleFiles, with the worker's minFileTime
unfoldable pub eligible_files : Time → List FileMeta → List FileMeta
unfolding last_written
eligible_files min_file_time files =
    if is_zero min_file_time
    then files
    else keep_if
        (λ f. not (not (is_zero (last_written f)) && before (last_written f) min_file_time)) files
