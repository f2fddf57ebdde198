-- ===== src/Pipeline/Drain/ReadOn.antt =====
-- internal/pipeline/worker.go: what drainFile does from its first variables on: it calls parallelDrain,
-- where that may read the file, and then reads chunk by chunk.
use rdstail.Prelude.{ℕ, ◌+◌, ◌&&◌, Bool, true, false, not, Option, none, some, ltb, if◌then◌else◌}
use rdstail.Failure.{Failure}
use rdstail.Source.FileMeta.{FileMeta}
use rdstail.Pipeline.Errors.{is_error_log, is_error_running_log}
use rdstail.Pipeline.Drain.{Journal, Outside, Settings, Memory, Drain}
use rdstail.Pipeline.Drain.Flush.{Step}
use rdstail.Pipeline.Drain.Loop.{drain_loop}
use rdstail.Pipeline.Parallel.{Ranged, Waves, parallel_drain}

-- Only a drain that neither recovers nor drops anything is read in waves, and no error log.
unfoldable pub reads_in_waves : Settings → FileMeta → Drain → Bool
unfolding is_error_log is_error_running_log
reads_in_waves w file d =
    ltb 1 w.parallel_reads
    && not d.dedupe
    && not d.drop_first
    && not d.skip_leading
    && not (is_error_log file.name)
    && not (is_error_running_log file.name)

-- Reading goes on where the waves ended.
abbrev pub behind_waves : Waves → Drain → Drain
behind_waves q d = record d {
  prev = q.prev;
  marker = q.prev.marker;
  last_start = q.prev.marker;
  shipped = d.shipped + q.shipped;
}

-- From what parallelDrain returned; if it needs more waves, `true`.
abbrev pub after_waves :
    ℕ
    → Outside
    → Settings
    → FileMeta
    → Drain
    → Memory
    → Journal
    → Option (Option Failure × Waves)
    → Bool × Step
after_waves fuel o w file d mem log none =
    (true, record { failure = none; drain = d; memory = mem; log = log })
after_waves fuel o w file d mem log (some (some e, q)) =
    (false, record { failure = some e; drain = behind_waves q d; memory = q.memory; log = q.log })
after_waves fuel o w file d mem log (some (none, q)) =
    drain_loop fuel o w file d.prev (behind_waves q d) q.memory q.log

-- From the first variables to the end.
unfoldable pub read_on :
    ℕ → Outside → Settings → Ranged → FileMeta → Drain → Memory → Journal → Bool × Step
unfolding reads_in_waves
read_on fuel o w x file d mem log =
    if reads_in_waves w file d
    then after_waves fuel o w file d mem log
        (parallel_drain fuel o x w file w.parallel_reads d.prev mem log)
    else drain_loop fuel o w file d.prev d mem log
