-- ===== src/Tests/Waves.antt =====
-- A wave of two ranges, on a file that has shrunk to six bytes since its size was listed.
use rdstail.Text.{parse_int}
use rdstail.Prelude.{
  ℕ, ◌≡◌, ◌⊎◌, inl, inr, refl, ◌==◌, arith, true, false, Option, none, some, [], ◌++◌, codes,
  Bool-cases,
}
use rdstail.Failure.{Failure, ok}
use rdstail.Source.Marker.{offset_marker}
use rdstail.Pipeline.Drain.{Journal, Settings}
use rdstail.Pipeline.Drain.Loop.{drain_loop, turn}
use rdstail.Pipeline.Drain.Flush.{flush}
use rdstail.Pipeline.Drain.Absorb.{absorb}
use rdstail.Pipeline.Errors.{is_error_running_log}
use rdstail.Pipeline.Drain.ReadOn.{read_on, reads_in_waves}
use rdstail.Pipeline.Drain.File.{Lookups, restart_for, drain_file, resume}
use rdstail.Pipeline.Drain.File.Chained.{drain_file-IsChained}
use rdstail.Pipeline.Drain.File.Outcome.{drain_file-AllSafe}
use rdstail.Pipeline.Drain.Journal.{delivered_text, AllSafe, IsChained}
use rdstail.Text.{last_index_byte, parse_int}
use rdstail.Source.Ranges.Cutting.{IsStop}
use rdstail.Pipeline.Parallel.{Waves, parallel_drain}
use rdstail.Pipeline.Parallel.Safety.{ReadsOwned, Ships, IsFailed, IsTracked}
use rdstail.Pipeline.Parallel.Tracking.{parallel_drain-Ships}
use rdstail.Text.{format_int}
use rdstail.Pipeline.Restart.{pending_restart}
use rdstail.Tests.Data.{
  outside, settings, memory, content, backlog, ranged, begun, lookups, from_start,
}

stops : (end : Option ℕ) → IsStop content 0 end 6
unfolding last_index_byte
stops none = (content, refl, refl)
stops (some e) = inr (content, refl, refl)

owned : ReadsOwned content ranged
owned log start end false t stop h = inl (ground (arith, h))
owned log start end true t stop h = elim (Bool-cases (start == 0)) [
  | inr later ↦ inl (ground (arith, later, h))
  | inl first ↦
      let start_is : start ≡ 0 = ground (arith, first) in
      let t_is : content ≡ t = ground (arith, first, h) in
      let stop_is : 6 ≡ stop = ground (arith, first, h) in
      rw (← t_is, ← stop_is, start_is) (inr (0, refl, refl, refl, stops end))
]

abbrev waves_of : Option (Option Failure × Waves) → Waves
waves_of none = record { prev = begun; off = 0; shipped = 0; memory = memory; log = [] }
waves_of (some (f, q)) = q

abbrev drained : Option (Option Failure × Waves)
drained = parallel_drain 2 outside ranged settings backlog 2 begun memory []

abbrev delivered_all : Journal
delivered_all = (waves_of drained).log

all_shipped :
    ((waves_of drained).shipped ≡ 3)
    × ((waves_of drained).off ≡ 6)
    × (delivered_text delivered_all ≡ content)
unfolding parallel_drain offset_marker last_index_byte parse_int
all_shipped = (refl, refl, refl)

parallel_drain-Ships_example :
    Ships content (codes "x") 0 [] delivered_all
    × (IsFailed none ⊎ IsTracked content (codes "x") 0 begun [] (waves_of drained))
unfolding parallel_drain offset_marker last_index_byte parse_int
parallel_drain-Ships_example =
    parallel_drain-Ships 2 outside ranged settings backlog 2 begun memory [] content (codes "x") 0
      none (waves_of drained) owned refl refl

abbrev in_waves : Settings
in_waves = record settings { parallel_reads = 2 }

abbrev begun_lookups : Lookups
begun_lookups = record lookups { get = λ f. ok (some begun) }

-- The waves ship the file, and the loop the chunk behind them.
shipped_behind :
    delivered_text (drain_file 3 outside in_waves from_start begun_lookups backlog memory []).1.log
    ≡ content ++ codes "b\n"
unfolding parallel_drain offset_marker last_index_byte parse_int drain_file drain_loop turn resume
    flush absorb is_error_running_log read_on reads_in_waves restart_for pending_restart format_int
shipped_behind = refl

drain_file-AllSafe_example :
    AllSafe (drain_file 3 outside in_waves from_start begun_lookups backlog memory []).1.log
unfolding is_error_running_log restart_for pending_restart
drain_file-AllSafe_example =
    drain_file-AllSafe 3 outside in_waves from_start begun_lookups backlog memory refl
      (inr (begun, refl, refl, omega arith, refl))

drain_file-IsChained_example :
    IsChained
      (codes "x:0")
      (drain_file 3 outside in_waves from_start begun_lookups backlog memory []).1.log
unfolding restart_for pending_restart resume
drain_file-IsChained_example =
    drain_file-IsChained 3 outside in_waves from_start begun_lookups backlog memory
