-- ===== src/Pipeline/Delay.antt =====
-- internal/pipeline/worker.go: the delay before the next poll, and the watch for stuck markers.
-- The two products in floating point, the jitter and the idle growth, are arguments.
pub mod Bounds
use rdstail.Prelude.{
  ℕ, suc, ◌+◌, ◌-◌, ◌*◌, ◌^◌, min, max, Bool, true, false, not, ◌||◌, ◌&&◌, List, [], ◌∷◌, Bytes,
  ltb, leb, ◌==◌, same, update, if◌then◌else◌,
}
use rdstail.Record.{Checkpoint, Time, is_zero, after}
use rdstail.Pipeline.Restart.{minute}

abbrev pub throttle_max_delay : ℕ
throttle_max_delay = 2 * minute

-- The fields pollInterval and pollIntervalMax (0: fixed-interval polling).
pub record Pacing : Type 0 where
  pub poll_interval : ℕ
  pub poll_interval_max : ℕ

-- nextPollDelay: `jitter d` is float64(d) * (0.8 + 0.4*rand), `grow d` is float64(d) * pollMultiplier
unfoldable pub next_poll_delay : (ℕ → ℕ) → (ℕ → ℕ) → Pacing → ℕ → Bool → Bool → ℕ
next_poll_delay jitter grow w current active throttled =
    if throttled
    then jitter (min (max current w.poll_interval * 2) (max throttle_max_delay w.poll_interval_max))
    else if w.poll_interval_max == 0 || active
    then w.poll_interval
    else min (grow current) w.poll_interval_max

-- The variable interval of Run after some polls, of each of which it is told whether it shipped
-- something and whether it was throttled.
unfoldable pub interval_after : (ℕ → ℕ) → (ℕ → ℕ) → Pacing → ℕ → List (Bool × Bool) → ℕ
unfolding next_poll_delay
interval_after jitter grow w interval [] = interval
interval_after jitter grow w interval ((active, throttled) ∷ polls) =
    interval_after jitter grow w (next_poll_delay jitter grow w interval active throttled) polls

abbrev pub stall_threshold : ℕ
stall_threshold = 3

-- noteProgress, on the map of stalls: the map after it, and whether a stall is reported
unfoldable pub note_progress :
    (Bytes → ℕ) → Bytes → Time → Checkpoint → Checkpoint → ℕ → (Bytes → ℕ) × Bool
unfolding same
note_progress stalls file last_written was now shipped =
    let grew = after last_written was.last_written && not (is_zero was.last_written) in
    if ltb 0 shipped || not (same now.marker was.marker) || not grew
    then (update stalls file 0, false)
    else (update stalls file (stalls file + 1), stalls file + 1 == stall_threshold)
