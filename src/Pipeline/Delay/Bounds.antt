-- ===== src/Pipeline/Delay/Bounds.antt =====
-- The delays between polls, and the count of stuck polls.
use rdstail.Prelude.{
  ℕ, ◌+◌, ◌*◌, ◌^◌, List, [], ◌∷◌, ◌≤◌, ◌<◌, min, max, ◌≡◌, ◌≢◌, ◌↔◌, refl, Bool, true, false, not,
  ◌||◌, ◌&&◌, Bytes, arith, ltb, same, same_iff, Bool-cases, inl, inr,
}
use rdstail.Record.{Checkpoint, Time, after, is_zero}
use rdstail.Pipeline.Delay.{
  Pacing, interval_after, next_poll_delay, throttle_max_delay, note_progress,
}

module _ (jitter grow : ℕ → ℕ) (w : Pacing) where
  -- A worker that is not throttled waits at least its base interval and, where adaptive polling is on,
  -- at most its maximum.
  pub next_poll_delay_paced :
      (current : ℕ) (active : Bool)
      → (w.poll_interval_max ≢ 0 → w.poll_interval ≤ w.poll_interval_max)
      → w.poll_interval ≤ current
      → current ≤ grow current
      → (w.poll_interval ≤ next_poll_delay jitter grow w current active false)
        × (next_poll_delay jitter grow w current active false
            ≤ max w.poll_interval w.poll_interval_max)
  unfolding next_poll_delay
  next_poll_delay_paced current active fits base grows = ground (arith, fits)

  -- With jitter of at most a fifth either way, a throttled worker waits at least 8/10 of twice the
  -- base interval or of the throttle limit, whichever is less, and at most 12/10 of the limit.
  pub next_poll_delay_throttled :
      (current : ℕ) (active : Bool)
      → ((d : ℕ) → (8 * d ≤ 10 * jitter d + 10) × (10 * jitter d ≤ 12 * d))
      → (8 * min (w.poll_interval * 2) (max throttle_max_delay w.poll_interval_max)
          ≤ 10 * next_poll_delay jitter grow w current active true + 10)
        × (10 * next_poll_delay jitter grow w current active true
            ≤ 12 * max throttle_max_delay w.poll_interval_max)
  unfolding next_poll_delay
  next_poll_delay_throttled current active bounds = omega (
    arith,
    bounds (min (max current w.poll_interval * 2) (max throttle_max_delay w.poll_interval_max)),
  )

-- A delay between the bounds leads to one between them again.
module _ (jitter grow : ℕ → ℕ) (w : Pacing) (least : 10 ^ 9 ≤ w.poll_interval)
    (fits : w.poll_interval_max ≢ 0 → w.poll_interval ≤ w.poll_interval_max)
    (jitters : (d : ℕ) → (8 * d ≤ 10 * jitter d + 10) × (10 * jitter d ≤ 12 * d))
    (grows : (d : ℕ) → d ≤ grow d) where
  abbrev longest : ℕ
  longest = max (max w.poll_interval w.poll_interval_max) (120 * 10 ^ 9)

  next_poll_delay-bounds :
      (current : ℕ) (active throttled : Bool)
      → 10 ^ 9 ≤ current
      → (10 ^ 9 ≤ next_poll_delay jitter grow w current active throttled)
        × (10 * next_poll_delay jitter grow w current active throttled ≤ 12 * longest)
  unfolding next_poll_delay
  next_poll_delay-bounds current active true low = omega (
    arith,
    least,
    low,
    jitters (min (max current w.poll_interval * 2) (max throttle_max_delay w.poll_interval_max)),
  )
  next_poll_delay-bounds current active false low = ground (arith, least, low, fits, grows current)

  pub interval_after_paced :
      (current : ℕ) (polls : List (Bool × Bool))
      → 10 ^ 9 ≤ current
      → 10 * current ≤ 12 * longest
      → (10 ^ 9 ≤ interval_after jitter grow w current polls)
        × (10 * interval_after jitter grow w current polls ≤ 12 * longest)
  unfolding interval_after
  interval_after_paced current [] low high = (low, high)
  interval_after_paced current ((active, throttled) ∷ polls) low high =
      let (low', high') = next_poll_delay-bounds current active throttled low in
      interval_after_paced (next_poll_delay jitter grow w current active throttled) polls low' high'

-- A poll of a file that grew since its checkpoint, shipped nothing and left the marker.
pub record IsStuck (last_written : Time) (was now : Checkpoint) (shipped : ℕ) : Type 0 where
  pub nothing : shipped ≡ 0
  pub stays : now.marker ≡ was.marker
  pub grows : was.last_written < last_written
  pub timed : was.last_written ≢ 0

-- The test of noteProgress, for the branch that counts.
counts-IsStuck :
    (last_written : Time) (was now : Checkpoint) (shipped : ℕ)
    → (ltb 0 shipped
        || not (same now.marker was.marker)
        || not (after last_written was.last_written && not (is_zero was.last_written)))
      ≡ false
    → IsStuck last_written was now shipped
counts-IsStuck last_written was now shipped h = record {
  nothing = ground (arith, h);
  stays = ground (arith, h, same_iff now.marker was.marker);
  grows = ground (arith, h);
  timed = ground (arith, h);
}

-- A poll that is not stuck resets the file's count and reports nothing.
pub note_progress_moves :
    (stalls : Bytes → ℕ) (file : Bytes) (last_written : Time) (was now : Checkpoint) (shipped : ℕ)
    → ¬ IsStuck last_written was now shipped
    → ((note_progress stalls file last_written was now shipped).0 file ≡ 0)
      × ((note_progress stalls file last_written was now shipped).1 ≡ false)
unfolding note_progress
note_progress_moves stalls file last_written was now shipped n =
    elim (Bool-cases (
      ltb 0 shipped
      || not (same now.marker was.marker)
      || not (after last_written was.last_written && not (is_zero was.last_written)))) [
        | inl resets ↦ rw resets (ground (arith, same_iff file file), refl)
        | inr counts ↦ absurd (n (counts-IsStuck last_written was now shipped counts))
      ]

-- A stuck poll raises the file's count by one, and is reported exactly when the count becomes 3.
pub note_progress_stuck :
    (stalls : Bytes → ℕ) (file : Bytes) (last_written : Time) (was now : Checkpoint) (shipped : ℕ)
    → IsStuck last_written was now shipped
    → ((note_progress stalls file last_written was now shipped).0 file ≡ stalls file + 1)
      × (((note_progress stalls file last_written was now shipped).1 ≡ true)
          ↔ ((note_progress stalls file last_written was now shipped).0 file ≡ 3))
unfolding note_progress
note_progress_stuck stalls file last_written was now shipped s = (
  ground (arith, same_iff file file, same_iff now.marker was.marker),
  (
    λ h. ground (arith, h, same_iff file file, same_iff now.marker was.marker),
    λ h. ground (arith, h, same_iff file file, same_iff now.marker was.marker),
  ),
)
