-- ===== src/Pipeline/Drain/File/Outcome.antt =====
-- What callers of drainFile and of its flush rely on, case by case.
use rdstail.Prelude.{
  ℕ, ◌≤◌, ◌<◌, ◌≡◌, ◌⊎◌, refl, Bool, true, false, inl, inr, none, some, [], Bytes, arith,
  Option-cases, Bool-cases, Option, ◌≢◌, subst, sym, ap, ◌∙◌,
}
use rdstail.Prelude.Int.{negsuc}
use rdstail.Record.{Checkpoint, Time}
use rdstail.Text.{last_index_byte}
use rdstail.Source.Marker.{offset_marker}
use rdstail.Pipeline.Parallel.{Ranged, Waves}
use rdstail.Pipeline.Parallel.Ends.{parallel_drain-returns}
use rdstail.Failure.{Failure, ok, Result-cases}
use rdstail.Source.FileMeta.{FileMeta}
use rdstail.Source.Portion.{Chunk}
use rdstail.Pipeline.Errors.{is_error_running_log}
use rdstail.Pipeline.Drain.{Journal, Outside, Settings, Memory, Drain}
use rdstail.Pipeline.Drain.Flush.{flush}
use rdstail.Pipeline.Drain.Ends.{pulls, drain_loop-ends}
use rdstail.Pipeline.Drain.Journal.{pulled_text, delivered_text, AllSafe}
use rdstail.Pipeline.Drain.ReadOn.{reads_in_waves, behind_waves, after_waves, read_on}
use rdstail.Pipeline.Drain.File.{
  Start, Lookups, StartFrom, beginning, end, start_for, drain_file, resume, from_beginning,
}
use rdstail.Pipeline.Drain.File.Ordinary.{Begins, drain_file-IsDelivered, flush-restarts}

module _ (fuel : ℕ) (o : Outside) (w : Settings) (start : Start) (l : Lookups) (file : FileMeta)
    (mem : Memory) where
  -- For every file but the running error log, new and read from its beginning, or read from a
  -- checkpoint that skips no continuation, with no restart pending and the file not smaller than then,
  -- whatever the API, the sink, the store and the context answer, after any
  -- number of waves and chunks: whenever a checkpoint was stored, the text delivered by then was the text read
  -- so far but for a held-back rest at its end, and the stored marker is where reading had come to,
  -- with nothing held back, or is one at which everything read before it had been delivered.
  pub drain_file-AllSafe :
      is_error_running_log file.name ≡ false
      → Begins start l file mem
      → AllSafe (drain_file fuel o w start l file mem []).1.log
  drain_file-AllSafe ordinary begins =
      (drain_file-IsDelivered fuel o w start l file mem ordinary begins).0

  -- For every file but the running error log, new and read from its beginning, or read from a
  -- checkpoint that skips no continuation, with no restart pending and the file not smaller than then,
  -- whatever the API, the sink, the store and the context answer: when
  -- drainFile has returned with no error, the text that the sink acknowledged is exactly the text
  -- that was read, in order and each line once.
  pub drain_file-delivers :
      is_error_running_log file.name ≡ false
      → Begins start l file mem
      → (drain_file fuel o w start l file mem []).0 ≡ false
      → (drain_file fuel o w start l file mem []).1.failure ≡ none
      → delivered_text (drain_file fuel o w start l file mem []).1.log
        ≡ pulled_text (drain_file fuel o w start l file mem []).1.log
  drain_file-delivers ordinary begins done fine =
      (drain_file-IsDelivered fuel o w start l file mem ordinary begins).1 done fine

pub start_for-cases :
    (start : Start) (file : FileMeta)
    → (start_for start file ≡ beginning) ⊎ (start_for start file ≡ end)
start_for-cases start file = go (start_for start file)
  where
    go : (s : StartFrom) → (s ≡ beginning) ⊎ (s ≡ end)
    go beginning = inl refl
    go end = inr refl

abbrev IsQuiet : ℕ → Outside → FileMeta → Type 0
IsQuiet n o file =
    (log : Journal) (marker : Bytes) (chunk : Chunk)
    → n ≤ pulls log
    → o.pull log file.name marker ≡ ok chunk
    → chunk.additional_pending ≡ false

-- No marker that something makes has a negative offset.
abbrev pub IsPlaced : Checkpoint → Type 0
IsPlaced c = (prefix : Bytes) (k : ℕ) → offset_marker c.marker ≢ some (prefix, negsuc k)

from_beginning-IsPlaced : (file : FileMeta) → IsPlaced (from_beginning file)
unfolding offset_marker last_index_byte
from_beginning-IsPlaced file prefix k h = cc

-- What is read in waves is read from the checkpoint that was stored.
resume-prev :
    (file : FileMeta) (found : Bool) (prev : Checkpoint) (restart : Option (Time × ℕ))
    (mem : Memory)
    → (resume file found prev restart mem).dedupe ≡ false
    → (resume file found prev restart mem).prev ≡ prev
unfolding resume
resume-prev file found prev (some r) mem h = absurd (ground (arith, h))
resume-prev file found prev none mem h = ground (arith, h)

reads_in_waves_lem :
    (w : Settings) (file : FileMeta) (d : Drain)
    → reads_in_waves w file d ≡ true
    → (1 ≤ w.parallel_reads) × (d.dedupe ≡ false)
unfolding reads_in_waves
reads_in_waves_lem w file d h = (ground (arith, h), ground (arith, h))

module _ (n fuel : ℕ) (o : Outside) (w : Settings) (file : FileMeta) (quiet : IsQuiet n o file)
    (enough : n < fuel) (enough_waves : file.size < fuel) where
  after_waves-ends :
      (d : Drain) (mem : Memory) (log : Journal) (r : Option Failure × Waves)
      → (after_waves fuel o w file d mem log (some r)).0 ≡ false
  after_waves-ends d mem log (some e, q) = refl
  after_waves-ends d mem log (none, q) =
      drain_loop-ends o w file d.prev n fuel (behind_waves q d) q.memory q.log quiet (omega arith)
        (omega arith)

  read_on-ends :
      (x : Ranged) (d : Drain) (mem : Memory) (log : Journal)
      → (reads_in_waves w file d ≡ true → IsPlaced d.prev)
      → (read_on fuel o w x file d mem log).0 ≡ false
  unfolding read_on
  read_on-ends x d mem log placed = elim (Bool-cases (reads_in_waves w file d)) [
    | inr chunks ↦
        rw chunks
          (drain_loop-ends o w file d.prev n fuel d mem log quiet (omega arith) (omega arith))
    | inl waves ↦
        let (r, back) =
          parallel_drain-returns fuel o x w file w.parallel_reads d.prev mem log
            (reads_in_waves_lem w file d waves).0 enough_waves (placed waves) in
        rw (waves, back) (after_waves-ends d mem log r)
  ]

-- If from the n-th read of the file on every answer says that nothing more is pending, and the stored
-- checkpoint has no negative offset, then fuel for n chunks and one more, and for as many waves as the
-- file has bytes and one more, is enough: drainFile has returned, whatever else fails or not.
pub drain_file-ends :
    (n fuel : ℕ) (o : Outside) (w : Settings) (start : Start) (l : Lookups) (file : FileMeta)
    (mem : Memory)
    → ((log : Journal) (marker : Bytes) (chunk : Chunk)
        → n ≤ pulls log
        → o.pull log file.name marker ≡ ok chunk
        → chunk.additional_pending ≡ false)
    → ((prev : Checkpoint) → l.get file.name ≡ ok (some prev) → IsPlaced prev)
    → n < fuel
    → file.size < fuel
    → (drain_file fuel o w start l file mem []).0 ≡ false
unfolding drain_file
drain_file-ends n fuel o w start l file mem quiet placed enough enough_waves =
    elim (Result-cases (l.get file.name)) [
      | inr (e, failed) ↦ rw (failed, drain_file) refl
      | inl (found, e) ↦ elim (Option-cases found) [
        | inr (prev, e') ↦
            rw (e, e', drain_file)
              (read_on-ends n fuel o w file quiet enough enough_waves l.ranged _ _ [] (λ waves.
                subst IsPlaced
                  (sym (resume-prev file true prev _ _ (reads_in_waves_lem w file _ waves).1))
                  (placed prev (e ∙ ap ok e'))))
        | inl e' ↦ elim (start_for-cases start file) [
          | inl e'' ↦
              rw (e, e', e'', drain_file)
                (read_on-ends n fuel o w file quiet enough enough_waves l.ranged _ _ [] (λ waves.
                  subst IsPlaced
                    (sym (
                      resume-prev file false (from_beginning file) none mem
                        (reads_in_waves_lem w file _ waves).1))
                    (from_beginning-IsPlaced file)))
          | inr e'' ↦ rw (e, e', e'', drain_file) refl
        ]
      ]
    ]

module _ (o : Outside) (file : Bytes) (ckpt : Checkpoint) (hold : Bool) (d : Drain) (mem : Memory)
    (log : Journal) where
  -- A flush that fails, in the sink or in the store, leaves the restarts that are known and those
  -- that are handled as they were: what was pending stays pending.
  pub flush_failed-restarts :
      (e : Failure)
      → (flush o file ckpt hold d mem log).failure ≡ some e
      → (flush o file ckpt hold d mem log).memory.restarts ≡ mem.restarts
  flush_failed-restarts e failed = (flush-restarts o file ckpt hold d mem log).0 e failed

  -- When a flush ends a drain's recovery from a restart, that restart is handled for the file.
  pub flush_commits-restart :
      d.restarted ≡ true
      → (flush o file ckpt hold d mem log).drain.restarted ≡ false
      → d.restart_gen ≤ (flush o file ckpt hold d mem log).memory.restarts.handled_gen file
  flush_commits-restart was now = (flush-restarts o file ckpt hold d mem log).1 was now
