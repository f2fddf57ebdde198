-- ===== src/Pipeline/Drain/File/Chained.antt =====
-- Where the reads of drainFile begin.
use rdstail.Prelude.{
  ℕ, ◌≡◌, refl, ◌∙◌, Bool, true, false, inl, inr, Option, none, some, [], Bytes, arith, Bool-cases,
  Option-cases,
}
use rdstail.Record.{Checkpoint, Time}
use rdstail.Failure.{Failure, Result, ok, err, Result-cases}
use rdstail.Source.FileMeta.{FileMeta}
use rdstail.Source.Marker.{marker_beginning}
use rdstail.Pipeline.Drain.{Journal, Outside, Settings, Memory, Drain}
use rdstail.Pipeline.Drain.Chained.{drain_loop-IsChained}
use rdstail.Pipeline.Drain.Journal.{reached, IsChained}
use rdstail.Pipeline.Drain.ReadOn.{reads_in_waves, behind_waves, after_waves, read_on}
use rdstail.Pipeline.Drain.File.{
  Start, Lookups, restart_for, resume, skip_file, from_beginning, drain_file,
}
use rdstail.Pipeline.Drain.File.Outcome.{start_for-cases}
use rdstail.Pipeline.Parallel.{Ranged, Waves, returned, parallel_drain}
use rdstail.Pipeline.Parallel.Chained.{LeavesChained, parallel_drain-LeavesChained}

module _ (fuel : ℕ) (o : Outside) (w : Settings) (file : FileMeta) (start : Bytes) where
  after_waves-IsChained :
      (d : Drain) (mem : Memory) (log : Journal) (r : Option (Option Failure × Waves))
      → IsChained start log
      → ((f : Option Failure) (q : Waves) → r ≡ some (f, q) → LeavesChained start (returned f q))
      → IsChained start (after_waves fuel o w file d mem log r).1.log
  after_waves-IsChained d mem log none chained left = chained
  after_waves-IsChained d mem log (some (some e, q)) chained left = left (some e) q refl
  after_waves-IsChained d mem log (some (none, q)) chained left =
      let (chained', here) = left none q refl in
      drain_loop-IsChained o w file d.prev start fuel (behind_waves q d) q.memory q.log chained'
        here

  read_on-IsChained :
      (x : Ranged) (d : Drain) (mem : Memory) (log : Journal)
      → IsChained start log
      → d.marker ≡ reached start log
      → d.prev.marker ≡ d.marker
      → IsChained start (read_on fuel o w x file d mem log).1.log
  unfolding read_on
  read_on-IsChained x d mem log chained here same' = elim (Bool-cases (reads_in_waves w file d)) [
    | inr chunks ↦
        rw chunks (drain_loop-IsChained o w file d.prev start fuel d mem log chained here)
    | inl waves ↦ rw waves (
        after_waves-IsChained d mem log
          (parallel_drain fuel o x w file w.parallel_reads d.prev mem log) chained
          (λ f q.
            parallel_drain-LeavesChained fuel o x w file w.parallel_reads d.prev mem log f q start
              chained (same' ∙ here)))
  ]

resume-marker :
    (file : FileMeta) (found : Bool) (prev : Checkpoint) (restart : Option (Time × ℕ))
    (mem : Memory)
    → (resume file found prev restart mem).prev.marker ≡ (resume file found prev restart mem).marker
unfolding resume
resume-marker file found prev none mem = ground arith
resume-marker file found prev (some r) mem = ground arith

resume-start :
    (file : FileMeta) (mem : Memory)
    → (resume file false (from_beginning file) none mem).marker ≡ marker_beginning
unfolding resume
resume-start file mem = refl

-- Where drainFile begins to read: where it resumes from the stored checkpoint, rewound if it recovers,
-- or the beginning of a new file.
abbrev pub begins_at : Result (Option Checkpoint) → FileMeta → Memory → Bytes
begins_at (ok (some prev)) file mem =
    (resume file true prev (restart_for file mem).0 (restart_for file mem).1).marker
begins_at (ok none) file mem = marker_beginning
begins_at (err e) file mem = marker_beginning

skip_file-IsChained :
    (o : Outside) (file : FileMeta) (tail : Result Bytes) (d : Drain) (mem : Memory) (start : Bytes)
    → IsChained start (skip_file o file tail d mem []).log
unfolding skip_file
skip_file-IsChained o file (err e) d mem start = tt
skip_file-IsChained o file (ok tail) d mem start = ground arith

-- The reads of drainFile follow on each other. For every file, in a recovery or not,
-- whatever the API, the ranges, the sink, the store and the context answer, and whether it fails or
-- not: the first chunk or wave is read at the marker that drainFile resumes from, or at the beginning of
-- a new file, and every later one exactly at the marker where the one before it ended.
pub drain_file-IsChained :
    (fuel : ℕ) (o : Outside) (w : Settings) (start : Start) (l : Lookups) (file : FileMeta)
    (mem : Memory)
    → IsChained
        (begins_at (l.get file.name) file mem)
        (drain_file fuel o w start l file mem []).1.log
unfolding drain_file
drain_file-IsChained fuel o w start l file mem = elim (Result-cases (l.get file.name)) [
  | inr (e, failed) ↦ rw (failed, drain_file, begins_at) tt
  | inl (found, e) ↦ elim (Option-cases found) [
    | inr (prev, e') ↦
        rw (e, e', drain_file, begins_at)
          (read_on-IsChained fuel o w file _ l.ranged _ _ [] tt refl
            (resume-marker file true prev _ _))
    | inl e' ↦ elim (start_for-cases start file) [
      | inl e'' ↦
          rw (e, e', e'', drain_file, begins_at)
            (read_on-IsChained fuel o w file _ l.ranged _ _ [] tt (resume-start file mem)
              (resume-marker file false (from_beginning file) none mem))
      | inr e'' ↦
          rw (e, e', e'', drain_file, begins_at)
            (skip_file-IsChained o file _ _ mem marker_beginning)
    ]
  ]
]
