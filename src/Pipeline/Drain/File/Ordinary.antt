-- ===== src/Pipeline/Drain/File/Ordinary.antt =====
-- drainFile of a file with no restart to recover from, and which files start at their end.
use rdstail.Prelude.{
  ℕ, ◌≤◌, ◌≡◌, ◌≢◌, ◌⊎◌, refl, Bool, true, false, inl, inr, none, some, [], Bytes, arith,
  Bool-cases, Option-cases, ◌∙◌, Option, List, ◌++◌, append-nil, ap,
}
use rdstail.Record.{LogRecord, Checkpoint, text}
use rdstail.Prelude.Int.{negsuc}
use rdstail.Failure.{Failure, ok}
use rdstail.Source.FileMeta.{FileMeta, last_written}
use rdstail.Pipeline.Restart.Pending.{mark_restart_handled_mono}
use rdstail.Pipeline.Errors.{is_error_running_log}
use rdstail.Pipeline.Drain.{Journal, Outside, Settings, Memory, Drain, start_at}
use rdstail.Pipeline.Drain.Absorbed.{IsPlain, Inv}
use rdstail.Pipeline.Drain.Flush.{Step, store_ckpt, flush, ship_batch, then_store, hold_back, Held}
use rdstail.Pipeline.Drain.Journal.{pulled_text, delivered_text, AllSafe}
use rdstail.Pipeline.Drain.Safety.{drain_loop-safe}
use rdstail.Pipeline.Parallel.{Ranged, Waves, returned, parallel_drain}
use rdstail.Pipeline.Parallel.Journaled.{IsSettled, LeavesSettled, parallel_drain-LeavesSettled}
use rdstail.Pipeline.Drain.ReadOn.{reads_in_waves, behind_waves, after_waves, read_on}
use rdstail.Pipeline.Drain.File.{
  Start, beginning, end, start_for, Lookups, restart_for, resume, drain_file,
}

-- The file is read from a checkpoint that needs no recovery, or is new and starts at its beginning.
abbrev pub Begins : Start → Lookups → FileMeta → Memory → Type 0
Begins start l file mem =
    ((l.get file.name ≡ ok none) × (start_for start file ≡ beginning))
    ⊎ ((prev : Checkpoint) × (l.get file.name ≡ ok (some prev))
        × (prev.skip_continuation ≡ false)
        × (prev.file_size ≤ file.size)
        × ((restart_for file mem).0 ≡ none))

plain-Inv : (d : Drain) (log : Journal) → IsPlain d → d.pending ≡ [] → IsSettled log → Inv d log
plain-Inv d log p e settled = record {
  plain = p;
  conserved =
      ap (λ (rs : List LogRecord). delivered_text log ++ text rs) e
      ∙ append-nil (delivered_text log)
      ∙ settled.1;
  begun = λ some'. absurd (ground (arith, some', e));
  safe = settled.0;
}

-- With no restart pending, a file that did not shrink is read on from its checkpoint.
resume-whole :
    (file : FileMeta) (prev : Checkpoint) (mem : Memory)
    → prev.file_size ≤ file.size
    → resume file true prev none mem ≡ start_at prev false false (negsuc 0) false 0
unfolding resume
resume-whole file prev mem grown = ground (arith, grown)

resume-new :
    (file : FileMeta) (prev : Checkpoint) (mem : Memory)
    → resume file false prev none mem ≡ start_at prev false false (negsuc 0) false 0
unfolding resume
resume-new file prev mem = refl

-- Every checkpoint stored was safe, and a return without an error means that the sink acknowledged
-- exactly the text that was read.
abbrev pub IsDelivered : Bool × Step → Type 0
IsDelivered (more, s) =
    AllSafe s.log × (more ≡ false → s.failure ≡ none → delivered_text s.log ≡ pulled_text s.log)

-- After the waves the loop starts with nothing pending and goes on from where they ended.
after_waves-IsDelivered :
    (fuel : ℕ) (o : Outside) (w : Settings) (file : FileMeta) (d : Drain) (mem : Memory)
    (log : Journal) (r : Option (Option Failure × Waves))
    → is_error_running_log file.name ≡ false
    → IsPlain d
    → d.pending ≡ []
    → IsSettled log
    → ((f : Option Failure) (q : Waves) → r ≡ some (f, q) → LeavesSettled (returned f q))
    → IsDelivered (after_waves fuel o w file d mem log r)
after_waves-IsDelivered fuel o w file d mem log none ordinary p e settled left =
    (settled.0, λ more. cc)
after_waves-IsDelivered fuel o w file d mem log (some (some e', q)) ordinary p e settled left =
    ((left (some e') q refl).0, λ _ fine. cc)
after_waves-IsDelivered fuel o w file d mem log (some (none, q)) ordinary p e settled left =
    elim (left none q refl).1 [
      | inl (e', bad) ↦ cc
      | inr settled' ↦
          drain_loop-safe o w file d.prev ordinary fuel (behind_waves q d) q.memory q.log (
            plain-Inv (behind_waves q d) q.log
              (record {
                dedupe = p.dedupe;
                drop_first = p.drop_first;
                skip_leading = p.skip_leading;
              })
              e settled')
    ]

read_on-IsDelivered :
    (fuel : ℕ) (o : Outside) (w : Settings) (x : Ranged) (file : FileMeta) (d : Drain)
    (mem : Memory) (log : Journal)
    → is_error_running_log file.name ≡ false
    → IsPlain d
    → d.pending ≡ []
    → IsSettled log
    → IsDelivered (read_on fuel o w x file d mem log)
unfolding read_on
read_on-IsDelivered fuel o w x file d mem log ordinary p e settled =
    elim (Bool-cases (reads_in_waves w file d)) [
      | inr chunks ↦
          rw chunks
            (drain_loop-safe o w file d.prev ordinary fuel d mem log (plain-Inv d log p e settled))
      | inl waves ↦ rw waves (
          after_waves-IsDelivered fuel o w file d mem log
            (parallel_drain fuel o x w file w.parallel_reads d.prev mem log) ordinary p e settled
            (λ f q.
              parallel_drain-LeavesSettled fuel o x w file w.parallel_reads d.prev mem log f q
                settled))
    ]

module _ (fuel : ℕ) (o : Outside) (w : Settings) (start : Start) (l : Lookups) (file : FileMeta)
    (mem : Memory) where
  -- For every file but the running error log, read from a checkpoint that needs no recovery or new
  -- and from its beginning, and whatever the API, the sink, the store and the context answer, after
  -- any number of waves and chunks: whenever a checkpoint was stored, all text read so far had been delivered
  -- in order and once but for the held-back rest, which the stored marker reads again; and if
  -- drainFile returned no error, the text delivered is exactly the text read.
  pub drain_file-IsDelivered :
      is_error_running_log file.name ≡ false
      → Begins start l file mem
      → IsDelivered (drain_file fuel o w start l file mem [])
  unfolding drain_file
  drain_file-IsDelivered ordinary (inl (new, from_start)) =
      rw (new, drain_file, from_start)
        (rw (resume-new file _ mem) (
          read_on-IsDelivered fuel o w l.ranged file _ mem [] ordinary
            (record { dedupe = refl; drop_first = refl; skip_leading = refl }) refl (tt, refl)))
  drain_file-IsDelivered ordinary (inr (prev, found, skip, grown, settled)) =
      rw (found, drain_file, settled)
        (rw (resume-whole file prev (restart_for file mem).1 grown) (
          read_on-IsDelivered fuel o w l.ranged file _ _ [] ordinary
            (record { dedupe = refl; drop_first = refl; skip_leading = skip }) refl (tt, refl)))

start_for-initial :
    (start : Start) (file : FileMeta)
    → start_for start file ≡ end
    → (start.initial_files file.name ≡ true)
      ⊎ ((start.horizon ≢ 0) × (last_written file ≢ 0) × (last_written file ≤ start.horizon))
unfolding start_for
start_for-initial start file h = elim (Bool-cases (start.initial_files file.name)) [
  | inl there ↦ inl there
  | inr new ↦ inr (ground (arith, new, h), ground (arith, new, h), ground (arith, new, h))
]

-- A file starts at its end only if that is configured and the file was there when the instance was
-- first discovered, or was last written no later than the newest checkpoint: data written since is
-- never skipped.
pub start_for-end :
    (start : Start) (file : FileMeta)
    → start_for start file ≡ end
    → (start.start_from ≡ end)
      × ((start.initial_files file.name ≡ true)
          ⊎ ((start.horizon ≢ 0) × (last_written file ≢ 0) × (last_written file ≤ start.horizon)))
unfolding start_for
start_for-end start file h = (ground (arith, h), start_for-initial start file h)

module _ (o : Outside) (file : Bytes) (h : Held) where
  ship_batch-restarts :
      (d : Drain) (mem : Memory) (log : Journal)
      → ((ship_batch o file h d mem log).memory.restarts ≡ mem.restarts)
        × ((ship_batch o file h d mem log).drain.restarted ≡ d.restarted)
        × ((ship_batch o file h d mem log).drain.restart_gen ≡ d.restart_gen)
  unfolding ship_batch
  ship_batch-restarts d mem log = ground arith

  store_ckpt-restarts :
      (d : Drain) (mem : Memory) (log : Journal)
      → ((e : Failure)
          → (store_ckpt o file h d mem log).failure ≡ some e
          → (store_ckpt o file h d mem log).memory.restarts ≡ mem.restarts)
        × (d.restarted ≡ true
            → (store_ckpt o file h d mem log).drain.restarted ≡ false
            → d.restart_gen ≤ (store_ckpt o file h d mem log).memory.restarts.handled_gen file)
  unfolding store_ckpt
  store_ckpt-restarts d mem log = (
    λ e failed. ground (arith, failed),
    λ was now.
        ground (arith, was, now, mark_restart_handled_mono mem.restarts file file d.restart_gen),
  )

-- A restart stays pending until the rewound position is durable: when a flush fails, no file's
-- state of recovery has changed; when it stores a checkpoint, the restart that this drain recovers
-- from is handled for the file, and the drain does not commit it again.
pub flush-restarts :
    (o : Outside) (file : Bytes) (ckpt : Checkpoint) (hold : Bool) (d : Drain) (mem : Memory)
    (log : Journal)
    → ((e : Failure)
        → (flush o file ckpt hold d mem log).failure ≡ some e
        → (flush o file ckpt hold d mem log).memory.restarts ≡ mem.restarts)
      × (d.restarted ≡ true
          → (flush o file ckpt hold d mem log).drain.restarted ≡ false
          → d.restart_gen ≤ (flush o file ckpt hold d mem log).memory.restarts.handled_gen file)
unfolding flush
flush-restarts o file ckpt hold d mem log =
    let h = hold_back d ckpt hold in
    let s = ship_batch o file h d mem log in
    let (kept, flag, gen) = ship_batch-restarts o file h d mem log in
    let (fails, commits) = store_ckpt-restarts o file h s.drain s.memory s.log in
    elim (Option-cases s.failure) [
      | inr (e, failed) ↦
          rw (failed, then_store) (λ e' _. kept, λ was now. absurd (ground (arith, was, now, flag)))
      | inl fine ↦
          rw (fine, then_store)
            (
              λ e failed. fails e failed ∙ kept,
              λ was now. omega (arith, gen, commits (flag ∙ was) now),
            )
    ]
