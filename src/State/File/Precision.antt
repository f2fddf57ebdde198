-- ===== src/State/File/Precision.antt =====
-- What an entry of the file backend keeps of a checkpoint.
use rdstail.Prelude.{ℕ, ◌≡◌, ◌∙◌, refl, sym, ap, arith, Bool-cases, inl, inr, ◌==◌}
use rdstail.Prelude.Int.{pos}
use rdstail.Record.{Checkpoint, Time}
use rdstail.Source.FileMeta.{FileMeta, last_written, unix_milli}
use rdstail.State.{to_unix_milli, entry_of, checkpoint_of, time_of}

to_unix_milli-unix_milli : (ms : ℕ) → to_unix_milli (unix_milli ms) ≡ pos ms
unfolding to_unix_milli
to_unix_milli-unix_milli ms = ground arith

time_of-never : time_of (to_unix_milli 0) ≡ 0
unfolding to_unix_milli
time_of-never = refl

time_of-last_written :
    (file : FileMeta) → time_of (to_unix_milli (last_written file)) ≡ last_written file
unfolding last_written
time_of-last_written file = elim (Bool-cases (file.last_written_ms == 0)) [
  | inl zero' ↦ rw zero' time_of-never
  | inr some' ↦ rw (some', to_unix_milli-unix_milli file.last_written_ms) (ground (arith, some'))
]

-- A checkpoint whose time is when the log file was last written, as RDS reports it, is read from the
-- file store as it was set.
pub checkpoint_of-entry_of :
    (c : Checkpoint) (file : FileMeta)
    → c.last_written ≡ last_written file
    → checkpoint_of (entry_of c) ≡ c
unfolding checkpoint_of entry_of
checkpoint_of-entry_of c file h =
    ap (λ (t : Time). record c { last_written = t })
      (ap (λ t. time_of (to_unix_milli t)) h ∙ time_of-last_written file ∙ sym h)
