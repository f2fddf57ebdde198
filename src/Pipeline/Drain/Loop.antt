-- ===== src/Pipeline/Drain/Loop.antt =====
-- The pagination loop of drainFile.
use rdstail.Prelude.{
  ℕ, zero, suc, ◌+◌, ◌&&◌, ◌||◌, Bool, true, false, not, Option, none, some, ◌∷◌, leb, ltb, ◌==◌,
  length, if◌then◌else◌,
}
use rdstail.Record.{Checkpoint}
use rdstail.Failure.{Failure, ok, err}
use rdstail.Source.FileMeta.{FileMeta, last_written}
use rdstail.Source.Portion.{Chunk}
use rdstail.Pipeline.Delay.{note_progress}
use rdstail.Pipeline.Drain.{pulled, pull_failed, Journal, Outside, Settings, Memory, Drain}
use rdstail.Pipeline.Drain.Absorb.{absorb}
use rdstail.Pipeline.Drain.Flush.{Step, flush}

-- The checkpoint that a flush after the chunk would store.
abbrev pub checkpoint_after : FileMeta → Chunk → Drain → Checkpoint
checkpoint_after file chunk d = record {
  marker = chunk.next_marker;
  bytes_written = d.prev.bytes_written + d.pending_bytes;
  file_size = file.size;
  last_written = last_written file;
  skip_continuation = false;
}

-- Every threshold that is set counts; with none set each chunk is flushed.
unfoldable pub must_flush : Settings → Drain → Bool
must_flush w d =
    (ltb 0 w.max_batch_bytes && leb w.max_batch_bytes d.pending_bytes)
    || (ltb 0 w.max_batch_records && leb w.max_batch_records (length d.pending))
    || (w.max_batch_bytes == 0 && w.max_batch_records == 0)

abbrev pub is_ok : Option Failure → Bool
is_ok none = true
is_ok (some e) = false

-- noteProgress, at the end of a poll that succeeded
unfoldable pub end_poll : FileMeta → Checkpoint → Step → Step
unfolding note_progress last_written
end_poll file was s =
    if is_ok s.failure
    then record s {
      memory = record s.memory {
        stalls =
            (note_progress s.memory.stalls file.name (last_written file) was s.drain.prev
              s.drain.shipped).0;
      };
    }
    else s

-- What follows the pull of a chunk; true if the loop goes on.
unfoldable pub turn_chunk :
    Outside → Settings → FileMeta → Checkpoint → Chunk → Drain → Memory → Journal → Bool × Step
unfolding must_flush end_poll
turn_chunk o w file was chunk d mem log =
    if not chunk.additional_pending
    then (
      false,
      end_poll file was (flush o file.name (checkpoint_after file chunk d) false d mem log),
    )
    else if must_flush w d
    then (let s = flush o file.name (checkpoint_after file chunk d) w.groups_multiline d mem log in
        (is_ok s.failure, s))
    else (true, record { failure = none; drain = d; memory = mem; log = log })

abbrev absorbed_turn :
    Outside → Settings → FileMeta → Checkpoint → Chunk → Journal → Drain × Memory → Bool × Step
absorbed_turn o w file was chunk log (d, mem) = turn_chunk o w file was chunk d mem log

-- One round of the loop.
unfoldable pub turn :
    Outside → Settings → FileMeta → Checkpoint → Drain → Memory → Journal → Bool × Step
unfolding turn_chunk
turn o w file was d mem log = elim (o.cancelled log) [
  | some e ↦ (false, record { failure = some e; drain = d; memory = mem; log = log })
  | none ↦ elim (o.pull log file.name d.marker) [
    | err e ↦ (false, record { failure = some e; drain = d; memory = mem; log = pull_failed ∷ log })
    | ok chunk ↦
        let log' = pulled d.marker chunk ∷ log in
        absorbed_turn o w file was chunk log' (absorb o w file.name (o.now log') chunk d mem)
  ]
]

-- The loop, for at most so many rounds; true if more are needed.
unfoldable pub drain_loop :
    ℕ → Outside → Settings → FileMeta → Checkpoint → Drain → Memory → Journal → Bool × Step
drain_loop zero o w file was d mem log =
    (true, record { failure = none; drain = d; memory = mem; log = log })
drain_loop (suc fuel) o w file was d mem log =
    let (more, s) = turn o w file was d mem log in
    let rest = drain_loop fuel o w file was s.drain s.memory s.log in
    if more then rest else (false, s)
