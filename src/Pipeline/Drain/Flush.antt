-- ===== src/Pipeline/Drain/Flush.antt =====
-- The closure `flush` of drainFile: ship what is pending, then store the checkpoint.
use rdstail.Prelude.{
  is_empty, ◌+◌, ◌&&◌, Bool, false, not, Option, none, some, List, [], ◌∷◌, ◌++◌, Bytes, same,
  length, init, last, update, if◌then◌else◌,
}
use rdstail.Record.{LogRecord, Checkpoint}
use rdstail.Failure.{Failure}
use rdstail.Pipeline.Ring.{ShippedRing, empty_ring, remember_shipped}
use rdstail.Pipeline.Restart.{mark_restart_handled}
use rdstail.Pipeline.Marks.{record_mark}
use rdstail.Pipeline.Errors.{remember_errors, is_error_log}
use rdstail.Pipeline.Drain.{
  delivered, stored, write_failed, store_failed, Journal, Outside, Memory, Drain,
}

-- The batch to ship, the record held back, and the checkpoint for the two.
pub record Held : Type 0 where
  pub batch : List LogRecord
  pub carry : List LogRecord
  pub ckpt : Checkpoint

unfoldable pub hold_back : Drain → Checkpoint → Bool → Held
hold_back d ckpt hold =
    if hold && not (is_empty d.pending)
    then record {
      batch = init d.pending;
      carry = last d.pending;
      ckpt = record ckpt { marker = d.last_start; skip_continuation = d.last_start_skip };
    }
    else record { batch = d.pending; carry = []; ckpt = ckpt }

abbrev ring_or_empty : Option ShippedRing → ShippedRing
ring_or_empty none = empty_ring
ring_or_empty (some r) = r

-- What the worker remembers of a batch that was acknowledged.
unfoldable pub remember : Outside → Bytes → Journal → List LogRecord → Memory → Memory
unfolding remember_shipped
remember o file log batch mem = record mem {
  errors =
      if is_error_log file
      then remember_errors o.error_key (o.now log) batch mem.errors
      else mem.errors;
  shipped =
      update mem.shipped file
        (some (remember_shipped o.error_key (ring_or_empty (mem.shipped file)) batch));
}

-- The loop's variables, the memory and the journal, with the error that was returned.
pub record Step : Type 0 where
  pub failure : Option Failure
  pub drain : Drain
  pub memory : Memory
  pub log : Journal

abbrev put_back : Drain → Held → Drain
put_back d h = record d { pending = h.batch ++ h.carry }

-- if len(pending) > 0 { sink.Write … }
unfoldable pub ship_batch : Outside → Bytes → Held → Drain → Memory → Journal → Step
unfolding remember
ship_batch o file h d mem log =
    if is_empty h.batch
    then record { failure = none; drain = record d { pending = h.carry }; memory = mem; log = log }
    else (elim (o.write log h.batch) [
      | some e ↦ record {
        failure = some e;
        drain = put_back d h;
        memory = mem;
        log = write_failed ∷ log;
      }
      | none ↦ record {
        failure = none;
        drain = record d {
          pending = h.carry;
          shipped = d.shipped + length h.batch;
          pending_bytes = 0;
        };
        memory = remember o file (delivered h.batch ∷ log) h.batch mem;
        log = delivered h.batch ∷ log;
      }
    ])

-- commitRestart, with recordMark before it
unfoldable pub commit : Outside → Bytes → Journal → Checkpoint → Drain → Memory → Memory
unfolding record_mark
commit o file log ckpt d mem = record mem {
  marks = update mem.marks file (record_mark (o.now log) ckpt.marker (mem.marks file));
  restarts =
      if d.restarted then mark_restart_handled file d.restart_gen mem.restarts else mem.restarts;
}

-- store.Set, unless there is nothing durable to advance past yet
unfoldable pub store_ckpt : Outside → Bytes → Held → Drain → Memory → Journal → Step
unfolding commit
store_ckpt o file h d mem log =
    if same h.ckpt.marker d.prev.marker && not (is_empty h.carry)
    then record { failure = none; drain = d; memory = mem; log = log }
    else (elim (o.set log file h.ckpt) [
      | some e ↦ record { failure = some e; drain = d; memory = mem; log = store_failed ∷ log }
      | none ↦ record {
        failure = none;
        drain = record d { prev = h.ckpt; restarted = false };
        memory = commit o file (stored h.ckpt ∷ log) h.ckpt d mem;
        log = stored h.ckpt ∷ log;
      }
    ])

abbrev pub then_store : Outside → Bytes → Held → Step → Step
then_store o file h s = elim s.failure [
  | some e ↦ s
  | none ↦ store_ckpt o file h s.drain s.memory s.log
]

unfoldable pub flush : Outside → Bytes → Checkpoint → Bool → Drain → Memory → Journal → Step
unfolding hold_back ship_batch store_ckpt
flush o file ckpt hold d mem log =
    let h = hold_back d ckpt hold in then_store o file h (ship_batch o file h d mem log)
