-- ===== src/Pipeline/Parallel.antt =====
-- internal/pipeline/worker.go: parallelDrain, which reads a large backlog of one file in waves of
-- concurrent reads of ranges. The reads of a wave change nothing, so each sees what was shipped and
-- stored before the wave, whatever their order.
pub mod Alike
pub mod Chained
pub mod Cutting
pub mod Ends
pub mod Journaled
pub mod Lines
pub mod Pieces
pub mod Safety
pub mod Tracking
use rdstail.Prelude.{
  ℕ, zero, suc, ◌+◌, ◌-◌, ◌*◌, ◌/◌, ◌^◌, ◌&&◌, ◌==◌, Bool, true, false, not, Option, none, some,
  List, [], ◌∷◌, ◌++◌, Bytes, map, length, init, last, is_empty, ltb, leb, update, if◌then◌else◌,
}
use rdstail.Prelude.Int.{ℤ, pos, negsuc}
use rdstail.Record.{LogRecord, Checkpoint, text}
use rdstail.Failure.{Failure, Result, ok, err, has_cause, range_unsupported}
use rdstail.Source.FileMeta.{FileMeta, last_written}
use rdstail.Source.Marker.{offset_marker, make_marker}
use rdstail.Source.Lines.{LineContext, parse_records}
use rdstail.Source.Truncation.{has_suffix}
use rdstail.Source.Portion.{batch_id}
use rdstail.Pipeline.Ring.{ShippedRing, empty_ring, remember_shipped}
use rdstail.Pipeline.Restart.{note_server_start}
use rdstail.Pipeline.Marks.{record_mark}
use rdstail.Pipeline.Drain.{
  read_wave, delivered, stored, write_failed, store_failed, Journal, Outside, Settings, Memory,
}

-- parallelSegment
abbrev pub parallel_segment : ℕ
parallel_segment = 2 * 2 ^ 20

-- What of the fetcher a wave uses: ReadRange, and what Records reads, the clock included.
pub record Ranged : Type 0 where
  pub read_range : Journal → ℕ → Option ℕ → Bool → Result (Bytes × ℕ)
  pub context : Journal → LineContext
  pub sha256 : Bytes → Bytes

-- The arguments of a ReadRange: start, end (`none` reads to the end of the file) and lineStart.
pub record Range : Type 0 where
  pub start : ℕ
  pub end : Option ℕ
  pub line_start : Bool

-- The loop that starts the reads of a wave, from the i-th on, with so many left.
unfoldable pub wave_ranges : Bool → ℕ → ℕ → ℕ → ℕ → List Range
wave_ranges last size off i zero = []
wave_ranges last size off i (suc left) =
    let start = off + i * parallel_segment in
    let end = start + parallel_segment in
    let rest = wave_ranges last size off (i + 1) left in
    if leb size start
    then rest
    else if last && (if left == 0 then true else leb size end)
    then record { start = start; end = none; line_start = i == 0 } ∷ []
    else record { start = start; end = some end; line_start = i == 0 } ∷ rest

abbrev pub read_one : Ranged → Journal → Range → Result (Bytes × ℕ)
read_one x log r = x.read_range log r.start r.end r.line_start

-- The text of a wave and where it ends; or its ranges do not tile, or cannot be read exactly; or a read
-- failed.
pub data Tiled : Type 0 where
  tiled : Bytes → ℕ → Tiled
  untiled : Tiled
  unread : Failure → Tiled

-- The loop that verifies that the ranges tile, from the texts so far and where they end.
unfoldable pub join_tiles : Bytes → ℕ → List (Result (Bytes × ℕ)) → Tiled
unfolding has_cause
join_tiles joined at [] = tiled joined at
join_tiles joined at (err e ∷ answers) = if has_cause range_unsupported e then untiled else unread e
join_tiles joined at (ok (t, stop) ∷ answers) =
    let rest = join_tiles (joined ++ t) stop answers in
    if at + length t == stop then rest else untiled

-- The records to ship and where the wave ends: but in the last wave the last record is held back. `none`
-- if that cannot be done.
unfoldable pub cut_wave : Bool → Bytes → ℕ → List LogRecord → Option (List LogRecord × ℕ)
unfolding has_suffix
cut_wave true joined at recs = some (recs, at)
cut_wave false joined at recs =
    let tail = text (last recs) in
    if ltb (length recs) 2
    then none
    else if has_suffix joined tail
    then some (init recs, at - length tail)
    else none

-- The variables of parallelDrain, with the memory and the journal.
pub record Waves : Type 0 where
  pub prev : Checkpoint
  pub off : ℕ
  pub shipped : ℕ
  pub memory : Memory
  pub log : Journal

-- What one round of the loop does: return, or go on.
pub data Round : Type 0 where
  returned : Option Failure → Waves → Round
  goes_on : Waves → Round

abbrev ring_or_empty : Option ShippedRing → ShippedRing
ring_or_empty none = empty_ring
ring_or_empty (some r) = r

abbrev pub stamp_wave : Bytes → Bytes → LogRecord → LogRecord
stamp_wave next batch r = record r { marker = next; batch_id = batch }

module _ (o : Outside) (x : Ranged) (w : Settings) (file : FileMeta) (prefix : Bytes)
    (reads : ℕ) where
  abbrev pub wave_ckpt : ℕ → Waves → Checkpoint
  wave_ckpt wave_end p = record {
    marker = make_marker prefix wave_end;
    bytes_written = p.prev.bytes_written + (wave_end - p.off);
    file_size = file.size;
    last_written = last_written file;
    skip_continuation = false;
  }

  -- store.Set and recordMark
  unfoldable pub store_wave : Bool → ℕ → Waves → Round
  unfolding record_mark last_written
  store_wave is_last wave_end p =
      let ckpt = wave_ckpt wave_end p in
      elim (o.set p.log file.name ckpt) [
        | some e ↦ returned (some e) (record p { log = store_failed ∷ p.log })
        | none ↦
            let mem = p.memory in
            let log' : Journal = stored ckpt ∷ p.log in
            let q : Waves = record {
              prev = ckpt;
              off = wave_end;
              shipped = p.shipped;
              memory = record mem {
                marks =
                    update mem.marks file.name
                      (record_mark (o.now log') ckpt.marker (mem.marks file.name));
              };
              log = log';
            } in
            if is_last then returned none q else goes_on q
      ]

  abbrev pub shipped_wave : List LogRecord → Waves → Waves
  shipped_wave recs p =
      let mem = p.memory in
      record p {
        shipped = p.shipped + length recs;
        memory = record mem {
          shipped =
              update mem.shipped file.name
                (some (remember_shipped o.error_key (ring_or_empty (mem.shipped file.name)) recs));
        };
        log = delivered recs ∷ p.log;
      }

  -- if len(recs) > 0 { sink.Write, rememberShipped }, and what follows
  unfoldable pub ship_wave : Bool → List LogRecord → ℕ → Waves → Round
  unfolding remember_shipped store_wave
  ship_wave is_last recs wave_end p =
      if is_empty recs then store_wave is_last wave_end p else (elim (o.write p.log recs) [
        | some e ↦ returned (some e) (record p { log = write_failed ∷ p.log })
        | none ↦ store_wave is_last wave_end (shipped_wave recs p)
      ])

  -- noteServerStart
  abbrev pub noted_wave : List LogRecord → ℕ → Waves → Waves
  noted_wave recs wave_end p =
      let mem = p.memory in
      record p {
        memory = record mem {
          restarts = note_server_start o.server_ready w.started w.horizon recs mem.restarts;
        };
        log = read_wave p.prev.marker (make_marker prefix wave_end) recs ∷ p.log;
      }

  -- The records with the marker where the wave ends and the ID of the batch.
  abbrev pub stamped_wave : List LogRecord → ℕ → Waves → List LogRecord
  stamped_wave recs wave_end p =
      let next = make_marker prefix wave_end in
      map
        (stamp_wave next
          (batch_id x.sha256 (x.context p.log).instance_id file.name p.prev.marker next))
        recs

  -- From the records to ship and where the wave ends.
  unfoldable pub take_wave : Bool → Option (List LogRecord × ℕ) → Waves → Round
  unfolding batch_id note_server_start ship_wave
  take_wave is_last none p = returned none p
  take_wave is_last (some (recs, wave_end)) p =
      let stamped = stamped_wave recs wave_end p in
      if leb wave_end p.off
      then returned none p
      else ship_wave is_last stamped wave_end (noted_wave stamped wave_end p)

  unfoldable pub wave : Waves → Round
  unfolding wave_ranges join_tiles cut_wave take_wave parse_records
  wave p =
      let is_last = leb file.size (p.off + reads * parallel_segment) in
      let ranges = wave_ranges is_last file.size p.off 0 reads in
      elim (join_tiles [] p.off (map (read_one x p.log) ranges)) [
        | unread e ↦ returned (some e) p
        | untiled ↦ returned none p
        | tiled joined at ↦
            take_wave is_last
              (cut_wave is_last joined at (parse_records (x.context p.log) file.name joined).0) p
      ]

  -- The loop, for at most so many rounds: `none` if more are needed.
  unfoldable pub drain_waves : ℕ → Waves → Option (Option Failure × Waves)
  unfolding wave
  drain_waves zero p = none
  drain_waves (suc n) p =
      if leb (p.off + reads * parallel_segment / 2) file.size
      then (elim (o.cancelled p.log) [
        | some e ↦ some (some e, p)
        | none ↦ elim (wave p) [ returned e q ↦ some (e, q) | goes_on q ↦ drain_waves n q ]
      ])
      else some (none, p)

-- parallelDrain, from the checkpoint `prev`. A marker with a negative offset, which nothing makes, is
-- left out: `none`.
unfoldable pub parallel_drain :
    ℕ
    → Outside
    → Ranged
    → Settings
    → FileMeta
    → ℕ
    → Checkpoint
    → Memory
    → Journal
    → Option (Option Failure × Waves)
unfolding drain_waves
parallel_drain n o x w file reads prev mem log =
    let start : ℕ → Waves =
      λ off. record { prev = prev; off = off; shipped = 0; memory = mem; log = log } in
    elim (offset_marker prev.marker) [
      | none ↦ some (none, start 0)
      | some (prefix, negsuc k) ↦ none
      | some (prefix, pos off) ↦ drain_waves o x w file prefix reads n (start off)
    ]
