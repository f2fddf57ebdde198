-- ===== src/Pipeline/Drain/Absorb.antt =====
-- The part of the loop's body from a pulled chunk to the batch that is pending.
use rdstail.Prelude.{
  is_empty, ℕ, ◌+◌, ◌&&◌, Bool, true, false, not, Option, none, some, List, [], ◌∷◌, ◌++◌, Bytes,
  map, same, ltb, leb, length, if◌then◌else◌,
}
use rdstail.Prelude.Int.{ℤ, pos, negsuc}
use rdstail.Record.{LogRecord, Time}
use rdstail.Source.Marker.{offset_marker}
use rdstail.Source.Lines.{join_continuation}
use rdstail.Source.Portion.{Chunk}
use rdstail.Pipeline.Ring.{ShippedRing, drop_already_shipped}
use rdstail.Pipeline.Restart.{note_server_start}
use rdstail.Pipeline.Errors.{Errors, drop_shipped_errors, is_error_running_log}
use rdstail.Pipeline.Drain.{Outside, Settings, Memory, Drain}

-- Records carry the chunk's marker and batch ID.
abbrev pub stamped : Chunk → LogRecord → LogRecord
stamped chunk r = record r { marker = chunk.next_marker; batch_id = chunk.batch_id }

unfoldable pub stamp : Chunk → List LogRecord
stamp chunk = map (stamped chunk) chunk.records

-- `recs`, `leading` and what de-duplication consumed
pub record Front : Type 0 where
  pub recs : List LogRecord
  pub leading : Bool
  pub drop_first : Bool
  pub consumed : ℕ → ℕ

-- Rewound mid-file, the first line may be partial.
unfoldable pub drop_partial : Front → Front
drop_partial f = elim f.recs [
  | [] ↦ f
  | r ∷ recs ↦
      if f.drop_first then record f { recs = recs; leading = false; drop_first = false } else f
]

-- len(kept) == 0 || kept[0].Message != recs[0].Message
abbrev first_differs : List LogRecord → List LogRecord → Bool
first_differs (k ∷ kept) (r ∷ recs) = not (same k.message r.message)
first_differs kept recs = true

abbrev deduped : Front → List LogRecord × (ℕ → ℕ) → Front
deduped f (kept, consumed) =
    if ltb (length kept) (length f.recs)
    then record f {
      recs = kept;
      leading = if first_differs kept f.recs then false else f.leading;
      consumed = consumed;
    }
    else record f { consumed = consumed }

module _ (error_key : Bytes → ℕ) where
  unfoldable pub dedupe_front : Bool → Option ShippedRing → Front → Front
  unfolding drop_already_shipped same
  dedupe_front dedupe ring f =
      if dedupe then deduped f (drop_already_shipped error_key ring f.recs f.consumed) else f

  unfoldable pub dedupe_running : Bytes → Time → Front → Errors → Front × Errors
  unfolding drop_shipped_errors is_error_running_log
  dedupe_running file now f e =
      let (kept, first_dropped, e') = drop_shipped_errors error_key now f.recs e in
      if is_error_running_log file
      then (record f { recs = kept; leading = f.leading && not first_dropped }, e')
      else (f, e)

-- pending[len(pending)-1] joined with a leading continuation, where that fits
unfoldable pub join_last : LogRecord → List LogRecord → Option (List LogRecord)
unfolding join_continuation
join_last next [] = none
join_last next (r ∷ []) = elim (join_continuation r next) [
  | none ↦ none
  | some joined ↦ some (joined ∷ [])
]
join_last next (r ∷ r' ∷ rs) = elim (join_last next (r' ∷ rs)) [
  | none ↦ none
  | some rest ↦ some (r ∷ rest)
]

pub record Lead : Type 0 where
  pub pending : List LogRecord
  pub recs : List LogRecord
  pub absorbed : Bool

-- The chunk's first record continues an entry: it is dropped if it was shipped with its entry before
-- the last checkpoint, or joined onto the newest pending record.
unfoldable pub absorb_lead : Bool → Bool → List LogRecord → List LogRecord → Lead
unfolding join_last
absorb_lead skip_leading leading pending [] = record {
  pending = pending;
  recs = [];
  absorbed = false;
}
absorb_lead skip_leading leading pending (r ∷ recs) =
    if leading
    then (if skip_leading && is_empty pending
        then record { pending = pending; recs = recs; absorbed = true }
        else (elim (join_last r pending) [
          | none ↦ record { pending = pending; recs = r ∷ recs; absorbed = false }
          | some joined ↦ record { pending = joined; recs = recs; absorbed = true }
        ]))
    else record { pending = pending; recs = r ∷ recs; absorbed = false }

-- dedupeUntil >= 0 && off >= dedupeUntil
abbrev reached : ℤ → ℤ → Bool
reached (pos o) (pos u) = leb u o
reached (negsuc o) (pos u) = false
reached off (negsuc u) = false

abbrev past : Option (Bytes × ℤ) → ℤ → Bool
past none until = false
past (some (_, off)) until = reached off until

unfoldable pub still_dedupe : Bool → Bytes → ℤ → Bool
unfolding offset_marker
still_dedupe dedupe marker until = dedupe && not (past (offset_marker marker) until)

-- The chunk's records after the three filters, and the memory of errors after them.
unfoldable pub front_of : Outside → Bytes → Time → Chunk → Drain → Memory → Front × Errors
unfolding stamp drop_partial dedupe_front dedupe_running
front_of o file now chunk d mem =
    dedupe_running o.error_key file now
      (dedupe_front o.error_key d.dedupe (mem.shipped file) (
        drop_partial (record {
          recs = stamp chunk;
          leading = chunk.leading_continuation;
          drop_first = d.drop_first;
          consumed = d.consumed;
        })))
      mem.errors

-- The rest of the body, up to the flush.
unfoldable pub take_front : Chunk → Front → Drain → Drain
unfolding absorb_lead still_dedupe
take_front chunk f d =
    let lead = absorb_lead d.skip_leading f.leading d.pending f.recs in
    record d {
      marker = chunk.next_marker;
      pending = lead.pending ++ lead.recs;
      pending_bytes = d.pending_bytes + chunk.bytes;
      last_start = if is_empty lead.recs then d.last_start else d.marker;
      last_start_skip = if is_empty lead.recs then d.last_start_skip else lead.absorbed;
      skip_leading = false;
      dedupe = still_dedupe d.dedupe chunk.next_marker d.dedupe_until;
      drop_first = f.drop_first;
      consumed = f.consumed;
    }

-- A chunk that was pulled at d.marker joins the batch; a startup banner in it is noted.
unfoldable pub absorb : Outside → Settings → Bytes → Time → Chunk → Drain → Memory → Drain × Memory
unfolding front_of take_front
absorb o w file now chunk d mem =
    let (f, errors) = front_of o file now chunk d mem in
    let lead = absorb_lead d.skip_leading f.leading d.pending f.recs in
    (
      take_front chunk f d,
      record mem {
        errors = errors;
        restarts = note_server_start o.server_ready w.started w.horizon lead.recs mem.restarts;
      },
    )
