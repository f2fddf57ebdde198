-- ===== src/Pipeline/Parallel/Safety.antt =====
-- That parallelDrain ships the file's lines in order and once, and stores no checkpoint ahead of them.
use rdstail.Prelude.{
  ℕ, ◌-◌, ◌≡◌, ◌⊎◌, refl, sym, ap, subst, ◌∙◌, Bool, true, Option, some, List, [], ◌∷◌, ◌++◌, Bytes,
  map, length-append, arith, append_assoc, if◌then◌else◌,
}
use rdstail.Record.{LogRecord, Checkpoint, text}
use rdstail.Failure.{Failure, ok}
use rdstail.Source.Marker.{make_marker}
use rdstail.Source.Ranges.Cutting.{IsOwned, IsRead, IsRead-append}
use rdstail.Pipeline.Drain.{read_wave, delivered, stored, write_failed, store_failed, Journal}
use rdstail.Pipeline.Drain.Journal.{delivered_text}
use rdstail.Pipeline.Parallel.{Ranged, Waves, stamp_wave}
use rdstail.Pipeline.Parallel.Lines.{no_blanks, starts_line-append, no_blanks-append}
use rdstail.Pipeline.Parallel.Cutting.{Spans}

-- ReadRange returns lines that the file owns in the range.
abbrev pub ReadsOwned : Bytes → Ranged → Type 0
ReadsOwned content x =
    (log : Journal) (start : ℕ) (end : Option ℕ) (line_start : Bool) (t : Bytes) (stop : ℕ)
    → x.read_range log start end line_start ≡ ok (t, stop)
    → IsOwned content (if line_start then start else start - 1) line_start end (t, stop)

-- What was delivered since `base` is the file's text from an offset up to another, without its empty
-- lines.
abbrev pub DeliveredUpTo : Bytes → ℕ → Journal → ℕ → Journal → Type 0
DeliveredUpTo content from base upto log =
    (seg : Bytes) × Spans content from seg upto
    × (delivered_text log ≡ delivered_text base ++ no_blanks true seg)

-- Each checkpoint that was stored since `base` stands right behind what was delivered by then.
pub data Ships (content prefix : Bytes) (from : ℕ) (base : Journal) : Journal → Type 0 where
  ships_base : Ships content prefix from base base
  ships_wave :
      {log : Journal} (marker next : Bytes) (recs : List LogRecord)
      → Ships content prefix from base log
      → Ships content prefix from base (read_wave marker next recs ∷ log)
  ships_batch :
      {log : Journal} (recs : List LogRecord)
      → Ships content prefix from base log
      → Ships content prefix from base (delivered recs ∷ log)
  ships_write_failed :
      {log : Journal}
      → Ships content prefix from base log
      → Ships content prefix from base (write_failed ∷ log)
  ships_store_failed :
      {log : Journal}
      → Ships content prefix from base log
      → Ships content prefix from base (store_failed ∷ log)
  ships_stored :
      {log : Journal} (c : Checkpoint) (at : ℕ)
      → c.marker ≡ make_marker prefix at
      → DeliveredUpTo content from base at log
      → Ships content prefix from base log
      → Ships content prefix from base (stored c ∷ log)

-- The variables say how far the file was delivered: up to `off`, where prev points.
pub record IsTracked (content prefix : Bytes) (from : ℕ) (prev : Checkpoint) (base : Journal)
    (p : Waves) : Type 0 where
  pub upto : DeliveredUpTo content from base p.off p.log
  pub ships : Ships content prefix from base p.log
  pub place : ((p.prev ≡ prev) × (p.off ≡ from)) ⊎ (p.prev.marker ≡ make_marker prefix p.off)

abbrev pub IsFailed : Option Failure → Type 0
IsFailed f = (e : Failure) × (f ≡ some e)

pub Spans-append :
    (content : Bytes) (from mid stop : ℕ) (a b : Bytes)
    → Spans content from a mid
    → Spans content mid b stop
    → Spans content from (a ++ b) stop
Spans-append content from mid stop a b (is_read, ends, lines) (is_read', ends', lines') = (
  IsRead-append content from a b is_read (subst (λ k. IsRead content k b) (sym ends) is_read'),
  omega (arith, ends, ends', length-append a b),
  starts_line-append true a b ∙ (rw lines lines'),
)

pub DeliveredUpTo-append :
    (content : Bytes) (from mid stop : ℕ) (base log log' : Journal) (front more : Bytes)
    → DeliveredUpTo content from base mid log
    → Spans content mid front stop
    → delivered_text log' ≡ delivered_text log ++ more
    → more ≡ no_blanks true front
    → DeliveredUpTo content from base stop log'
DeliveredUpTo-append content from mid stop base log log' front more (seg, spans, done) spans' adds
      texts =
    (
      seg ++ front,
      Spans-append content from mid stop seg front spans spans',
      adds
          ∙ ap (λ t. t ++ more) done
          ∙ append_assoc (delivered_text base) (no_blanks true seg) more
          ∙ ap (λ t. delivered_text base ++ t)
              (ap (λ t. no_blanks true seg ++ t) texts
                ∙ ap (λ b. no_blanks true seg ++ no_blanks b front) (sym spans.2)
                ∙ sym (no_blanks-append true seg front)),
    )

pub text-stamped :
    (next batch : Bytes) (recs : List LogRecord)
    → text (map (stamp_wave next batch) recs) ≡ text recs
text-stamped next batch [] = refl
text-stamped next batch (r ∷ recs) = ap (λ t. r.message ++ b'\n' ∷ t) (text-stamped next batch recs)
