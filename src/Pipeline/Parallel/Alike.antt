-- ===== src/Pipeline/Parallel/Alike.antt =====
-- That parallelDrain ships what reading the same bytes at once would, and that the fetcher's ReadRange
-- is such a reader of ranges.
use rdstail.Prelude.{
  ℕ, ◌≡◌, inl, inr, sym, ap, ◌∙◌, Bool, true, Option, none, some, List, Bytes, ◌++◌, arith,
  Option-cases, [], ◌∷◌,
}
use rdstail.Prelude.Int.{pos}
use rdstail.Record.{Checkpoint, text}
use rdstail.Failure.{Result, err, other}
use rdstail.Source.FileMeta.{FileMeta}
use rdstail.Source.Marker.{offset_marker}
use rdstail.Source.Portion.{Call, Response}
use rdstail.Source.Lines.{LineContext, parse_records}
use rdstail.Source.Lines.Conservation.{text-parse_records}
use rdstail.Source.Ranges.{read_range}
use rdstail.Source.Ranges.Slices.{IsServed, read_range-IsOwned}
use rdstail.Pipeline.Drain.{Journal, Outside, Settings, Memory}
use rdstail.Pipeline.Drain.Journal.{delivered_text}
use rdstail.Pipeline.Parallel.{Ranged, Waves, parallel_drain}
use rdstail.Pipeline.Parallel.Lines.{no_blanks-ended, line_text-split_on}
use rdstail.Pipeline.Parallel.Cutting.{Spans}
use rdstail.Pipeline.Parallel.Safety.{ReadsOwned}
use rdstail.Pipeline.Parallel.Tracking.{parallel_drain-Ships}

-- What was delivered is the text of the records that parsing the file's bytes between two offsets at
-- once gives.
abbrev pub IsReadAtOnce : LineContext → Bytes → Bytes → ℕ → ℕ → Journal → Journal → Type 0
IsReadAtOnce f file content from upto base log =
    (seg : Bytes) × Spans content from seg upto
    × (delivered_text log ≡ delivered_text base ++ text (parse_records f file seg).0)

-- Where parallelDrain returns no error, the text that it delivered is the text of the records that
-- parsing the file's bytes from the checkpoint at the start up to where it stopped gives at once, by
-- whatever line parser, if each range that ReadRange reads holds the lines that the file owns in it.
pub parallel_drain-IsReadAtOnce :
    (n : ℕ) (o : Outside) (x : Ranged) (w : Settings) (file : FileMeta) (reads : ℕ)
    (prev : Checkpoint) (mem : Memory) (log : Journal) (content prefix : Bytes) (from : ℕ)
    (q : Waves) (f : LineContext)
    → ReadsOwned content x
    → offset_marker prev.marker ≡ some (prefix, pos from)
    → parallel_drain n o x w file reads prev mem log ≡ some (none, q)
    → IsReadAtOnce f file.name content from q.off log q.log
parallel_drain-IsReadAtOnce n o x w file reads prev mem log content prefix from q f owned place h =
    elim (parallel_drain-Ships n o x w file reads prev mem log content prefix from none q owned
      place h).1 [
        | inl (e, failed) ↦ absurd (ground (arith, failed))
        | inr tracked ↦
            let (seg, spans, done) = tracked.upto in
            (
              seg,
              spans,
              done
                  ∙ ap (λ t. delivered_text log ++ t)
                      (sym (
                        text-parse_records f file.name seg
                        ∙ line_text-split_on seg
                        ∙ no_blanks-ended true seg spans.2)),
            )
      ]

-- ReadRange of the fetcher, for at most so many portions, as a reader of ranges; the calls of the API so
-- far depend on the journal.
abbrev pub or_other : Option (Result (Bytes × ℕ) × List Call) → Result (Bytes × ℕ)
or_other none = err (other ∷ [])
or_other (some (r, calls)) = r

abbrev pub fetched :
    ℕ
    → (List Call → Call → Result Response)
    → Bytes
    → Bytes
    → (Journal → List Call)
    → Journal
    → ℕ
    → Option ℕ
    → Bool
    → Result (Bytes × ℕ)
fetched n api log_file prefix calls log start end line_start =
    or_other (read_range api n log_file prefix start end line_start (calls log))

-- The ranges that ReadRange of the fetcher reads hold the lines that the file owns in them, if each
-- answer of the API with exactly as many bytes as its marker counts, and not cut, has what stands in the
-- file at the offset of its call.
pub fetched-ReadsOwned :
    (n : ℕ) (api : List Call → Call → Result Response) (log_file prefix content : Bytes)
    (calls : Journal → List Call) (context : Journal → LineContext) (sha256 : Bytes → Bytes)
    → IsServed api log_file prefix content
    → ReadsOwned content (record {
      read_range = fetched n api log_file prefix calls;
      context = context;
      sha256 = sha256;
    })
fetched-ReadsOwned n api log_file prefix content calls context sha256 served log start end
      line_start t stop h =
    elim (Option-cases (read_range api n log_file prefix start end line_start (calls log))) [
      | inl unfinished ↦ absurd (ground (arith, unfinished, h))
      | inr ((r, calls'), done) ↦
          read_range-IsOwned api log_file prefix content served n start end line_start (calls log)
            calls' (t, stop) (ground (arith, done, h))
    ]
