-- ===== src/Source/SkipToEnd.antt =====
-- internal/source/rds/fetcher.go: SkipToEnd, which finds the marker of a file's end.
pub mod Answer
pub mod Returning
use rdstail.Prelude.{
  ℕ, zero, suc, ◌+◌, ◌&&◌, ◌==◌, Bool, true, false, not, Option, none, some, List, [], ◌∷◌, ◌++◌,
  Bytes, take, drop, same, ltb, if◌then◌else◌,
}
use rdstail.Prelude.Int.{ℤ, pos, ltz}
use rdstail.Failure.{Result, ok, err}
use rdstail.Text.{last_index_byte, parse_int, format_int}
use rdstail.Source.Marker.{marker_beginning}
use rdstail.Source.Portion.{Call, Response, download}

-- The answer, and the calls that were made.
abbrev pub Skipped : Type 0
Skipped = Result Bytes × List Call

-- off >= size, for an offset that could be parsed
abbrev pub is_reached : ℕ → Option ℤ → Bool
is_reached size none = false
is_reached size (some off) = not (ltz off (pos size))

-- Whether RDS honoured the marker that was built: the next one has the same prefix and an offset that
-- is not before the size.
unfoldable pub is_honoured : Bytes → ℕ → ℕ → Bytes → Bool
unfolding last_index_byte parse_int same
is_honoured marker i size next = elim (last_index_byte b':' next) [
  | none ↦ false
  | some j ↦
      (j == i)
      && same (take j next) (take i marker)
      && is_reached size (parse_int (drop (suc j) next))
]

module _ (api : List Call → Call → Result Response) (log_file : Bytes) where
  -- The loop at the end, which pages to the current end: `none` if there are more pages than that.
  unfoldable pub page_to_end : ℕ → Bytes → List Call → Option Skipped
  unfolding download
  page_to_end zero marker calls = none
  page_to_end (suc n) marker calls =
      let (answer, calls') = download api log_file marker none calls in
      elim answer [
        | err e ↦ some (err e, calls')
        | ok resp ↦ elim resp.pending [
          | false ↦ some (ok resp.marker, calls')
          | true ↦ page_to_end n resp.marker calls'
        ]
      ]

  -- The marker that is built is tried; where RDS does not honour it, the loop follows.
  unfoldable pub try_built : ℕ → Bytes → ℕ → ℕ → List Call → Option Skipped
  unfolding download is_honoured page_to_end
  try_built n marker i size calls =
      let built = take (suc i) marker ++ format_int size in
      let (answer, calls') = download api log_file built (some 1) calls in
      elim answer [
        | err e ↦ some (err e, calls')
        | ok check ↦ elim (is_honoured marker i size check.marker) [
          | true ↦ some (ok built, calls')
          | false ↦ page_to_end n marker calls'
        ]
      ]

  -- if i := strings.LastIndexByte(marker, ':'); i > 0 && size > 0
  abbrev pub after_probe : ℕ → Bytes → ℕ → Option ℕ → List Call → Option Skipped
  after_probe n marker (suc size) (some (suc i)) calls = try_built n marker (suc i) (suc size) calls
  after_probe n marker zero (some (suc i)) calls = page_to_end n marker calls
  after_probe n marker size (some zero) calls = page_to_end n marker calls
  after_probe n marker size none calls = page_to_end n marker calls

  -- SkipToEnd
  unfoldable pub skip_to_end : ℕ → ℕ → List Call → Option Skipped
  unfolding download try_built page_to_end last_index_byte
  skip_to_end n size calls =
      let (answer, calls') = download api log_file marker_beginning (some 1) calls in
      elim answer [
        | err e ↦ some (err e, calls')
        | ok probe ↦ elim probe.pending [
          | false ↦ some (ok probe.marker, calls')
          | true ↦ after_probe n probe.marker size (last_index_byte b':' probe.marker) calls'
        ]
      ]
