-- ===== src/Source/Ranges.antt =====
-- internal/source/rds/fetcher.go: ReadRange and cutRange, which read the lines that start in a range of
-- bytes.
pub mod Cutting
pub mod Prefixes
pub mod Returning
pub mod Slices
use rdstail.Prelude.{
  ℕ, zero, suc, ◌+◌, ◌-◌, ◌&&◌, ◌||◌, ◌==◌, Bool, true, false, not, Option, none, some, List, [],
  ◌∷◌, ◌++◌, Bytes, take, drop, length, ltb, if◌then◌else◌,
}
use rdstail.Prelude.Int.{ℤ, pos, negsuc}
use rdstail.Failure.{Result, ok, err, range_unsupported}
use rdstail.Text.{index_byte, last_index_byte}
use rdstail.Source.Marker.{offset_marker, make_marker}
use rdstail.Source.Portion.{Call, Response, RawPortion, pull_raw}

-- The end of cutRange, from the index where the first line of the range starts.
abbrev pub cut_from : Bytes → ℕ → ℕ → ℕ → Bytes × ℕ
cut_from text buf_start end_idx from =
    if ltb end_idx from
    then ([], buf_start + from)
    else (drop from (take end_idx text), buf_start + end_idx)

abbrev pub cut_after : Bytes → ℕ → ℕ → Option ℕ → Bytes × ℕ
cut_after text buf_start end_idx none = ([], buf_start + end_idx)
cut_after text buf_start end_idx (some i) = cut_from text buf_start end_idx (i + 1)

-- cutRange
unfoldable pub cut_range : Bytes → ℕ → Bool → ℕ → Bytes × ℕ
unfolding index_byte
cut_range text buf_start true end_idx = cut_from text buf_start end_idx 0
cut_range text buf_start false end_idx = cut_after text buf_start end_idx (index_byte b'\n' text)

abbrev pub behind : ℕ → Option ℕ → Option ℕ
behind from none = none
behind from (some i) = some (from + i + 1)

-- Where the next range begins in the text, if that can be seen; a range to the end of the file has no
-- end.
unfoldable pub range_end : Bytes → ℕ → Option ℕ → Option ℕ
unfolding index_byte
range_end text buf_start none = none
range_end text buf_start (some end) =
    let from = end - 1 - buf_start in
    if ltb from (length text) then behind from (index_byte b'\n' (drop from text)) else none

-- last + 1, behind the last newline
abbrev pub complete_end : Option ℕ → ℕ
complete_end none = 0
complete_end (some last) = last + 1

abbrev pub is_offset : ℕ → Option (Bytes × ℤ) → Bool
is_offset n none = false
is_offset n (some (prefix, pos off)) = off == n
is_offset n (some (prefix, negsuc k)) = false

abbrev pub has_offset : Option (Bytes × ℤ) → Bool
has_offset none = false
has_offset (some o) = true

abbrev pub is_some_text : Bytes → Bool
is_some_text [] = false
is_some_text (c ∷ s) = true

-- Whether the portion that was read at `at` is exactly that many bytes of the file.
unfoldable pub is_exact : ℕ → RawPortion → Bool
unfolding offset_marker
is_exact at raw =
    let o = offset_marker raw.next in
    (raw.truncated == 0)
    && has_offset o
    && (is_offset (at + length raw.log_text) o || not (raw.pending || is_some_text raw.log_text))

module _ (api : List Call → Call → Result Response) (log_file prefix : Bytes) (buf_start : ℕ)
    (line_start : Bool) (end : Option ℕ) where
  -- What follows when a portion was added to the text: the range, or none if more is to be read.
  unfoldable pub finished : Bytes → Bool → Option (Bytes × ℕ)
  unfolding cut_range range_end last_index_byte
  finished text at_end = elim (range_end text buf_start end) [
    | some idx ↦ some (cut_range text buf_start line_start idx)
    | none ↦
        if at_end
        then some (cut_range text buf_start line_start (complete_end (last_index_byte b'\n' text)))
        else none
  ]

  -- The loop of ReadRange: `none` if there are more portions than that.
  unfoldable pub read_from : ℕ → Bytes → List Call → Option (Result (Bytes × ℕ) × List Call)
  unfolding pull_raw is_exact finished
  read_from zero buf calls = none
  read_from (suc n) buf calls =
      let at = buf_start + length buf in
      let (answer, calls') = pull_raw api log_file (make_marker prefix at) calls in
      elim answer [
        | err e ↦ some (err e, calls')
        | ok raw ↦ elim (is_exact at raw) [
          | false ↦ some (err (range_unsupported ∷ []), calls')
          | true ↦
              let text = buf ++ raw.log_text in
              elim (finished text (not raw.pending || not (is_some_text raw.log_text))) [
                | some range ↦ some (ok range, calls')
                | none ↦ read_from n text calls'
              ]
        ]
      ]

-- ReadRange; a range that does not begin at the start of a line begins at 1 or later.
unfoldable pub read_range :
    (List Call → Call → Result Response)
    → ℕ
    → Bytes
    → Bytes
    → ℕ
    → Option ℕ
    → Bool
    → List Call
    → Option (Result (Bytes × ℕ) × List Call)
unfolding read_from
read_range api n log_file prefix start end line_start calls =
    let buf_start = if line_start then start else start - 1 in
    read_from api log_file prefix buf_start line_start end n [] calls
