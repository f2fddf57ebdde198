-- ===== src/Source/Ranges/Slices.antt =====
-- Which lines of a file ReadRange returns.
use rdstail.Prelude.{
  ℕ, zero, suc, ◌+◌, ◌-◌, ◌≡◌, inl, inr, refl, subst, ◌||◌, Bool, true, not, Option, some, List, [],
  ◌++◌, Bytes, length, arith, if◌then◌else◌, Bool-cases, Option-cases,
}
use rdstail.Failure.{Result, ok, Result-cases}
use rdstail.Text.{last_index_byte}
use rdstail.Source.Marker.{make_marker}
use rdstail.Source.Portion.{Call, Response, RawPortion, pull_raw}
use rdstail.Source.Ranges.{
  range_end, complete_end, is_some_text, is_exact, finished, read_from, read_range,
}
use rdstail.Source.Ranges.Prefixes.{last_index_byte-bound, range_end-bound}
use rdstail.Source.Ranges.Cutting.{
  IsOwned, IsCut, IsCut-IsOwned, IsRead, cut_range-IsCut, range_end-IsStopped, last-IsStopped,
  IsRead-append,
}

-- What an answer whose marker counts its bytes has is what stands in the file there.
abbrev pub IsServed : (List Call → Call → Result Response) → Bytes → Bytes → Bytes → Type 0
IsServed api log_file prefix content =
    (at : ℕ) (calls : List Call) (raw : RawPortion)
    → (pull_raw api log_file (make_marker prefix at) calls).0 ≡ ok raw
    → is_exact at raw ≡ true
    → IsRead content at raw.log_text

module _ (api : List Call → Call → Result Response) (log_file prefix : Bytes) (buf_start : ℕ)
    (line_start : Bool) (end : Option ℕ) (content : Bytes) where
  finished-IsCut :
      (text : Bytes) (at_end : Bool) (range : Bytes × ℕ)
      → IsRead content buf_start text
      → finished api log_file prefix buf_start line_start end text at_end ≡ some range
      → IsCut content buf_start line_start end range
  unfolding finished
  finished-IsCut text at_end range is_read h = elim (Option-cases (range_end text buf_start end)) [
    | inr (idx, there) ↦ subst (IsCut content buf_start line_start end) (ground (arith, there, h)) (
        cut_range-IsCut content buf_start line_start end text idx is_read
          (range_end-bound text buf_start end idx there)
          (range_end-IsStopped content buf_start end text idx is_read there))
    | inl nowhere ↦ elim (Bool-cases at_end) [
      | inl last ↦
          subst (IsCut content buf_start line_start end) (ground (arith, nowhere, last, h)) (
            cut_range-IsCut content buf_start line_start end text
              (complete_end (last_index_byte b'\n' text)) is_read (last_index_byte-bound b'\n' text)
              (last-IsStopped content buf_start end text is_read nowhere))
      | inr more ↦ absurd (ground (arith, nowhere, more, h))
    ]
  ]

  read_from-IsCut :
      IsServed api log_file prefix content
      → (n : ℕ) (buf : Bytes) (calls calls' : List Call) (range : Bytes × ℕ)
      → IsRead content buf_start buf
      → read_from api log_file prefix buf_start line_start end n buf calls ≡ some (ok range, calls')
      → IsCut content buf_start line_start end range
  unfolding read_from
  read_from-IsCut served zero buf calls calls' range is_read h = absurd (ground (arith, h))
  read_from-IsCut served (suc n) buf calls calls' range is_read h =
      let at = buf_start + length buf in
      let answer = pull_raw api log_file (make_marker prefix at) calls in
      elim (Result-cases answer.0) [
        | inr (e, bad) ↦ absurd (ground (arith, bad, h))
        | inl (raw, good) ↦ elim (Bool-cases (is_exact at raw)) [
          | inr other ↦ absurd (ground (arith, good, other, h))
          | inl exact ↦
              let text = buf ++ raw.log_text in
              let is_read' =
                IsRead-append content buf_start buf raw.log_text is_read
                  (served at calls raw good exact) in
              let over = not raw.pending || not (is_some_text raw.log_text) in
              elim (Option-cases
                (finished api log_file prefix buf_start line_start end text over)) [
                  | inr (r, done) ↦
                      subst (IsCut content buf_start line_start end)
                        (ground (arith, good, exact, done, h))
                        (finished-IsCut text over r is_read' done)
                  | inl more ↦
                      read_from-IsCut served n text answer.1 calls' range is_read'
                        (ground (arith, good, exact, more, h))
                ]
        ]
      ]

pub read_range-IsCut :
    (api : List Call → Call → Result Response) (log_file prefix content : Bytes)
    → IsServed api log_file prefix content
    → (n start : ℕ) (end : Option ℕ) (line_start : Bool) (calls calls' : List Call)
      (range : Bytes × ℕ)
    → read_range api n log_file prefix start end line_start calls ≡ some (ok range, calls')
    → IsCut content (if line_start then start else start - 1) line_start end range
unfolding read_range
read_range-IsCut api log_file prefix content served n start end line_start calls calls' range h =
    read_from-IsCut api log_file prefix (if line_start then start else start - 1) line_start end
      content served n [] calls calls' range refl h

-- What the parallel drain relies on of it.
pub read_range-IsOwned :
    (api : List Call → Call → Result Response) (log_file prefix content : Bytes)
    → IsServed api log_file prefix content
    → (n start : ℕ) (end : Option ℕ) (line_start : Bool) (calls calls' : List Call)
      (range : Bytes × ℕ)
    → read_range api n log_file prefix start end line_start calls ≡ some (ok range, calls')
    → IsOwned content (if line_start then start else start - 1) line_start end range
read_range-IsOwned api log_file prefix content served n start end line_start calls calls' range h =
    IsCut-IsOwned content (if line_start then start else start - 1) line_start end range (
      read_range-IsCut api log_file prefix content served n start end line_start calls calls' range
        h)
