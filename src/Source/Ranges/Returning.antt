-- ===== src/Source/Ranges/Returning.antt =====
-- That ReadRange returns.
use rdstail.Prelude.{
  ℕ, zero, suc, ◌+◌, ◌-◌, ◌≤◌, ◌<◌, ◌≡◌, inl, inr, refl, sym, ap, subst, ◌||◌, Bool, true, not,
  Option, none, some, List, [], ◌∷◌, ◌++◌, Bytes, take, drop, length, length-append, length-drop,
  arith, if◌then◌else◌, Bool-cases, Option-cases,
}
use rdstail.Failure.{Result, Result-cases}
use rdstail.Source.Marker.{make_marker}
use rdstail.Source.Portion.{Call, Response, pull_raw}
use rdstail.Source.Ranges.{is_some_text, is_exact, finished, read_from, read_range}
use rdstail.Source.Ranges.Prefixes.{length-take_bound}
use rdstail.Source.Ranges.Cutting.{IsRead}
use rdstail.Source.Ranges.Slices.{IsServed}

IsRead-bound :
    (content : Bytes) (at : ℕ) (text : Bytes)
    → IsRead content at text
    → length text ≤ length content - at
IsRead-bound content at text is_read =
    subst (λ k. k ≤ length content - at) (ap length (sym is_read))
      (subst (λ k. length (take (length text) (drop at content)) ≤ k) (length-drop at content)
        (length-take_bound (length text) (drop at content)))

some_text-bound : (text : Bytes) → is_some_text text ≡ true → 1 ≤ length text
some_text-bound [] h = absurd (ground (arith, h))
some_text-bound (c ∷ text) h = omega arith

module _ (api : List Call → Call → Result Response) (log_file prefix : Bytes) (buf_start : ℕ)
    (line_start : Bool) (end : Option ℕ) (content : Bytes) where
  goes_on :
      (text : Bytes) (pending : Bool) (more : Bytes)
      → finished api log_file prefix buf_start line_start end text
          (not pending || not (is_some_text more))
        ≡ none
      → is_some_text more ≡ true
  unfolding finished
  goes_on text pending [] h = absurd (ground (arith, h))
  goes_on text pending (c ∷ more) h = refl

  read_from-returns :
      IsServed api log_file prefix content
      → (n : ℕ) (buf : Bytes) (calls : List Call) → length content - (buf_start + length buf) < n
      → (r : Result (Bytes × ℕ) × List Call) × (read_from api log_file prefix buf_start line_start
            end n buf calls
          ≡ some r)
  unfolding read_from
  read_from-returns served zero buf calls h = absurd (omega (arith, h))
  read_from-returns served (suc n) buf calls h =
      let at = buf_start + length buf in
      let answer = pull_raw api log_file (make_marker prefix at) calls in
      elim (Result-cases answer.0) [
        | inr (e, bad) ↦ rw bad (_, refl)
        | inl (raw, good) ↦ elim (Bool-cases (is_exact at raw)) [
          | inr other ↦ rw good (rw other (_, refl))
          | inl exact ↦
              let text = buf ++ raw.log_text in
              let over = not raw.pending || not (is_some_text raw.log_text) in
              elim (Option-cases
                (finished api log_file prefix buf_start line_start end text over)) [
                  | inr (r, done) ↦ rw good (rw exact (rw done (_, refl)))
                  | inl more ↦ rw good (
                      rw exact (
                        rw more (
                          read_from-returns served n text answer.1 (
                            omega (
                              arith,
                              h,
                              length-append buf raw.log_text,
                              some_text-bound raw.log_text
                                  (goes_on text raw.pending raw.log_text more),
                              IsRead-bound content at raw.log_text (served at calls raw good exact),
                            )))))
                ]
        ]
      ]

-- ReadRange returns, after at most as many portions as the file has bytes and one more, whatever the API
-- answers, if each answer with exactly as many bytes as its marker counts, and not cut, has what stands in
-- the file at the offset of its call.
pub read_range-returns :
    (api : List Call → Call → Result Response) (log_file prefix content : Bytes)
    → IsServed api log_file prefix content
    → (n start : ℕ) (end : Option ℕ) (line_start : Bool) (calls : List Call) → length content < n
    → (r : Result (Bytes × ℕ) × List Call) × (read_range api n log_file prefix start end line_start
          calls
        ≡ some r)
unfolding read_range
read_range-returns api log_file prefix content served n start end line_start calls h =
    read_from-returns api log_file prefix (if line_start then start else start - 1) line_start end
      content served n [] calls (omega (arith, h))
