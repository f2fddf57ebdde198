-- ===== src/Pipeline/Parallel/Cutting.antt =====
-- The text of the ranges of a wave, and of the records that are shipped of it.
use rdstail.Prelude.{
  ℕ, ◌+◌, ◌-◌, ◌≤◌, ◌==◌, ◌≡◌, inl, inr, refl, sym, ap, ap₂, subst, ◌∙◌, Bool, true, false, some,
  List, [], ◌∷◌, ◌++◌, Bytes, take, drop, map, init, last, init-append-last, length, length-append,
  take-append-drop, append-nil, arith, ltb, same_iff, Bool-cases,
}
use rdstail.Record.{LogRecord, text}
use rdstail.Failure.{Result, ok, Result-cases}
use rdstail.Source.Truncation.{has_suffix}
use rdstail.Source.Lines.Conservation.{text-append}
use rdstail.Source.Ranges.Prefixes.{take-take, length-take}
use rdstail.Source.Ranges.Cutting.{IsRead, IsRead-append}
use rdstail.Pipeline.Parallel.{tiled, join_tiles, cut_wave}
use rdstail.Pipeline.Parallel.Lines.{
  starts_line, no_blanks, starts_line-append, starts_line-no_blanks, no_blanks-append,
  no_blanks-no_blanks, no_blanks-bound, no_blanks-whole, no_blanks-ended,
}
use rdstail.Pipeline.Parallel.Pieces.{IsPiece}

-- A text that stands in the file between two offsets and ends a line.
abbrev pub Spans : Bytes → ℕ → Bytes → ℕ → Type 0
Spans content from t stop =
    IsRead content from t × (from + length t ≡ stop) × (starts_line true t ≡ true)

starts_line-ended :
    (b : Bool) (t : Bytes) → starts_line true t ≡ true → b ≡ true → starts_line b t ≡ true
starts_line-ended b t h e = rw e h

Spans-piece :
    (content : Bytes) (from at stop : ℕ) (joined t : Bytes)
    → Spans content from joined at
    → IsPiece content (t, stop)
    → at + length t ≡ stop
    → Spans content from (joined ++ t) stop
Spans-piece content from at stop joined t (is_read, ends, lines) (inl empty) meets = rw empty (
  subst (IsRead content from) (sym (append-nil joined)) is_read,
  omega (arith, ends, meets, ap length empty, length-append joined []),
  ap (starts_line true) (append-nil joined) ∙ lines,
)
Spans-piece content from at stop joined t (is_read, ends, lines)
      (inr (begin, is_read', ends', lines')) meets =
    let place : begin ≡ from + length joined = omega (arith, ends, ends', meets) in
    (
      IsRead-append content from joined t is_read (subst (λ k. IsRead content k t) place is_read'),
      omega (arith, length-append joined t, ends, meets),
      starts_line-append true joined t ∙ starts_line-ended (starts_line true joined) t lines' lines,
    )

module _ {ℓ} {R : Type ℓ} (content : Bytes) (from : ℕ) (answer : R → Result (Bytes × ℕ))
    (pieces : (r : R) (v : Bytes × ℕ) → answer r ≡ ok v → IsPiece content v) where
  -- Where the ranges tile, their texts together stand in the file.
  pub join_tiles-Spans :
      (ranges : List R) (joined t : Bytes) (at stop : ℕ)
      → Spans content from joined at
      → join_tiles joined at (map answer ranges) ≡ tiled t stop
      → Spans content from t stop
  unfolding join_tiles
  join_tiles-Spans [] joined t at stop spans h =
      let t_is : joined ≡ t = ground (arith, h) in
      let stop_is : at ≡ stop = ground (arith, h) in rw (← t_is, ← stop_is) spans
  join_tiles-Spans (r ∷ ranges) joined t at stop spans h = elim (Result-cases (answer r)) [
    | inr (e, bad) ↦ absurd (ground (arith, bad, h))
    | inl ((t', stop'), good) ↦ elim (Bool-cases (at + length t' == stop')) [
      | inr apart ↦ absurd (ground (arith, good, apart, h))
      | inl meets ↦
          join_tiles-Spans ranges (joined ++ t') t stop' stop
            (Spans-piece content from at stop' joined t' spans (pieces r (t', stop') good)
              (ground (arith, meets)))
            (ground (arith, good, meets, h))
    ]
  ]

has_suffix-split :
    (s p : Bytes)
    → has_suffix s p ≡ true
    → (front : Bytes) × (s ≡ front ++ p) × (front ≡ take (length front) s)
unfolding has_suffix
has_suffix-split s p h =
    let n = length s - length p in
    let tail : drop n s ≡ p = ground (arith, h, same_iff (drop n s) p) in
    let size : length (take n s) ≡ n = length-take n s (omega arith) in
    (
      take n s,
      sym (take-append-drop n s) ∙ ap (λ t. take n s ++ t) tail,
      ap (λ k. take k s) (sym size),
    )

starts_line-text : (recs : List LogRecord) → starts_line true (text recs) ≡ true
unfolding starts_line
starts_line-text [] = refl
starts_line-text (r ∷ recs) =
    starts_line-append true r.message (b'\n' ∷ text recs) ∙ starts_line-text recs

split_length :
    (a a' b b' : Bytes)
    → a ++ b ≡ a' ++ b'
    → length a ≤ length a'
    → length b ≤ length b'
    → (a ≡ a') × (b ≡ b')
split_length [] [] b b' h la lb = (refl, h)
split_length [] (x ∷ a') b b' h la lb = absurd (omega (arith, lb, ap length h, length-append a' b'))
split_length (x ∷ a) [] b b' h la lb = absurd (omega (arith, la))
split_length (x ∷ a) (y ∷ a') b b' h la lb =
    let heads : x ≡ y = ground (arith, h) in
    let tails : a ++ b ≡ a' ++ b' = ground (arith, h) in
    let (firsts, rests) = split_length a a' b b' tails (omega (arith, la)) lb in
    (ap₂ (λ z zs. z ∷ zs) heads firsts, rests)

text-init-last : (recs : List LogRecord) → text recs ≡ text (init recs) ++ text (last recs)
text-init-last recs = ap text (sym (init-append-last recs)) ∙ text-append (init recs) (last recs)

-- Where the text of the last record ends a text, the other records are what stands before it.
held_back :
    (front : Bytes) (recs : List LogRecord)
    → text recs ≡ no_blanks true (front ++ text (last recs))
    → (text (init recs) ≡ no_blanks true front) × (starts_line true front ≡ true)
held_back front recs h =
    let body = text (init recs) in
    let tail = text (last recs) in
    let whole : no_blanks true (text recs) ≡ text recs =
      ap (no_blanks true) h ∙ no_blanks-no_blanks true (front ++ tail) ∙ sym h in
    let parts : no_blanks true body ++ no_blanks true tail ≡ body ++ tail =
      ap (λ b. no_blanks true body ++ no_blanks b tail) (sym (starts_line-text (init recs)))
      ∙ sym (no_blanks-append true body tail)
      ∙ ap (no_blanks true) (sym (text-init-last recs))
      ∙ whole
      ∙ text-init-last recs in
    let tail_whole =
      (split_length (no_blanks true body) body (no_blanks true tail) tail parts
        (no_blanks-bound true body) (no_blanks-bound true tail)).1 in
    let sides : no_blanks true front ++ tail ≡ body ++ tail =
      ap (λ t. no_blanks true front ++ t)
        (sym (no_blanks-whole (starts_line true front) tail tail_whole))
      ∙ sym (no_blanks-append true front tail)
      ∙ sym h
      ∙ text-init-last recs in
    let size : length (no_blanks true front) ≤ length body = omega (
      arith,
      ap length sides,
      length-append (no_blanks true front) tail,
      length-append body tail,
    ) in
    let fronts : no_blanks true front ≡ body =
      (split_length (no_blanks true front) body tail tail sides size (omega arith)).0 in
    (
      sym fronts,
      sym (starts_line-no_blanks true front)
          ∙ ap (starts_line true) fronts
          ∙ starts_line-text (init recs),
    )

module _ (content : Bytes) (from : ℕ) where
  IsRead-front :
      (front tail : Bytes)
      → IsRead content from (front ++ tail)
      → front ≡ take (length front) (front ++ tail)
      → IsRead content from front
  IsRead-front front tail is_read h =
      h
      ∙ ap (take (length front)) is_read
      ∙ take-take (length front) (length (front ++ tail)) (drop from content)
          (omega (arith, length-append front tail))

  -- What is shipped of a wave is what stands in the file up to where the wave ends, without its empty
  -- lines.
  pub cut_wave-Spans :
      (is_last : Bool) (joined : Bytes) (at stop : ℕ) (recs kept : List LogRecord)
      → Spans content from joined at
      → text recs ≡ no_blanks true (joined ++ b'\n' ∷ [])
      → cut_wave is_last joined at recs ≡ some (kept, stop)
      → (front : Bytes) × Spans content from front stop × (text kept ≡ no_blanks true front)
  unfolding cut_wave
  cut_wave-Spans true joined at stop recs kept (is_read, ends, lines) parsed h =
      let kept_is : recs ≡ kept = ground (arith, h) in
      let stop_is : at ≡ stop = ground (arith, h) in
      (
        joined,
        rw (← stop_is) (is_read, ends, lines),
        ap text (sym kept_is) ∙ parsed ∙ no_blanks-ended true joined lines,
      )
  cut_wave-Spans false joined at stop recs kept (is_read, ends, lines) parsed h =
      let tail = text (last recs) in
      elim (Bool-cases (ltb (length recs) 2)) [
        | inl few ↦ absurd (ground (arith, few, h))
        | inr enough ↦ elim (Bool-cases (has_suffix joined tail)) [
          | inr other ↦ absurd (ground (arith, enough, other, h))
          | inl suffix ↦
              let (front, split, start) = has_suffix-split joined tail suffix in
              let kept_is : init recs ≡ kept = ground (arith, enough, suffix, h) in
              let stop_is : at - length tail ≡ stop = ground (arith, enough, suffix, h) in
              let (texts, ended) =
                held_back front recs
                  (parsed ∙ no_blanks-ended true joined lines ∙ ap (no_blanks true) split) in
              (
                front,
                (
                  IsRead-front front tail (subst (IsRead content from) split is_read)
                      (start ∙ ap (take (length front)) split),
                  omega (arith, stop_is, ends, ap length split, length-append front tail),
                  ended,
                ),
                ap text (sym kept_is) ∙ texts,
              )
        ]
      ]
