-- ===== src/Source/SkipToEnd/Answer.antt =====
-- What the marker is that SkipToEnd returns.
use rdstail.Prelude.{
  ℕ, zero, suc, ◌≡◌, ◌⊎◌, inl, inr, sym, true, false, Option, none, some, List, ◌∷◌, ◌++◌, Bytes,
  take, drop, arith, Bool-cases, Option-cases, refl, ap, ◌∙◌, append_assoc, ◌≤◌, [], ◌==◌, same_iff,
}
use rdstail.Failure.{Result, ok, Result-cases}
use rdstail.Prelude.Int.{ℤ, pos, negsuc}
use rdstail.Text.{last_index_byte, format_int, parse_int}
use rdstail.Source.Marker.{marker_beginning}
use rdstail.Source.Portion.{Call, Response, download}
use rdstail.Source.SkipToEnd.{
  is_reached, is_honoured, page_to_end, try_built, after_probe, skip_to_end,
}

last_index_byte-at :
    (c : ℕ) (s : Bytes) (i : ℕ)
    → last_index_byte c s ≡ some i
    → (s ≡ take i s ++ c ∷ drop (suc i) s) × (take (suc i) s ≡ take i s ++ c ∷ [])
unfolding last_index_byte
last_index_byte-at c [] i h = absurd (ground (arith, h))
last_index_byte-at c (x ∷ s) i h = elim (Option-cases (last_index_byte c s)) [
  | inr (k, later) ↦
      let i_is : suc k ≡ i = ground (arith, later, h) in
      let (whole, front) = last_index_byte-at c s k later in
      rw (← i_is) (ap (λ t. x ∷ t) whole, ap (λ t. x ∷ t) front)
  | inl none_later ↦ elim (Bool-cases (x == c)) [
    | inl here ↦
        let i_is : 0 ≡ i = ground (arith, none_later, here, h) in
        let x_is : x ≡ c = ground (arith, here) in rw (← i_is, x_is) (refl, refl)
    | inr differs ↦ absurd (ground (arith, none_later, differs, h))
  ]
]

module _ (api : List Call → Call → Result Response) (log_file : Bytes) (size : ℕ) where
  -- A marker of this prefix has an offset that is not before the size.
  abbrev pub IsAtSize : Bytes → Bytes → Type 0
  IsAtSize prefix next =
      (digits : Bytes) × (off : ℕ) × (next ≡ prefix ++ b':' ∷ digits)
      × (parse_int digits ≡ some (pos off))
      × (size ≤ off)

  -- The marker is where the last answer had nothing behind it; or it was built from a prefix and the
  -- size, and the answer to it is a marker of the same prefix at the size or later.
  abbrev pub IsEnd : Bytes → Response → Call → Type 0
  IsEnd m resp c =
      ((resp.pending ≡ false) × (resp.marker ≡ m))
      ⊎ ((c.marker ≡ m)
          × ((prefix : Bytes) × (m ≡ prefix ++ b':' ∷ format_int size)
              × IsAtSize prefix resp.marker))

  -- The same of the last of some calls.
  abbrev pub IsAnswered : Bytes → List Call → Type 0
  IsAnswered m calls =
      (c : Call) × (before : List Call) × (resp : Response) × (calls ≡ c ∷ before)
      × (api before c ≡ ok resp)
      × IsEnd m resp c

  abbrev call_of : Bytes → Option ℕ → Call
  call_of marker lines = record { log_file = log_file; marker = marker; lines = lines }

  page_to_end-IsAnswered :
      (n : ℕ) (marker m : Bytes) (calls calls' : List Call)
      → page_to_end api log_file n marker calls ≡ some (ok m, calls')
      → IsAnswered m calls'
  unfolding page_to_end download
  page_to_end-IsAnswered zero marker m calls calls' h = absurd (ground (arith, h))
  page_to_end-IsAnswered (suc n) marker m calls calls' h =
      elim (Result-cases (api calls (call_of marker none))) [
        | inr (e, bad) ↦ absurd (ground (arith, bad, h))
        | inl (resp, good) ↦ elim (Bool-cases resp.pending) [
          | inl more ↦
              page_to_end-IsAnswered n resp.marker m (call_of marker none ∷ calls) calls'
                (ground (arith, good, more, h))
          | inr over ↦ (
            call_of marker none,
            calls,
            resp,
            ground (arith, good, over, h),
            good,
            inl (over, ground (arith, good, over, h)),
          )
        ]
      ]

  is_reached-pos :
      (o : Option ℤ) → is_reached size o ≡ true → (off : ℕ) × (o ≡ some (pos off)) × (size ≤ off)
  is_reached-pos none h = absurd (ground (arith, h))
  is_reached-pos (some (pos off)) h = (off, refl, ground (arith, h))
  is_reached-pos (some (negsuc k)) h = absurd (ground (arith, h))

  -- What is checked of the answer to the built marker.
  is_honoured-IsAtSize :
      (marker next : Bytes) (i : ℕ)
      → is_honoured marker i size next ≡ true
      → IsAtSize (take i marker) next
  unfolding is_honoured
  is_honoured-IsAtSize marker next i h = elim (Option-cases (last_index_byte b':' next)) [
    | inl nowhere ↦ absurd (ground (arith, nowhere, h))
    | inr (j, there) ↦
        let j_is : j ≡ i = ground (arith, there, h) in
        let prefix_is : take j next ≡ take i marker =
          ground (arith, there, h, same_iff (take j next) (take i marker)) in
        let (off, parsed, far) =
          is_reached-pos (parse_int (drop (suc j) next)) (ground (arith, there, h)) in
        (
          drop (suc j) next,
          off,
          (last_index_byte-at b':' next j there).0
              ∙ ap (λ t. t ++ b':' ∷ drop (suc j) next) prefix_is,
          parsed,
          far,
        )
  ]

  try_built-IsAnswered :
      (n : ℕ) (marker m : Bytes) (i : ℕ) (calls calls' : List Call)
      → last_index_byte b':' marker ≡ some i
      → try_built api log_file n marker i size calls ≡ some (ok m, calls')
      → IsAnswered m calls'
  unfolding try_built download
  try_built-IsAnswered n marker m i calls calls' at h =
      let c = call_of (take (suc i) marker ++ format_int size) (some 1) in
      elim (Result-cases (api calls c)) [
        | inr (e, bad) ↦ absurd (ground (arith, bad, h))
        | inl (check, good) ↦ elim (Bool-cases (is_honoured marker i size check.marker)) [
          | inr ignored ↦
              page_to_end-IsAnswered n marker m (c ∷ calls) calls'
                (ground (arith, good, ignored, h))
          | inl honoured ↦
              let built : take (suc i) marker ++ format_int size ≡ m =
                ground (arith, good, honoured, h) in
              (
                c,
                calls,
                check,
                ground (arith, good, honoured, h),
                good,
                inr (
                  built,
                  (
                    take i marker,
                    sym built
                        ∙ ap (λ t. t ++ format_int size) (last_index_byte-at b':' marker i at).1
                        ∙ append_assoc (take i marker) (b':' ∷ []) (format_int size),
                    is_honoured-IsAtSize marker check.marker i honoured,
                  ),
                ),
              )
        ]
      ]

module _ (api : List Call → Call → Result Response) (log_file : Bytes) where
  after_probe-IsAnswered :
      (n : ℕ) (marker m : Bytes) (size : ℕ) (i : Option ℕ) (calls calls' : List Call)
      → last_index_byte b':' marker ≡ i
      → after_probe api log_file n marker size i calls ≡ some (ok m, calls')
      → IsAnswered api log_file size m calls'
  after_probe-IsAnswered n marker m zero none calls calls' at h =
      page_to_end-IsAnswered api log_file 0 n marker m calls calls' h
  after_probe-IsAnswered n marker m (suc size) none calls calls' at h =
      page_to_end-IsAnswered api log_file (suc size) n marker m calls calls' h
  after_probe-IsAnswered n marker m zero (some zero) calls calls' at h =
      page_to_end-IsAnswered api log_file 0 n marker m calls calls' h
  after_probe-IsAnswered n marker m (suc size) (some zero) calls calls' at h =
      page_to_end-IsAnswered api log_file (suc size) n marker m calls calls' h
  after_probe-IsAnswered n marker m zero (some (suc i)) calls calls' at h =
      page_to_end-IsAnswered api log_file 0 n marker m calls calls' h
  after_probe-IsAnswered n marker m (suc size) (some (suc i)) calls calls' at h =
      try_built-IsAnswered api log_file (suc size) n marker m (suc i) calls calls' at h

  -- Whatever RDS answers: a marker that SkipToEnd returns is the one of its last answer, which had
  -- nothing behind it, or it is a prefix with the size of the file as its offset, and the last call was
  -- made with it and answered with a marker of the same prefix whose offset is that size or larger.
  pub skip_to_end-IsAnswered :
      (n size : ℕ) (m : Bytes) (calls calls' : List Call)
      → skip_to_end api log_file n size calls ≡ some (ok m, calls')
      → IsAnswered api log_file size m calls'
  unfolding skip_to_end download
  skip_to_end-IsAnswered n size m calls calls' h =
      let c : Call = record { log_file = log_file; marker = marker_beginning; lines = some 1 } in
      elim (Result-cases (api calls c)) [
        | inr (e, bad) ↦ absurd (ground (arith, bad, h))
        | inl (probe, good) ↦ elim (Bool-cases probe.pending) [
          | inr over ↦ (
            c,
            calls,
            probe,
            ground (arith, good, over, h),
            good,
            inl (over, ground (arith, good, over, h)),
          )
          | inl more ↦
              after_probe-IsAnswered n probe.marker m size (last_index_byte b':' probe.marker)
                (c ∷ calls) calls' refl (ground (arith, good, more, h))
        ]
      ]
