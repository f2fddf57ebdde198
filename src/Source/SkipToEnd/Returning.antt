-- ===== src/Source/SkipToEnd/Returning.antt =====
-- That SkipToEnd returns.
use rdstail.Prelude.{
  ℕ, zero, suc, ◌<◌, ◌≤◌, ◌≡◌, inl, inr, refl, true, Option, none, some, List, ◌∷◌, ◌++◌, Bytes,
  take, arith, Bool-cases,
}
use rdstail.Failure.{Result, ok, Result-cases}
use rdstail.Text.{last_index_byte, format_int}
use rdstail.Source.Marker.{marker_beginning}
use rdstail.Source.Portion.{Call, Response, download}
use rdstail.Source.SkipToEnd.{
  Skipped, is_honoured, page_to_end, try_built, after_probe, skip_to_end,
}

-- An answer with more behind it leads on: there is less of the file behind its marker than behind the
-- one of the call.
abbrev pub LeadsOn : (List Call → Call → Result Response) → (Bytes → ℕ) → Type 0
LeadsOn api left =
    (calls : List Call) (c : Call) (resp : Response)
    → api calls c ≡ ok resp
    → resp.pending ≡ true
    → left resp.marker < left c.marker

module _ (api : List Call → Call → Result Response) (log_file : Bytes) (left : Bytes → ℕ)
    (leads : LeadsOn api left) where
  abbrev call_of : Bytes → Option ℕ → Call
  call_of marker lines = record { log_file = log_file; marker = marker; lines = lines }

  page_to_end-returns :
      (n : ℕ) (marker : Bytes) (calls : List Call)
      → left marker < n
      → (r : Skipped) × (page_to_end api log_file n marker calls ≡ some r)
  unfolding page_to_end download
  page_to_end-returns zero marker calls h = absurd (omega (arith, h))
  page_to_end-returns (suc n) marker calls h =
      elim (Result-cases (api calls (call_of marker none))) [
        | inr (e, bad) ↦ rw bad (_, refl)
        | inl (resp, good) ↦ elim (Bool-cases resp.pending) [
          | inr over ↦ rw good (rw over (_, refl))
          | inl more ↦ rw good (
              rw more (
                page_to_end-returns n resp.marker (call_of marker none ∷ calls)
                  (omega (arith, h, leads calls (call_of marker none) resp good more))))
        ]
      ]

  try_built-returns :
      (n : ℕ) (marker : Bytes) (i size : ℕ) (calls : List Call)
      → left marker < n
      → (r : Skipped) × (try_built api log_file n marker i size calls ≡ some r)
  unfolding try_built download
  try_built-returns n marker i size calls h =
      let c = call_of (take (suc i) marker ++ format_int size) (some 1) in
      elim (Result-cases (api calls c)) [
        | inr (e, bad) ↦ rw bad (_, refl)
        | inl (check, good) ↦ elim (Bool-cases (is_honoured marker i size check.marker)) [
          | inl honoured ↦ rw good (rw honoured (_, refl))
          | inr ignored ↦ rw good (rw ignored (page_to_end-returns n marker (c ∷ calls) h))
        ]
      ]

  after_probe-returns :
      (n : ℕ) (marker : Bytes) (size : ℕ) (i : Option ℕ) (calls : List Call)
      → left marker < n
      → (r : Skipped) × (after_probe api log_file n marker size i calls ≡ some r)
  after_probe-returns n marker zero none calls h = page_to_end-returns n marker calls h
  after_probe-returns n marker (suc size) none calls h = page_to_end-returns n marker calls h
  after_probe-returns n marker zero (some zero) calls h = page_to_end-returns n marker calls h
  after_probe-returns n marker (suc size) (some zero) calls h = page_to_end-returns n marker calls h
  after_probe-returns n marker zero (some (suc i)) calls h = page_to_end-returns n marker calls h
  after_probe-returns n marker (suc size) (some (suc i)) calls h =
      try_built-returns n marker (suc i) (suc size) calls h

  -- SkipToEnd returns, after at most as many pages as there is left behind the beginning of the file, if
  -- each answer with more behind it leads on.
  pub skip_to_end-returns :
      (n size : ℕ) (calls : List Call)
      → left marker_beginning ≤ n
      → (r : Skipped) × (skip_to_end api log_file n size calls ≡ some r)
  unfolding skip_to_end download
  skip_to_end-returns n size calls h =
      let c = call_of marker_beginning (some 1) in
      elim (Result-cases (api calls c)) [
        | inr (e, bad) ↦ rw bad (_, refl)
        | inl (probe, good) ↦ elim (Bool-cases probe.pending) [
          | inr over ↦ rw good (rw over (_, refl))
          | inl more ↦ rw good (
              rw more (
                after_probe-returns n probe.marker size (last_index_byte b':' probe.marker)
                  (c ∷ calls) (omega (arith, h, leads calls c probe good more))))
        ]
      ]
