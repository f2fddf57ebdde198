-- ===== src/Sink/Ack.antt =====
-- What it means that a batch was acknowledged.
use rdstail.Prelude.{
  ℕ, zero, suc, ◌+◌, ◌≡◌, ◌⊎◌, ◌∙◌, inl, inr, refl, sym, ap, Bool, true, false, Option, none, some,
  List, [], ◌∷◌, Bytes, arith, if◌then◌else◌, ◌||◌, Bool-cases, Option-cases, keep_if,
}
use rdstail.Prelude.Int.{ℤ}
use rdstail.Record.{LogRecord}
use rdstail.Failure.{Failure, has_cause, permanent, canceled, deadline_exceeded}
use rdstail.Sink.Retry.{after_pause, retry_from-again}
use rdstail.Sink.{tried, parked, Trace, Sink, Environment, endpoint}
use rdstail.Sink.Decorate.{
  retry_from, with_retry, further_attempts, park_batch, or_park, with_dlq, first_batch,
  FilterConfig, keeps, is_enabled, with_filter, write_kept, build, with_keep,
}

-- The records that a filter leaves for the sink.
abbrev pub wanted : Environment → Option FilterConfig → List LogRecord → List LogRecord
wanted x none recs = recs
wanted x (some c) recs = if is_enabled x c then keep_if (keeps x c) recs else recs

-- The batch needs no delivery, or the last thing that was done is that the sink accepted all of it,
-- or that all of it was parked under the sink's name.
abbrev pub IsHandled : Environment → Bytes → List LogRecord → Trace → Type 0
IsHandled x name recs t =
    (recs ≡ [])
    ⊎ (((before : Trace) × (t ≡ tried name recs none ∷ before))
        ⊎ ((payload : Bytes) × (x.marshal recs ≡ some payload)
            × ((before : Trace) × (t ≡ parked name (first_batch x recs) payload ∷ before))))

module _ (x : Environment) (name : Bytes) (answer : Trace → List LogRecord → Option Failure) where
  -- Under retries, nil means that the sink accepted the batch in its last Write.
  pub retry_from-accepted :
      (recs : List LogRecord) (left attempt : ℕ) (t : Trace)
      → (retry_from x (endpoint name answer) recs left attempt t).0 ≡ none
      → (before : Trace) × ((retry_from x (endpoint name answer) recs left attempt t).1
          ≡ tried name recs none ∷ before)
  unfolding retry_from endpoint
  retry_from-accepted recs zero attempt t h = elim (Option-cases (x.cancelled t)) [
    | inr (e, ended) ↦ absurd (ground (arith, ended, h))
    | inl live ↦
        (t, rw (live, retry_from) (ap (λ a. tried name recs a ∷ t) (ground (arith, live, h))))
  ]
  retry_from-accepted recs (suc left) attempt t h = elim (Option-cases (x.cancelled t)) [
    | inr (e, ended) ↦ absurd (ground (arith, ended, h))
    | inl live ↦ elim (Option-cases (answer t recs)) [
      | inl fine ↦ (t, ground (arith, live, fine))
      | inr (f, failed) ↦ elim (Bool-cases (has_cause permanent f)) [
        | inl final ↦ absurd (ground (arith, live, failed, final, h))
        | inr transient ↦
            elim (Option-cases (x.interrupted (after_pause x name answer recs attempt t))) [
              | inr (e, ended) ↦ absurd (ground (arith, live, failed, transient, ended, h))
              | inl awake ↦
                  let again =
                    retry_from-again x name answer recs left attempt t f live failed transient
                      awake in
                  let (before, e) =
                    retry_from-accepted recs left (attempt + 1)
                      (after_pause x name answer recs attempt t) (ap (λ r. r.0) (sym again) ∙ h) in
                  (before, ap (λ (r : Option Failure × Trace). r.1) again ∙ e)
            ]
      ]
    ]
  ]

  park_batch-parked :
      (recs : List LogRecord) (e : Failure) (t : Trace)
      → (park_batch x name recs e t).0 ≡ none
      → IsHandled x name recs (park_batch x name recs e t).1
  unfolding park_batch
  park_batch-parked [] e t h = inl refl
  park_batch-parked (r ∷ rs) e t h =
      elim (Bool-cases (has_cause canceled e || has_cause deadline_exceeded e)) [
        | inl ended ↦ absurd (ground (arith, ended, h))
        | inr failed ↦ elim (Option-cases (x.marshal (r ∷ rs))) [
          | inl bad ↦ absurd (ground (arith, failed, bad, h))
          | inr (payload, good) ↦ elim (Option-cases (x.park t name r.batch_id payload)) [
            | inr (e', full) ↦ absurd (ground (arith, failed, good, full, h))
            | inl done ↦ inr (inr (payload, good, (t, rw (failed, good, done, park_batch) refl)))
          ]
        ]
      ]

  or_park-IsHandled :
      (recs : List LogRecord) (r : Option Failure × Trace)
      → (r.0 ≡ none → (before : Trace) × (r.1 ≡ tried name recs none ∷ before))
      → (or_park x name recs r).0 ≡ none
      → IsHandled x name recs (or_park x name recs r).1
  or_park-IsHandled recs (none, t) accepted h = inr (inl (accepted refl))
  or_park-IsHandled recs (some e, t) accepted h = park_batch-parked recs e t h

  -- Under retries and, where there is one, the DLQ.
  abbrev guarded : Bool → ℤ → Sink
  guarded dlq max_attempts =
      let retried = with_retry x max_attempts (endpoint name answer) in
      if dlq then with_dlq x retried else retried

  guarded-IsHandled :
      (dlq : Bool) (max_attempts : ℤ) (t : Trace) (recs : List LogRecord)
      → ((guarded dlq max_attempts).write t recs).0 ≡ none
      → IsHandled x name recs ((guarded dlq max_attempts).write t recs).1
  unfolding with_dlq with_retry endpoint
  guarded-IsHandled true max_attempts t recs h =
      or_park-IsHandled recs _ (retry_from-accepted recs (further_attempts x max_attempts) 1 t) h
  guarded-IsHandled false max_attempts t recs h =
      inr (inl (retry_from-accepted recs (further_attempts x max_attempts) 1 t h))

  write_kept-IsHandled :
      (s : Sink) (recs : List LogRecord) (t : Trace)
      → ((kept : List LogRecord)
          → (s.write t kept).0 ≡ none
          → IsHandled x name kept (s.write t kept).1)
      → (write_kept s t recs).0 ≡ none
      → IsHandled x name recs (write_kept s t recs).1
  write_kept-IsHandled s [] t handled h = inl refl
  write_kept-IsHandled s (r ∷ rs) t handled h = handled (r ∷ rs) h

  filter-IsHandled :
      (c : FilterConfig) (s : Sink) (t : Trace) (recs : List LogRecord)
      → ((kept : List LogRecord)
          → (s.write t kept).0 ≡ none
          → IsHandled x name kept (s.write t kept).1)
      → ((with_filter x c s).write t recs).0 ≡ none
      → IsHandled x name (wanted x (some c) recs) ((with_filter x c s).write t recs).1
  unfolding with_filter with_keep
  filter-IsHandled c s t recs handled = go (is_enabled x c)
    where
      go :
          (on : Bool)
          → ((if on then with_keep (keeps x c) s else s).write t recs).0 ≡ none
          → IsHandled x name
              (if on then keep_if (keeps x c) recs else recs)
              ((if on then with_keep (keeps x c) s else s).write t recs).1
      go true h = write_kept-IsHandled s (keep_if (keeps x c) recs) t handled h
      go false h = handled recs h

  -- For the decorators as BuildAll stacks them around a concrete sink, with or without a DLQ and a
  -- filter, whatever the sink, the DLQ and the context answer: when Write returns nil, either no
  -- record was wanted, or the last thing done is that the sink accepted all wanted records in one
  -- Write, or that all of them were put into the DLQ under the sink's name.
  pub build-IsHandled :
      (dlq : Bool) (max_attempts : ℤ) (filter : Option FilterConfig) (t : Trace)
      (recs : List LogRecord)
      → ((build x dlq max_attempts filter (endpoint name answer)).write t recs).0 ≡ none
      → IsHandled x name
          (wanted x filter recs)
          ((build x dlq max_attempts filter (endpoint name answer)).write t recs).1
  unfolding build with_filter with_keep
  build-IsHandled dlq max_attempts none t recs h = guarded-IsHandled dlq max_attempts t recs h
  build-IsHandled dlq max_attempts (some c) t recs h =
      filter-IsHandled c (guarded dlq max_attempts) t recs (guarded-IsHandled dlq max_attempts t) h
