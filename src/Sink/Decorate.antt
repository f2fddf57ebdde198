-- ===== src/Sink/Decorate.antt =====
-- internal/sink: the decorators that factory.BuildAll puts around a concrete sink.
use rdstail.Prelude.{
  ℕ, zero, suc, ◌+◌, ◌&&◌, ◌||◌, Bool, true, false, Option, none, some, List, [], ◌∷◌, Bytes, codes,
  same, ltb, leb, keep_if, if◌then◌else◌,
}
use rdstail.Prelude.Int.{ℤ, pos, negsuc}
use rdstail.Record.{LogRecord, Time, is_zero, before}
use rdstail.Failure.{Failure, has_cause, permanent, canceled, deadline_exceeded}
use rdstail.Sink.{waited, parked, park_failed, Trace, Sink, Environment, join}

-- `if len(kept) == 0 { return nil }; return d.inner.Write(ctx, kept)`
abbrev pub write_kept : Sink → Trace → List LogRecord → Option Failure × Trace
write_kept s t [] = (none, t)
write_kept s t (r ∷ rs) = s.write t (r ∷ rs)

-- keepDecorator, and filterDecorator with its predicate
unfoldable pub with_keep : (LogRecord → Bool) → Sink → Sink
with_keep keep s = record { name = s.name; write = λ t recs. write_kept s t (keep_if keep recs) }

-- WithSince
unfoldable pub with_since : Time → Sink → Sink
unfolding with_keep
with_since cutoff s =
    if is_zero cutoff
    then s
    else with_keep (λ r. if before r.timestamp cutoff then false else true) s

-- FilterConfig
pub record FilterConfig : Type 0 where
  pub min_severity : Bytes
  pub severities : List Bytes

unfoldable pub is_one_of : Bytes → List Bytes → Bool
is_one_of s [] = false
is_one_of s (x ∷ xs) = same s x || is_one_of s xs

-- severityRank, of a token in upper case
unfoldable pub rank_of : Bytes → ℕ
unfolding is_one_of
rank_of sev =
    if is_one_of sev (
      codes "DEBUG5"
      ∷ codes "DEBUG4"
      ∷ codes "DEBUG3"
      ∷ codes "DEBUG2"
      ∷ codes "DEBUG1"
      ∷ codes "DEBUG"
      ∷ [])
    then 10
    else if is_one_of sev
        (codes "LOG" ∷ codes "INFO" ∷ codes "NOTICE" ∷ codes "NOTE" ∷ codes "SYSTEM" ∷ [])
    then 20
    else if is_one_of sev (codes "WARNING" ∷ codes "WARN" ∷ [])
    then 30
    else if same sev (codes "ERROR")
    then 40
    else if same sev (codes "FATAL")
    then 50
    else if same sev (codes "PANIC")
    then 60
    else 0

module _ (x : Environment) where
  -- SeverityRank
  unfoldable pub severity_rank : Bytes → ℕ
  unfolding rank_of
  severity_rank sev = rank_of (x.to_upper sev)

  -- d.exact[strings.ToUpper(r.Severity)], where the keys are put in upper case too
  unfoldable pub is_listed : Bytes → List Bytes → Bool
  is_listed sev [] = false
  is_listed sev (s ∷ ss) = same (x.to_upper s) (x.to_upper sev) || is_listed sev ss

  -- filterDecorator.keep
  unfoldable pub keeps : FilterConfig → LogRecord → Bool
  unfolding severity_rank is_listed
  keeps c r = elim c.min_severity [
    | [] ↦ is_listed r.severity c.severities
    | ◌∷◌ m ms ↦
        let rank = severity_rank r.severity in ltb 0 rank && leb (severity_rank (m ∷ ms)) rank
  ]

  abbrev pub is_enabled : FilterConfig → Bool
  is_enabled c = elim c.min_severity [
    | [] ↦ elim c.severities [ [] ↦ false | ◌∷◌ s ss ↦ true ]
    | ◌∷◌ m ms ↦ true
  ]

  -- WithFilter
  unfoldable pub with_filter : FilterConfig → Sink → Sink
  unfolding keeps with_keep
  with_filter c s = if is_enabled c then with_keep (keeps c) s else s

  -- The loop of retryDecorator.Write, with so many attempts left after this one.
  unfoldable pub retry_from : Sink → List LogRecord → ℕ → ℕ → Trace → Option Failure × Trace
  retry_from s recs zero attempt t = elim (x.cancelled t) [
    | some e ↦ (some e, t)
    | none ↦ s.write t recs
  ]
  retry_from s recs (suc left) attempt t =
      let (answer, t') = s.write t recs in
      let t'' = waited (x.backoff t' attempt) ∷ t' in
      elim (x.cancelled t) [
        | some e ↦ (some e, t)
        | none ↦ elim answer [
          | none ↦ (none, t')
          | some f ↦ if has_cause permanent f then (some f, t') else (elim (x.interrupted t'') [
            | some e ↦ (some e, t'')
            | none ↦ retry_from s recs left (attempt + 1) t''
          ])
        ]
      ]

  -- How many attempts follow the first: cfg.MaxAttempts - 1, and 9 for a number that is not positive.
  abbrev pub further_attempts : ℤ → ℕ
  further_attempts (pos zero) = 9
  further_attempts (pos (suc n)) = n
  further_attempts (negsuc n) = 9

  -- WithRetry
  unfoldable pub with_retry : ℤ → Sink → Sink
  unfolding retry_from
  with_retry max_attempts s = record {
    name = s.name;
    write = λ t recs. retry_from s recs (further_attempts max_attempts) 1 t;
  }

  abbrev pub first_batch : List LogRecord → Bytes
  first_batch [] = []
  first_batch (r ∷ rs) = r.batch_id

  -- dlqDecorator.Write, after the inner Write failed with `e`
  unfoldable pub park_batch : Bytes → List LogRecord → Failure → Trace → Option Failure × Trace
  park_batch name recs e t =
      let batch = first_batch recs in
      if has_cause canceled e || has_cause deadline_exceeded e then (some e, t) else (elim recs [
        | [] ↦ (some e, t)
        | ◌∷◌ r rs ↦ elim (x.marshal (r ∷ rs)) [
          | none ↦ (some e, t)
          | some payload ↦ elim (x.park t name batch payload) [
            | some e' ↦ (join (some e) (some e'), park_failed ∷ t)
            | none ↦ (none, parked name batch payload ∷ t)
          ]
        ]
      ])

  abbrev pub or_park : Bytes → List LogRecord → Option Failure × Trace → Option Failure × Trace
  or_park name recs (none, t) = (none, t)
  or_park name recs (some e, t) = park_batch name recs e t

  -- WithDLQ, where there is a DLQ
  unfoldable pub with_dlq : Sink → Sink
  unfolding park_batch
  with_dlq s = record { name = s.name; write = λ t recs. or_park s.name recs (s.write t recs) }

  -- factory.BuildAll's wrapping of one concrete sink; the metrics decorator changes no answer.
  unfoldable pub build : Bool → ℤ → Option FilterConfig → Sink → Sink
  unfolding with_retry with_dlq with_filter
  build dlq max_attempts filter s =
      let retried = with_retry max_attempts s in
      let kept = if dlq then with_dlq retried else retried in
      elim filter [ none ↦ kept | some c ↦ with_filter c kept ]
