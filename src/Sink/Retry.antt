-- ===== src/Sink/Retry.antt =====
-- How often a concrete sink is tried under WithRetry.
use rdstail.Prelude.{
  ℕ, zero, suc, ◌+◌, ◌≤◌, ◌≡◌, ◌⊎◌, inl, inr, refl, ap, sym, subst, ◌∙◌, true, false, Option, none,
  some, List, [], ◌∷◌, Bytes, arith, Bool-cases, Option-cases, IsIn, further,
}
use rdstail.Prelude.Int.{ℤ}
use rdstail.Record.{LogRecord}
use rdstail.Failure.{Failure, has_cause, permanent}
use rdstail.Sink.{Act, Sink, tried, waited, Trace, Environment, endpoint}
use rdstail.Sink.Decorate.{retry_from, with_retry, further_attempts}

-- How often a sink was written to.
abbrev pub tries : Trace → ℕ
tries [] = 0
tries (tried name recs answer ∷ t) = suc (tries t)
tries (a ∷ t) = tries t

-- What is done before the attempt that follows a failure.
abbrev pub after_pause :
    Environment
    → Bytes
    → (Trace → List LogRecord → Option Failure)
    → List LogRecord
    → ℕ
    → Trace
    → Trace
after_pause x name answer recs attempt t =
    let t' = tried name recs (answer t recs) ∷ t in waited (x.backoff t' attempt) ∷ t'

again_from :
    (x : Environment) (s : Sink) (recs : List LogRecord) (left attempt : ℕ) (t : Trace)
    (f : Failure)
    → let t'' = waited (x.backoff (s.write t recs).1 attempt) ∷ (s.write t recs).1 in
      x.cancelled t ≡ none
      → (s.write t recs).0 ≡ some f
      → has_cause permanent f ≡ false
      → x.interrupted t'' ≡ none
      → retry_from x s recs (suc left) attempt t ≡ retry_from x s recs left (attempt + 1) t''
unfolding retry_from
again_from x s recs left attempt t f live failed transient awake =
    rw (live, failed, transient, awake, retry_from) refl

-- After a failure that is not permanent the next attempt follows.
pub retry_from-again :
    (x : Environment) (name : Bytes) (answer : Trace → List LogRecord → Option Failure)
    (recs : List LogRecord) (left attempt : ℕ) (t : Trace) (f : Failure)
    → x.cancelled t ≡ none
    → answer t recs ≡ some f
    → has_cause permanent f ≡ false
    → x.interrupted (after_pause x name answer recs attempt t) ≡ none
    → retry_from x (endpoint name answer) recs (suc left) attempt t
      ≡ retry_from x
          (endpoint name answer)
          recs
          left
          (attempt + 1)
          (after_pause x name answer recs attempt t)
unfolding endpoint
retry_from-again x name answer recs left attempt t f live failed transient awake =
    again_from x (endpoint name answer) recs left attempt t f live failed transient awake

module _ (x : Environment) (name : Bytes) (answer : Trace → List LogRecord → Option Failure)
    (recs : List LogRecord) where
  -- What was done before a Write stays in the trace.
  pub retry_from-keeps :
      (left attempt : ℕ) (t : Trace) (a : Act)
      → IsIn a t
      → IsIn a (retry_from x (endpoint name answer) recs left attempt t).1
  unfolding retry_from endpoint
  retry_from-keeps zero attempt t a h = elim (Option-cases (x.cancelled t)) [
    | inr (e, ended) ↦ rw (ended, retry_from) h
    | inl live ↦ rw (live, retry_from) (further h)
  ]
  retry_from-keeps (suc left) attempt t a h = elim (Option-cases (x.cancelled t)) [
    | inr (e, ended) ↦ rw (ended, retry_from) h
    | inl live ↦ elim (Option-cases (answer t recs)) [
      | inl fine ↦ rw (live, fine, retry_from) (further h)
      | inr (f, failed) ↦ elim (Bool-cases (has_cause permanent f)) [
        | inl final ↦ rw (live, failed, final, retry_from) (further h)
        | inr transient ↦
            let t'' = after_pause x name answer recs attempt t in
            let kept : IsIn a t'' = further (further h) in
            elim (Option-cases (x.interrupted t'')) [
              | inr (e, ended) ↦ rw (live, failed, transient, ended, retry_from) kept
              | inl awake ↦
                  subst (λ (r : Option Failure × Trace). IsIn a r.1)
                    (sym (
                      retry_from-again x name answer recs left attempt t f live failed transient
                        awake))
                    (retry_from-keeps left (attempt + 1) t'' a kept)
            ]
      ]
    ]
  ]

  retry_from-tries :
      (left attempt : ℕ) (t : Trace)
      → tries (retry_from x (endpoint name answer) recs left attempt t).1 ≤ tries t + left + 1
  unfolding retry_from endpoint
  retry_from-tries zero attempt t = ground arith
  retry_from-tries (suc left) attempt t = grind (arith, retry_from-tries left)

  -- Whatever the sink answers, one Write under the retry decorator tries it at most as often as is
  -- configured, and at most 10 times where no positive number is.
  pub with_retry-tries :
      (max_attempts : ℤ) (t : Trace)
      → tries ((with_retry x max_attempts (endpoint name answer)).write t recs).1
        ≤ tries t + further_attempts x max_attempts + 1
  unfolding with_retry
  with_retry-tries max_attempts t = retry_from-tries (further_attempts x max_attempts) 1 t

  module _ (calm : (t : Trace) → x.cancelled t ≡ none)
      (awake : (t : Trace) → x.interrupted t ≡ none) where
    retry_from-gives_up :
        (left attempt : ℕ) (t : Trace) (e : Failure)
        → (retry_from x (endpoint name answer) recs left attempt t).0 ≡ some e
        → (has_cause permanent e ≡ true)
          ⊎ (tries (retry_from x (endpoint name answer) recs left attempt t).1 ≡ tries t + left + 1)
    unfolding retry_from endpoint
    retry_from-gives_up zero attempt t e h = ground (arith, calm t, h)
    retry_from-gives_up (suc left) attempt t e h = elim (Option-cases (answer t recs)) [
      | inl fine ↦ absurd (ground (arith, calm t, fine, h))
      | inr (f, failed) ↦ elim (Bool-cases (has_cause permanent f)) [
        | inl final ↦ inl (ground (arith, calm t, failed, final, h))
        | inr transient ↦
            let again =
              retry_from-again x name answer recs left attempt t f (calm t) failed transient
                (awake _) in
            let rest =
              retry_from-gives_up left (attempt + 1) (after_pause x name answer recs attempt t) e
                (ap (λ r. r.0) (sym again) ∙ h) in
            elim rest [
              | inl final ↦ inl final
              | inr all ↦
                  inr (ap (λ (r : Option Failure × Trace). tries r.1) again ∙ all ∙ omega arith)
            ]
      ]
    ]

    -- With a context that is not ended, a Write under the retry decorator fails only with a permanent
    -- error or after as many attempts as are configured.
    pub with_retry-gives_up :
        (max_attempts : ℤ) (t : Trace) (e : Failure)
        → ((with_retry x max_attempts (endpoint name answer)).write t recs).0 ≡ some e
        → (has_cause permanent e ≡ true)
          ⊎ (tries ((with_retry x max_attempts (endpoint name answer)).write t recs).1
              ≡ tries t + further_attempts x max_attempts + 1)
    unfolding with_retry
    with_retry-gives_up max_attempts t e h =
        retry_from-gives_up (further_attempts x max_attempts) 1 t e h
