-- ===== src/Source/Portion/Recovery.antt =====
-- Truncation recovery: how many calls are made, and when a cut line is fetched whole.
use rdstail.Prelude.{
  ℕ, zero, suc, ◌+◌, ◌≤◌, ◌≡◌, ◌≢◌, ◌⊎◌, inl, inr, refl, sym, ap, ◌∙◌, true, false, arith, List, [],
  ◌++◌, ◌∷◌, if◌then◌else◌, Bytes, Option, none, some, length, min, ◌==◌, Bool-cases,
}
use rdstail.Failure.{Failure, Result, ok, err, Result-cases}
use rdstail.Text.{has_byte}
use rdstail.Source.Truncation.{is_truncated, complete_lines, truncation_notice, count_byte}
use rdstail.Source.Truncation.Notice.{truncated_response}
use rdstail.Source.Portion.{
  Call, Response, RawPortion, raw_portion, pull_attempts, pull_raw, max_lines_per_call,
}

-- How many newlines there are.
abbrev pub newlines : Bytes → ℕ
newlines [] = 0
newlines (c ∷ s) = (if c == b'\n' then 1 else 0) + newlines s

-- The text is `before`, then `cut`, in which there is no newline, and the notice on a line of its own.
abbrev pub IsCutAfter : Bytes → Bytes → Bytes → Type 0
IsCutAfter before cut text =
    (text ≡ before ++ cut ++ b'\n' ∷ truncation_notice) × (has_byte b'\n' cut ≡ false)

count_byte-newlines : (s : Bytes) → count_byte b'\n' s ≡ newlines s
unfolding count_byte
count_byte-newlines [] = refl
count_byte-newlines (c ∷ s) = ap (λ n. (if c == b'\n' then 1 else 0) + n) (count_byte-newlines s)

complete_lines-newlines :
    (before cut : Bytes) (resp : Response)
    → IsCutAfter before cut resp.log_text
    → complete_lines resp.log_text ≡ newlines before
complete_lines-newlines before cut resp (e, one_line) =
    ap complete_lines e ∙ (truncated_response before cut one_line).2 ∙ count_byte-newlines before

module _ (api : List Call → Call → Result Response) (log_file marker : Bytes) where
  abbrev call : Option ℕ → Call
  call lines = record { log_file = log_file; marker = marker; lines = lines }

  pull_attempts-calls :
      (left : ℕ) (lines : Option ℕ) (calls : List Call)
      → (length calls + 1 ≤ length (pull_attempts api left log_file marker lines calls).1)
        × (length (pull_attempts api left log_file marker lines calls).1 ≤ length calls + 1 + left)
  unfolding pull_attempts
  pull_attempts-calls zero lines calls = ground arith
  pull_attempts-calls (suc left) lines calls = grind (arith, pull_attempts-calls left)

  -- Whatever the API answers, one read of a portion makes at least one call and at most five.
  pub pull_raw-calls :
      (calls : List Call)
      → (length calls + 1 ≤ length (pull_raw api log_file marker calls).1)
        × (length (pull_raw api log_file marker calls).1 ≤ length calls + 5)
  unfolding pull_raw
  pull_raw-calls calls = omega (arith, pull_attempts-calls 4 none calls)

  abbrev fewer : Response → Option ℕ
  fewer resp = some (min (complete_lines resp.log_text) max_lines_per_call)

  -- A whole answer ends the attempts.
  pull_whole :
      (left : ℕ) (lines : Option ℕ) (calls : List Call) (resp : Response) (raw : RawPortion)
      → api calls (call lines) ≡ ok resp
      → is_truncated resp.log_text ≡ false
      → (pull_attempts api left log_file marker lines calls).0 ≡ ok raw
      → raw.truncated ≡ 0
  unfolding pull_attempts raw_portion
  pull_whole zero lines calls resp raw answered whole h = ground arith
  pull_whole (suc left) lines calls resp raw answered whole h = ground arith

  -- A failure ends them without a portion.
  pull_failed :
      (left : ℕ) (lines : Option ℕ) (calls : List Call) (e : Failure) (raw : RawPortion)
      → api calls (call lines) ≡ err e
      → (pull_attempts api left log_file marker lines calls).0 ≢ ok raw
  unfolding pull_attempts
  pull_failed zero lines calls e raw failed = ground arith
  pull_failed (suc left) lines calls e raw failed = ground arith

  -- A cut answer with whole lines in it is asked for again, with fewer lines.
  pull_again :
      (left : ℕ) (lines : Option ℕ) (calls : List Call) (resp : Response)
      → api calls (call lines) ≡ ok resp
      → is_truncated resp.log_text ≡ true
      → (complete_lines resp.log_text == 0) ≡ false
      → pull_attempts api (suc left) log_file marker lines calls
        ≡ pull_attempts api left log_file marker (fewer resp) (call lines ∷ calls)
  unfolding pull_attempts
  pull_again left lines calls resp answered cut more = ground arith

  -- RDS appends its notice on a line of its own, and where it is asked for as many lines as were whole
  -- before the cut one, at most its limit, it does not cut the answer.
  module _
      (notice_ends : (calls : List Call) (resp : Response)
        → api calls (call none) ≡ ok resp
        → is_truncated resp.log_text ≡ true
        → (before : Bytes) × (cut : Bytes) × IsCutAfter before cut resp.log_text)
      (honours_lines : (calls : List Call) (resp resp' : Response) (before cut : Bytes)
        → api calls (call none) ≡ ok resp
        → IsCutAfter before cut resp.log_text
        → api (call none ∷ calls) (call (some (min (newlines before) max_lines_per_call)))
          ≡ ok resp'
        → is_truncated resp'.log_text ≡ false) where
    recovered :
        (calls : List Call) (raw : RawPortion) (resp : Response)
        → api calls (call none) ≡ ok resp
        → is_truncated resp.log_text ≡ true
        → (complete_lines resp.log_text == 0) ≡ false
        → (pull_raw api log_file marker calls).0 ≡ ok raw
        → raw.truncated ≡ 0
    unfolding pull_raw
    recovered calls raw resp answered cut more h =
        let again = rw (pull_again 3 none calls resp answered cut more) at h in
        let (before, rest, shape) = notice_ends calls resp answered cut in
        let fewer_is : fewer resp ≡ some (min (newlines before) max_lines_per_call) =
          ap (λ n. some (min n max_lines_per_call))
            (complete_lines-newlines before rest resp shape) in
        elim (Result-cases (api (call none ∷ calls) (call (fewer resp)))) [
          | inr (e, failed) ↦
              absurd (pull_failed 3 (fewer resp) (call none ∷ calls) e raw failed again)
          | inl (resp', answered') ↦
              pull_whole 3 (fewer resp) (call none ∷ calls) resp' raw answered'
                (honours_lines calls resp resp' before rest answered shape
                  (ap (λ lines. api (call none ∷ calls) (call lines)) (sym fewer_is) ∙ answered'))
                again
        ]

    -- Where RDS ends a cut answer with its notice on a line of its own, and does not cut the answer to a
    -- call that is limited to the lines that were whole in a cut one: a portion comes back with a cut
    -- line only if the first answer was cut in its very first line.
    pub pull_raw-recovers :
        (calls : List Call) (raw : RawPortion)
        → (pull_raw api log_file marker calls).0 ≡ ok raw
        → (raw.truncated ≡ 0)
          ⊎ ((resp : Response) × (before : Bytes) × (cut : Bytes) × (api calls (call none)
                ≡ ok resp)
              × IsCutAfter before cut resp.log_text
              × (newlines before ≡ 0))
    unfolding pull_raw
    pull_raw-recovers calls raw h = elim (Result-cases (api calls (call none))) [
      | inr (e, failed) ↦ absurd (pull_failed 4 none calls e raw failed h)
      | inl (resp, answered) ↦ elim (Bool-cases (is_truncated resp.log_text)) [
        | inr uncut ↦ inl (pull_whole 4 none calls resp raw answered uncut h)
        | inl cut ↦ elim (Bool-cases (complete_lines resp.log_text == 0)) [
          | inl at_first ↦
              let (before, rest, shape) = notice_ends calls resp answered cut in
              inr (
                resp,
                before,
                rest,
                answered,
                shape,
                ground (arith, at_first, complete_lines-newlines before rest resp shape),
              )
          | inr more ↦ inl (recovered calls raw resp answered cut more h)
        ]
      ]
    ]
