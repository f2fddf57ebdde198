-- ===== src/Source/Truncation/Notice.antt =====
-- What is cut off a truncated response, and how many of its lines are whole.
use rdstail.Prelude.{
  ℕ, suc, ◌+◌, ◌≡◌, ◌∙◌, refl, ap, true, false, [], ◌∷◌, ◌++◌, arith, Bytes, length, append_assoc,
  take, drop, same_refl, length-append, ◌-◌,
}
use rdstail.Text.{last_index_byte-split, has_byte}
use rdstail.Source.Truncation.{
  truncation_notice, trim_newlines, has_suffix, count_byte, trim_one_newline, is_truncated,
  strip_truncation_notice, complete_lines,
}

-- A text whose end is no newline is trimmed to itself.
trim_newlines-append :
    (p : Bytes) (c : ℕ) (s : Bytes)
    → trim_newlines (c ∷ s) ≡ c ∷ s
    → trim_newlines (p ++ c ∷ s) ≡ p ++ c ∷ s
unfolding trim_newlines
trim_newlines-append [] c s h = h
trim_newlines-append (x ∷ []) c s h = rw (trim_newlines-append [] c s h)
trim_newlines-append (x ∷ y ∷ p) c s h = rw (trim_newlines-append (y ∷ p) c s h)

take_through : (p s : Bytes) (c : ℕ) → take (suc (length p)) (p ++ c ∷ s) ≡ p ++ c ∷ []
take_through [] s c = refl
take_through (x ∷ p) s c = ap (◌∷◌ x) (take_through p s c)

drop-length : (p s : Bytes) → drop (length p) (p ++ s) ≡ s
drop-length [] s = refl
drop-length (x ∷ p) s = drop-length p s

has_suffix-append : (p s : Bytes) → has_suffix (p ++ s) s ≡ true
unfolding has_suffix
has_suffix-append p s =
    let before : length (p ++ s) - length s ≡ length p = omega (arith, length-append {0} p s) in
    rw (before, drop-length p s, same_refl s) (ground (arith, length-append {0} p s))

trim_one_newline-append : (p : Bytes) → trim_one_newline (p ++ b'\n' ∷ []) ≡ p
unfolding trim_one_newline
trim_one_newline-append [] = refl
trim_one_newline-append (x ∷ []) = refl
trim_one_newline-append (x ∷ y ∷ p) = ap (◌∷◌ x) (trim_one_newline-append (y ∷ p))

count_byte-append : (c : ℕ) (p s : Bytes) → count_byte c (p ++ s) ≡ count_byte c p + count_byte c s
unfolding count_byte
count_byte-append c [] s = omega arith
count_byte-append c (x ∷ p) s = omega (arith, count_byte-append c p s)

count_byte-absent : (c : ℕ) (s : Bytes) → has_byte c s ≡ false → count_byte c s ≡ 0
unfolding count_byte has_byte
count_byte-absent c [] h = refl
count_byte-absent c (x ∷ s) h = ground (arith, count_byte-absent c s)

-- A text before the notice and the newline before it.
module _ (body : Bytes) where
  response : Bytes
  response = body ++ b'\n' ∷ truncation_notice

  trim-response : trim_newlines response ≡ response
  unfolding response trim_newlines
  trim-response = trim_newlines-append body b'\n' truncation_notice refl

  strip-response : strip_truncation_notice response ≡ body ++ b'\n' ∷ []
  unfolding strip_truncation_notice
  strip-response = rw trim-response (
      unfold response in
      rw (last_index_byte-split b'\n' body truncation_notice (unfold has_byte in refl))
        (take_through body truncation_notice b'\n'))

  is_truncated-response : is_truncated response ≡ true
  unfolding is_truncated
  is_truncated-response = rw trim-response (
      unfold response in
      rw (← append_assoc body (b'\n' ∷ []) truncation_notice)
        (has_suffix-append (body ++ b'\n' ∷ []) truncation_notice))

  complete_lines-response : complete_lines response ≡ count_byte b'\n' body
  unfolding complete_lines
  complete_lines-response = rw strip-response (rw (trim_one_newline-append body))

-- A response that RDS cut after the text `whole` and the part `cut` of one line, and that ends in
-- the notice on a line of its own: it is recognised, stripping leaves exactly `whole` and `cut`, and
-- the complete lines are the newlines of `whole`, so the cut line is not counted.
pub truncated_response :
    (whole cut : Bytes)
    → has_byte b'\n' cut ≡ false
    → (is_truncated (whole ++ cut ++ b'\n' ∷ truncation_notice) ≡ true)
      × (strip_truncation_notice (whole ++ cut ++ b'\n' ∷ truncation_notice)
          ≡ whole ++ cut ++ b'\n' ∷ [])
      × (complete_lines (whole ++ cut ++ b'\n' ∷ truncation_notice) ≡ count_byte b'\n' whole)
unfolding response
truncated_response whole cut h = (
  is_truncated-response (whole ++ cut),
  strip-response (whole ++ cut),
  complete_lines-response (whole ++ cut)
      ∙ omega (arith, count_byte-append b'\n' whole cut, count_byte-absent b'\n' cut h),
)
