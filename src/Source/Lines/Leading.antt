-- ===== src/Source/Lines/Leading.antt =====
-- When a chunk is reported to begin with continuation lines.
use rdstail.Prelude.{
  ℕ, ◌≡◌, ◌∙◌, refl, Bool, true, false, not, ◌&&◌, inl, inr, List, [], ◌∷◌, ◌++◌, Bytes, arith,
  Option-cases, some,
}
use rdstail.Record.{LogRecord}
use rdstail.Text.{split_on}
use rdstail.Source.Lines.{
  LineContext, Parsed, starts_record, is_empty, extend_last, push_record, add_line, add_lines,
  parse_records,
}

-- The first line that is not empty.
abbrev pub first_line : List Bytes → Bytes
first_line [] = []
first_line ([] ∷ lines) = first_line lines
first_line ((c ∷ line) ∷ lines) = c ∷ line

is_empty-append : (out : List LogRecord) (r : LogRecord) → is_empty (out ++ r ∷ []) ≡ false
is_empty-append [] r = refl
is_empty-append (x ∷ out) r = refl

is_empty-extend_last :
    (line : Bytes) (out : List LogRecord) {out' : List LogRecord}
    → extend_last line out ≡ some out'
    → is_empty out' ≡ false
unfolding extend_last
is_empty-extend_last line [] h = cc
is_empty-extend_last line (r ∷ []) h = ground arith
is_empty-extend_last line (r ∷ r' ∷ rs) h = ground arith

module _ (f : LineContext) (log_file : Bytes) where
  push_record-nonempty :
      (line : Bytes) (leading : Bool) (a : Parsed)
      → (is_empty (push_record f log_file line leading a).out ≡ false)
        × ((push_record f log_file line leading a).leading_cont ≡ leading)
  unfolding push_record
  push_record-nonempty line leading a = (is_empty-append a.out _, refl)

  -- Once there is a record, the flag stays.
  add_line-settled :
      (line : Bytes) (a : Parsed)
      → is_empty a.out ≡ false
      → (is_empty (add_line f log_file line a).out ≡ false)
        × ((add_line f log_file line a).leading_cont ≡ a.leading_cont)
  unfolding add_line
  add_line-settled line a h = elim (Option-cases (extend_last line a.out)) [
    | inl e ↦ ground (arith, e, push_record-nonempty line a.leading_cont a)
    | inr (out, e) ↦
        ground
          (arith, e, push_record-nonempty line a.leading_cont a, is_empty-extend_last line a.out e)
  ]

  add_lines-settled :
      (lines : List Bytes) (a : Parsed)
      → is_empty a.out ≡ false
      → (add_lines f log_file lines a).leading_cont ≡ a.leading_cont
  unfolding add_lines
  add_lines-settled [] a h = refl
  add_lines-settled (line ∷ lines) a h =
      let (filled, kept) = add_line-settled line a h in
      add_lines-settled lines (add_line f log_file line a) filled ∙ kept

  -- Neither empty nor a header.
  abbrev pub is_continuation : Bytes → Bool
  is_continuation line = not (is_empty line) && not (starts_record f line)

  add_line-first :
      (c : ℕ) (line : Bytes) (a : Parsed)
      → a.out ≡ []
      → a.leading_cont ≡ false
      → (is_empty (add_line f log_file (c ∷ line) a).out ≡ false)
        × ((add_line f log_file (c ∷ line) a).leading_cont ≡ is_continuation (c ∷ line))
  unfolding add_line
  add_line-first c line a h k = ground (
    arith,
    push_record-nonempty (c ∷ line) true a,
    push_record-nonempty (c ∷ line) a.leading_cont a,
  )

  add_lines-leading :
      (lines : List Bytes) (a : Parsed)
      → a.out ≡ []
      → a.leading_cont ≡ false
      → (add_lines f log_file lines a).leading_cont ≡ is_continuation (first_line lines)
  unfolding add_lines add_line
  add_lines-leading [] a h k = k
  add_lines-leading ([] ∷ lines) a h k = add_lines-leading lines a h k
  add_lines-leading ((c ∷ line) ∷ lines) a h k =
      let (filled, flag) = add_line-first c line a h k in
      unfold add_line in (add_lines-settled lines _ filled ∙ flag)

  -- A chunk is reported to begin with a continuation exactly when its first line that is not empty
  -- is no header: only then may the caller join it onto the entry before.
  pub parse_records-leading :
      (raw : Bytes)
      → (parse_records f log_file raw).1 ≡ is_continuation (first_line (split_on b'\n' raw))
  unfolding parse_records
  parse_records-leading [] = refl
  parse_records-leading (c ∷ raw) = add_lines-leading (split_on b'\n' (c ∷ raw)) _ refl refl
