-- ===== src/Source/Lines/Size.antt =====
-- How long a record can become.
use rdstail.Prelude.{
  ℕ, ◌+◌, ◌≤◌, ◌≡◌, ◌⊎◌, refl, Bool, true, false, inl, inr, Option, none, some, List, [], ◌∷◌,
  Bytes, arith, length, length-append, leb→le, All, All-append, Option-cases, Bool-cases, ◌==◌, leb,
  if◌then◌else◌,
}
use rdstail.Record.{LogRecord}
use rdstail.Text.{split_on, has_byte, cons_first}
use rdstail.Source.Lines.{
  LineContext, Parsed, extend_last, push_record, add_line, add_lines, parse_records,
  max_record_bytes, continue_line, is_empty, starts_record,
}

-- A record is within the bound, or it is one line, which is never cut.
abbrev pub IsBounded : LogRecord → Type 0
IsBounded r = (length r.message ≤ max_record_bytes) ⊎ (has_byte b'\n' r.message ≡ false)

abbrev IsLine : Bytes → Type 0
IsLine line = has_byte b'\n' line ≡ false

All-cons_first :
    (x : ℕ) (ls : List Bytes) → (x == b'\n') ≡ false → All IsLine ls → All IsLine (cons_first x ls)
unfolding has_byte
All-cons_first x [] h k = ground arith
All-cons_first x (l ∷ ls) h k = (ground arith, k.1)

split_on-IsLine : (s : Bytes) → All IsLine (split_on b'\n' s)
unfolding split_on has_byte
split_on-IsLine [] = (refl, tt)
split_on-IsLine (x ∷ s) = elim (Bool-cases (x == b'\n')) [
  | inl e ↦ rw e (refl, split_on-IsLine s)
  | inr e ↦ rw e (All-cons_first x (split_on b'\n' s) e (split_on-IsLine s))
]

abbrev IfSome : (List LogRecord → Type 0) → Option (List LogRecord) → Type 0
IfSome P none = Unit
IfSome P (some out) = P out

extend_last-IsBounded :
    (line : Bytes) (out : List LogRecord)
    → All IsBounded out
    → IfSome (All IsBounded) (extend_last line out)
unfolding extend_last
extend_last-IsBounded line [] b = tt
extend_last-IsBounded line (r ∷ []) b =
    elim (Bool-cases (leb (length r.message + 1 + length line) max_record_bytes)) [
      | inl fits ↦
          rw fits
            (inl (omega (arith, leb→le _ _ fits, length-append {0} r.message (b'\n' ∷ line))), tt)
      | inr big ↦ rw big tt
    ]
extend_last-IsBounded line (r ∷ r' ∷ rs) b =
    let rest : IfSome (All IsBounded) (extend_last line (r' ∷ rs)) =
      extend_last-IsBounded line (r' ∷ rs) b.1 in
    elim (Option-cases (extend_last line (r' ∷ rs))) [
      | inl e ↦ rw e tt
      | inr (out, e) ↦ rw e (b.0, rw e at rest)
    ]

if_All :
    (t : Bool) (a b : Parsed)
    → All IsBounded a.out
    → All IsBounded b.out
    → All IsBounded (if t then a else b).out
if_All true a b h k = h
if_All false a b h k = k

module _ (f : LineContext) (log_file : Bytes) where
  push_record-IsBounded :
      (line : Bytes) (leading : Bool) (a : Parsed)
      → IsLine line
      → All IsBounded a.out
      → All IsBounded (push_record f log_file line leading a).out
  unfolding push_record
  push_record-IsBounded line leading a l b = All-append IsBounded a.out _ b (inr l, tt)

  continue_line-IsBounded :
      (line : Bytes) (a : Parsed) (o : Option (List LogRecord))
      → IsLine line
      → All IsBounded a.out
      → IfSome (All IsBounded) o
      → All IsBounded (continue_line f log_file line a o).out
  continue_line-IsBounded line a none l b h = push_record-IsBounded line a.leading_cont a l b
  continue_line-IsBounded line a (some out) l b h = h

  add_line-IsBounded :
      (line : Bytes) (a : Parsed)
      → IsLine line
      → All IsBounded a.out
      → All IsBounded (add_line f log_file line a).out
  unfolding add_line
  add_line-IsBounded line a l b = if_All (is_empty line) a _ b (
      if_All (starts_record f line) _ _ (push_record-IsBounded line a.leading_cont a l b) (
        if_All (is_empty a.out) _ _ (push_record-IsBounded line true a l b) (
          continue_line-IsBounded line a (extend_last line a.out) l b
            (extend_last-IsBounded line a.out b))))

  add_lines-IsBounded :
      (lines : List Bytes) (a : Parsed)
      → All IsLine lines
      → All IsBounded a.out
      → All IsBounded (add_lines f log_file lines a).out
  unfolding add_lines
  add_lines-IsBounded [] a l b = b
  add_lines-IsBounded (line ∷ lines) a l b =
      add_lines-IsBounded lines (add_line f log_file line a) l.1 (add_line-IsBounded line a l.0 b)

  -- For every line parser and every raw text, each record either holds at most `max_record_bytes`
  -- (1 MiB) of message, or is one single line: grouping alone never passes the bound.
  pub parse_records-IsBounded : (raw : Bytes) → All IsBounded (parse_records f log_file raw).0
  unfolding parse_records
  parse_records-IsBounded [] = tt
  parse_records-IsBounded (c ∷ raw) = add_lines-IsBounded _ _ (split_on-IsLine (c ∷ raw)) tt
