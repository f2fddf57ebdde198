-- ===== src/Source/Lines/Conservation.antt =====
-- The text that the records of parseRecords carry.
use rdstail.Prelude.{
  ◌≡◌, ◌∙◌, refl, ap, sym, Bool, true, inl, inr, some, List, [], ◌∷◌, ◌++◌, Bytes, append-nil,
  append_assoc, arith, Option-cases,
}
use rdstail.Record.{LogRecord, text}
use rdstail.Text.{split_on}
use rdstail.Source.Lines.{
  LineContext, Parsed, extend_last, push_record, add_line, add_lines, parse_records,
  join_continuation,
}

-- The lines, each ended by a newline, without the empty ones.
abbrev pub line_text : List Bytes → Bytes
line_text [] = []
line_text ([] ∷ lines) = line_text lines
line_text ((c ∷ line) ∷ lines) = (c ∷ line) ++ b'\n' ∷ line_text lines

pub text-append : (a b : List LogRecord) → text (a ++ b) ≡ text a ++ text b
text-append [] b = refl
text-append (r ∷ a) b =
    rw (text-append a b) (sym (append_assoc r.message (b'\n' ∷ text a) (text b)))

text-extend_last :
    (line : Bytes) (out : List LogRecord) {out' : List LogRecord}
    → extend_last line out ≡ some out'
    → text out' ≡ text out ++ line ++ b'\n' ∷ []
unfolding extend_last
text-extend_last line [] h = cc
text-extend_last line (r ∷ []) h = ground (arith, append_assoc r.message (b'\n' ∷ []) line)
text-extend_last line (r ∷ r' ∷ rs) h = elim (Option-cases (extend_last line (r' ∷ rs))) [
  | inl e ↦ ground (arith, e)
  | inr (rest, e) ↦ ground (
    arith,
    e,
    text-extend_last line (r' ∷ rs) e,
    append_assoc r.message (b'\n' ∷ text (r' ∷ rs)) line,
    append_assoc r.message (b'\n' ∷ text (r' ∷ rs) ++ line) (b'\n' ∷ []),
  )
]

-- What one line adds.
abbrev line_added : Bytes → Bytes
line_added line = line_text (line ∷ [])

module _ (f : LineContext) (log_file : Bytes) where
  text-push_record :
      (line : Bytes) (leading : Bool) (a : Parsed)
      → text (push_record f log_file line leading a).out ≡ text a.out ++ (line ++ b'\n' ∷ [])
  unfolding push_record
  text-push_record line leading a = text-append a.out _

  text-add_line :
      (line : Bytes) (a : Parsed)
      → text (add_line f log_file line a).out ≡ text a.out ++ line_added line
  unfolding add_line
  text-add_line [] a = sym (append-nil (text a.out))
  text-add_line (c ∷ line) a = elim (Option-cases (extend_last (c ∷ line) a.out)) [
    | inl e ↦
        ground (
          arith,
          e,
          text-push_record (c ∷ line) true a,
          text-push_record (c ∷ line) a.leading_cont a,
        )
    | inr (out, e) ↦ ground (
      arith,
      e,
      text-push_record (c ∷ line) true a,
      text-push_record (c ∷ line) a.leading_cont a,
      text-extend_last (c ∷ line) a.out e,
      append_assoc (text a.out) (c ∷ line) (b'\n' ∷ []),
    )
  ]

  line_text_cons :
      (line : Bytes) (lines : List Bytes)
      → line_text (line ∷ lines) ≡ line_added line ++ line_text lines
  line_text_cons [] lines = refl
  line_text_cons (c ∷ line) lines = sym (append_assoc (c ∷ line) (b'\n' ∷ []) (line_text lines))

  text-add_lines :
      (lines : List Bytes) (a : Parsed)
      → text (add_lines f log_file lines a).out ≡ text a.out ++ line_text lines
  unfolding add_lines
  text-add_lines [] a = sym (append-nil (text a.out))
  text-add_lines (line ∷ lines) a =
      text-add_lines lines (add_line f log_file line a)
      ∙ (rw (text-add_line line a) (append_assoc (text a.out) (line_added line) (line_text lines))
          ∙ ap (◌++◌ (text a.out)) (sym (line_text_cons line lines)))

  -- For every line parser, the records of a raw text carry its lines, in order and each once, and
  -- nothing else: their text is the raw text's without its empty lines.
  pub text-parse_records :
      (raw : Bytes) → text (parse_records f log_file raw).0 ≡ line_text (split_on b'\n' raw)
  unfolding parse_records
  text-parse_records [] = refl
  text-parse_records (c ∷ raw) = text-add_lines (split_on b'\n' (c ∷ raw)) _

-- Rejoining an entry that straddles two chunks keeps the text of both.
pub text-join_continuation :
    (prev next : LogRecord) {joined : LogRecord}
    → join_continuation prev next ≡ some joined
    → text (joined ∷ []) ≡ text (prev ∷ next ∷ [])
unfolding join_continuation
text-join_continuation prev next h =
    ground (arith, append_assoc prev.message (b'\n' ∷ next.message) (b'\n' ∷ []))
