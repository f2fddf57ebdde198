-- ===== src/Pipeline/Parallel/Lines.antt =====
-- Log text without its empty lines, read byte by byte, so that it can be cut anywhere.
use rdstail.Prelude.{
  ℕ, ◌≤◌, ◌==◌, ◌≡◌, inl, inr, refl, ap, ◌∙◌, Bool, true, false, List, [], ◌∷◌, ◌++◌, Bytes, length,
  arith, append-nil, if◌then◌else◌, Bool-cases,
}
use rdstail.Text.{split_on, cons_first}
use rdstail.Source.Lines.Conservation.{line_text}

-- `at_start`: whether the text begins at the start of a line.
unfoldable pub no_blanks : Bool → Bytes → Bytes
no_blanks at_start [] = []
no_blanks true (c ∷ s) = if c == b'\n' then no_blanks true s else c ∷ no_blanks false s
no_blanks false (c ∷ s) = if c == b'\n' then c ∷ no_blanks true s else c ∷ no_blanks false s

-- Whether the end of the text is the start of a line.
unfoldable pub starts_line : Bool → Bytes → Bool
starts_line at_start [] = at_start
starts_line at_start (c ∷ s) = starts_line (c == b'\n') s

pub no_blanks-append :
    (b : Bool) (s t : Bytes) → no_blanks b (s ++ t) ≡ no_blanks b s ++ no_blanks (starts_line b s) t
unfolding no_blanks starts_line
no_blanks-append b [] t = refl
no_blanks-append true (c ∷ s) t =
    ground (arith, no_blanks-append true s t, no_blanks-append false s t)
no_blanks-append false (c ∷ s) t =
    ground (arith, no_blanks-append true s t, no_blanks-append false s t)

pub starts_line-append :
    (b : Bool) (s t : Bytes) → starts_line b (s ++ t) ≡ starts_line (starts_line b s) t
unfolding starts_line
starts_line-append b [] t = refl
starts_line-append b (c ∷ s) t = starts_line-append (c == b'\n') s t

-- The blank lines that go do not change where the text ends.
pub starts_line-no_blanks : (b : Bool) (s : Bytes) → starts_line b (no_blanks b s) ≡ starts_line b s
unfolding no_blanks starts_line
starts_line-no_blanks b [] = refl
starts_line-no_blanks true (c ∷ s) =
    ground (arith, starts_line-no_blanks true s, starts_line-no_blanks false s)
starts_line-no_blanks false (c ∷ s) =
    ground (arith, starts_line-no_blanks true s, starts_line-no_blanks false s)

pub no_blanks-no_blanks : (b : Bool) (s : Bytes) → no_blanks b (no_blanks b s) ≡ no_blanks b s
unfolding no_blanks
no_blanks-no_blanks b [] = refl
no_blanks-no_blanks true (c ∷ s) =
    ground (arith, no_blanks-no_blanks true s, no_blanks-no_blanks false s)
no_blanks-no_blanks false (c ∷ s) =
    ground (arith, no_blanks-no_blanks true s, no_blanks-no_blanks false s)

pub no_blanks-bound : (b : Bool) (s : Bytes) → length (no_blanks b s) ≤ length s
unfolding no_blanks
no_blanks-bound b [] = omega arith
no_blanks-bound true (c ∷ s) = ground (arith, no_blanks-bound true s, no_blanks-bound false s)
no_blanks-bound false (c ∷ s) = ground (arith, no_blanks-bound true s, no_blanks-bound false s)

-- A text that loses nothing at the start of a line loses nothing elsewhere.
pub no_blanks-whole : (b : Bool) (s : Bytes) → no_blanks true s ≡ s → no_blanks b s ≡ s
unfolding no_blanks
no_blanks-whole true s h = h
no_blanks-whole false [] h = refl
no_blanks-whole false (c ∷ s) h = elim (Bool-cases (c == b'\n')) [
  | inr inside ↦ ground (arith, inside, h)
  | inl ends ↦ absurd (ground (arith, ends, ap length h, no_blanks-bound true s))
]

-- The same where the first line was begun before.
abbrev begun_text : List Bytes → Bytes
begun_text [] = b'\n' ∷ []
begun_text (l ∷ ls) = l ++ b'\n' ∷ line_text ls

line_text-cons_first : (c : ℕ) (ls : List Bytes) → line_text (cons_first c ls) ≡ c ∷ begun_text ls
line_text-cons_first c [] = refl
line_text-cons_first c (l ∷ ls) = refl

begun_text-cons_first : (c : ℕ) (ls : List Bytes) → begun_text (cons_first c ls) ≡ c ∷ begun_text ls
begun_text-cons_first c [] = refl
begun_text-cons_first c (l ∷ ls) = refl

split_on-texts :
    (s : Bytes)
    → (line_text (split_on b'\n' s) ≡ no_blanks true (s ++ b'\n' ∷ []))
      × (begun_text (split_on b'\n' s) ≡ no_blanks false (s ++ b'\n' ∷ []))
unfolding split_on no_blanks
split_on-texts [] = (refl, refl)
split_on-texts (c ∷ s) = ground (
  arith,
  split_on-texts s,
  line_text-cons_first c (split_on b'\n' s),
  begun_text-cons_first c (split_on b'\n' s),
)

-- The lines of a text, each ended by a newline, without the empty ones.
pub line_text-split_on :
    (s : Bytes) → line_text (split_on b'\n' s) ≡ no_blanks true (s ++ b'\n' ∷ [])
line_text-split_on s = (split_on-texts s).0

-- Text that ends a line is not changed by one more newline.
pub no_blanks-ended :
    (b : Bool) (s : Bytes) → starts_line b s ≡ true → no_blanks b (s ++ b'\n' ∷ []) ≡ no_blanks b s
unfolding no_blanks
no_blanks-ended b s h = no_blanks-append b s (b'\n' ∷ []) ∙ (rw h (append-nil (no_blanks b s)))
