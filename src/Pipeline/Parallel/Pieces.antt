-- ===== src/Pipeline/Parallel/Pieces.antt =====
-- What the text of a wave is: what stands in the file, ended by a newline.
use rdstail.Prelude.{
  ℕ, suc, ◌+◌, ◌-◌, ◌≤◌, ◌==◌, ◌≡◌, ◌⊎◌, inl, inr, refl, sym, ap, subst, ◌∙◌, Bool, true, false,
  Option, none, some, [], ◌∷◌, Bytes, take, drop, length, arith, Bool-cases, Option-cases,
}
use rdstail.Text.{index_byte, last_index_byte}
use rdstail.Source.Ranges.{complete_end}
use rdstail.Source.Ranges.Prefixes.{take-add, take-take, last_index_byte-bound}
use rdstail.Source.Ranges.Cutting.{IsOwned, IsRead, IsNext, IsLast, IsStop, IsBegin}
use rdstail.Pipeline.Parallel.Lines.{starts_line, starts_line-append}

starts_line-index_byte :
    (b : Bool) (s : Bytes) (i : ℕ)
    → index_byte b'\n' s ≡ some i
    → starts_line b (take (suc i) s) ≡ true
unfolding index_byte starts_line
starts_line-index_byte b [] i h = absurd (ground (arith, h))
starts_line-index_byte b (c ∷ s) i h = elim (Bool-cases (c == b'\n')) [
  | inl ends ↦ let here : 0 ≡ i = ground (arith, ends, h) in rw (← here) ends
  | inr inside ↦ elim (Option-cases (index_byte b'\n' s)) [
    | inl nowhere ↦ absurd (ground (arith, inside, nowhere, h))
    | inr (j, there) ↦
        let next : suc j ≡ i = ground (arith, inside, there, h) in
        rw (← next) (starts_line-index_byte (c == b'\n') s j there)
  ]
]

starts_line-last_index_byte :
    (b : Bool) (s : Bytes) (i : ℕ)
    → last_index_byte b'\n' s ≡ some i
    → starts_line b (take (suc i) s) ≡ true
unfolding last_index_byte starts_line
starts_line-last_index_byte b [] i h = absurd (ground (arith, h))
starts_line-last_index_byte b (c ∷ s) i h = elim (Option-cases (last_index_byte b'\n' s)) [
  | inr (j, there) ↦
      let next : suc j ≡ i = ground (arith, there, h) in
      rw (← next) (starts_line-last_index_byte (c == b'\n') s j there)
  | inl nowhere ↦ elim (Bool-cases (c == b'\n')) [
    | inl ends ↦ let here : 0 ≡ i = ground (arith, ends, nowhere, h) in rw (← here) ends
    | inr inside ↦ absurd (ground (arith, inside, nowhere, h))
  ]
]

-- A newline stands before the offset.
abbrev IsEnded : Bytes → ℕ → Type 0
IsEnded content stop = starts_line true (take stop content) ≡ true

-- From a newline in what follows an offset.
starts_line-take :
    (content : Bytes) (from i : ℕ)
    → ((b : Bool) → starts_line b (take (suc i) (drop from content)) ≡ true)
    → IsEnded content (from + suc i)
starts_line-take content from i h =
    ap (starts_line true) (take-add from (suc i) content)
    ∙ starts_line-append true (take from content) (take (suc i) (drop from content))
    ∙ h (starts_line true (take from content))

IsNext-IsEnded : (content : Bytes) (from next : ℕ) → IsNext content from next → IsEnded content next
IsNext-IsEnded content from next (i, there, at) =
    let place : next ≡ from + suc i = omega (arith, at) in
    rw place
      (starts_line-take content from i (λ b. starts_line-index_byte b (drop from content) i there))

IsLast-IsEnded :
    (content : Bytes) (from stop : ℕ)
    → IsLast content from stop
    → (stop ≡ from) ⊎ IsEnded content stop
IsLast-IsEnded content from stop (buf, is_read, at) =
    elim (Option-cases (last_index_byte b'\n' buf)) [
      | inl nowhere ↦ inl (omega (arith, at, ap complete_end nowhere))
      | inr (i, there) ↦
          let end_is : complete_end (last_index_byte b'\n' buf) ≡ i + 1 = ap complete_end there in
          let inside : suc i ≤ length buf =
            omega (arith, last_index_byte-bound b'\n' buf, end_is) in
          let place : stop ≡ from + suc i = omega (arith, at, end_is) in
          let same_text : take (suc i) buf ≡ take (suc i) (drop from content) =
            ap (take (suc i)) is_read ∙ take-take (suc i) (length buf) (drop from content) inside in
          inr (
            rw place (
              starts_line-take content from i (λ b.
                ap (starts_line b) (sym same_text) ∙ starts_line-last_index_byte b buf i there)))
    ]

IsStop-IsEnded :
    (content : Bytes) (from : ℕ) (end : Option ℕ) (stop : ℕ)
    → IsStop content from end stop
    → (stop ≡ from) ⊎ IsEnded content stop
IsStop-IsEnded content from none stop s = IsLast-IsEnded content from stop s
IsStop-IsEnded content from (some e) stop (inl next) =
    inr (IsNext-IsEnded content (from + (e - 1 - from)) stop next)
IsStop-IsEnded content from (some e) stop (inr s) = IsLast-IsEnded content from stop s

IsBegin-bound :
    (content : Bytes) (from : ℕ) (line_start : Bool) (begin : ℕ)
    → IsBegin content from line_start begin
    → from ≤ begin
IsBegin-bound content from true begin h = omega (arith, h)
IsBegin-bound content from false begin (i, there, at) = omega (arith, at)

-- A text of the file up to an offset, ended by a newline where it is not empty.
abbrev pub IsPiece : Bytes → Bytes × ℕ → Type 0
IsPiece content (t, stop) =
    (t ≡ [])
    ⊎ ((begin : ℕ) × IsRead content begin t
        × (begin + length t ≡ stop)
        × (starts_line true t ≡ true))

-- What ends a text does not depend on what stands before it, if it is not empty.
ends_line :
    (content : Bytes) (begin : ℕ) (t : Bytes)
    → IsRead content begin t
    → IsEnded content (begin + length t)
    → starts_line true t ≡ true
unfolding starts_line
ends_line content begin [] is_read h = refl
ends_line content begin (c ∷ t) is_read h =
    let s : Bytes = c ∷ t in
    ap (starts_line (starts_line true (take begin content))) is_read
    ∙ (sym (starts_line-append true (take begin content) (take (length s) (drop begin content)))
        ∙ (ap (starts_line true) (sym (take-add begin (length s) content)) ∙ h))

pub IsOwned-IsPiece :
    (content : Bytes) (from : ℕ) (line_start : Bool) (end : Option ℕ) (t : Bytes) (stop : ℕ)
    → IsOwned content from line_start end (t, stop)
    → IsPiece content (t, stop)
IsOwned-IsPiece content from line_start end t stop (inl empty) = inl empty
IsOwned-IsPiece content from line_start end [] stop (inr o) = inl refl
IsOwned-IsPiece content from line_start end (c ∷ t) stop
      (inr (begin, begins, is_read, ends, stops)) =
    elim (IsStop-IsEnded content from end stop stops) [
      | inl nothing ↦
          absurd (omega (arith, nothing, ends, IsBegin-bound content from line_start begin begins))
      | inr ended ↦ inr (
        begin,
        is_read,
        ends,
        ends_line content begin (c ∷ t) is_read (subst (IsEnded content) (sym ends) ended),
      )
    ]
