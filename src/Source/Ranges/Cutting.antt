-- ===== src/Source/Ranges/Cutting.antt =====
-- What cutRange returns of a text that was read from a file.
use rdstail.Prelude.{
  ℕ, zero, suc, ◌∷◌, ◌<◌, ◌+◌, ◌-◌, ◌≤◌, ◌≡◌, ◌⊎◌, inl, inr, refl, sym, ap, ap₂, subst, ◌∙◌, Bool,
  true, false, Option, none, some, [], ◌++◌, Bytes, take, drop, length, length-append, length-drop,
  arith, ltb, Bool-cases, Option-cases,
}
use rdstail.Text.{index_byte, last_index_byte}
use rdstail.Source.Ranges.{cut_from, cut_range, range_end, complete_end}
use rdstail.Source.Ranges.Prefixes.{
  take-take, drop-take, drop-drop, length-take, take-add, index_byte-take,
}

-- The next line starts behind the first newline at an offset or after it.
abbrev pub IsNext : Bytes → ℕ → ℕ → Type 0
IsNext content from next =
    (i : ℕ) × (index_byte b'\n' (drop from content) ≡ some i) × (next ≡ from + (i + 1))

-- What was read from an offset on.
abbrev pub IsRead : Bytes → ℕ → Bytes → Type 0
IsRead content at text = text ≡ take (length text) (drop at content)

-- Where the first line of a range starts.
abbrev pub IsBegin : Bytes → ℕ → Bool → ℕ → Type 0
IsBegin content buf_start true begin = begin ≡ buf_start
IsBegin content buf_start false begin = IsNext content buf_start begin

-- Behind the last complete line of what was read.
abbrev pub IsLast : Bytes → ℕ → ℕ → Type 0
IsLast content buf_start stop =
    (text : Bytes) × IsRead content buf_start text
    × (stop ≡ buf_start + complete_end (last_index_byte b'\n' text))

-- Where the last line of a range ends: where the next range begins, unless the file ended before.
abbrev pub IsStop : Bytes → ℕ → Option ℕ → ℕ → Type 0
IsStop content buf_start none stop = IsLast content buf_start stop
IsStop content buf_start (some end) stop =
    IsNext content (buf_start + (end - 1 - buf_start)) stop ⊎ IsLast content buf_start stop

-- The lines of the file that start in a range.
abbrev pub IsOwned : Bytes → ℕ → Bool → Option ℕ → Bytes × ℕ → Type 0
IsOwned content buf_start line_start end (text, stop) =
    (text ≡ [])
    ⊎ ((begin : ℕ) × IsBegin content buf_start line_start begin
        × IsRead content begin text
        × (begin + length text ≡ stop)
        × IsStop content buf_start end stop)

-- Where the last line of a range ends: behind the first newline at end - 1 or later; or, where what was
-- read has none there, behind the last newline of what was read, as for a range with no end.
abbrev pub IsStopped : Bytes → ℕ → Option ℕ → ℕ → Type 0
IsStopped content buf_start none stop = IsLast content buf_start stop
IsStopped content buf_start (some end) stop =
    IsNext content (buf_start + (end - 1 - buf_start)) stop
    ⊎ ((text : Bytes) × IsRead content buf_start text
        × (index_byte b'\n' (drop (end - 1 - buf_start) text) ≡ none)
        × (stop ≡ buf_start + complete_end (last_index_byte b'\n' text)))

-- No line starts in the range: the first that starts behind its start starts behind its end; or what was
-- read has no line that starts there.
abbrev pub IsNone : Bytes → ℕ → Bool → Option ℕ → ℕ → Type 0
IsNone content buf_start line_start end stop =
    (IsBegin content buf_start line_start stop
      × ((last : ℕ) × IsStopped content buf_start end last × (last < stop)))
    ⊎ ((line_start ≡ false)
        × IsStopped content buf_start end stop
        × ((text : Bytes) × IsRead content buf_start text × (index_byte b'\n' text ≡ none)))

-- The lines of the file that start in a range, or that there is none.
abbrev pub IsCut : Bytes → ℕ → Bool → Option ℕ → Bytes × ℕ → Type 0
IsCut content buf_start line_start end (text, stop) =
    ((text ≡ []) × IsNone content buf_start line_start end stop)
    ⊎ ((begin : ℕ) × IsBegin content buf_start line_start begin
        × IsRead content begin text
        × (begin + length text ≡ stop)
        × IsStopped content buf_start end stop)

IsStopped-IsStop :
    (content : Bytes) (buf_start : ℕ) (end : Option ℕ) (stop : ℕ)
    → IsStopped content buf_start end stop
    → IsStop content buf_start end stop
IsStopped-IsStop content buf_start none stop h = h
IsStopped-IsStop content buf_start (some end) stop (inl next) = inl next
IsStopped-IsStop content buf_start (some end) stop (inr (text, is_read, unseen, e)) =
    inr (text, is_read, e)

pub IsCut-IsOwned :
    (content : Bytes) (buf_start : ℕ) (line_start : Bool) (end : Option ℕ) (range : Bytes × ℕ)
    → IsCut content buf_start line_start end range
    → IsOwned content buf_start line_start end range
IsCut-IsOwned content buf_start line_start end (text, stop) (inl (nothing, why)) = inl nothing
IsCut-IsOwned content buf_start line_start end (text, stop) (inr (b, begins, is_read, e, stops)) =
    inr (b, begins, is_read, e, IsStopped-IsStop content buf_start end stop stops)

drop-beyond : (n : ℕ) (s : Bytes) → length s ≤ n → drop n s ≡ []
drop-beyond zero [] h = refl
drop-beyond (suc n) [] h = refl
drop-beyond zero (x ∷ s) h = absurd (omega (arith, h))
drop-beyond (suc n) (x ∷ s) h = drop-beyond n s (omega (arith, h))

module _ (content : Bytes) (buf_start : ℕ) (line_start : Bool) (end : Option ℕ) where
  cut_from-IsCut :
      (text : Bytes) (end_idx from : ℕ)
      → IsRead content buf_start text
      → end_idx ≤ length text
      → IsBegin content buf_start line_start (buf_start + from)
      → IsStopped content buf_start end (buf_start + end_idx)
      → IsCut content buf_start line_start end (cut_from text buf_start end_idx from)
  cut_from-IsCut text end_idx from is_read inside begins stops =
      elim (Bool-cases (ltb end_idx from)) [
        | inl short ↦
            rw short (inl (refl, inl (begins, (buf_start + end_idx, stops, ground (arith, short)))))
        | inr long ↦
            let k = end_idx - from in
            let order : from ≤ end_idx = ground (arith, long) in
            let end_is : end_idx ≡ from + k = omega (arith, order) in
            let size : length (drop from (take end_idx text)) ≡ k =
              length-drop from (take end_idx text)
              ∙ ap (λ n. n - from) (length-take end_idx text inside) in
            let body : drop from (take end_idx text) ≡ take k (drop (buf_start + from) content) =
              ap (λ t. drop from (take end_idx t)) is_read
              ∙ ap (drop from) (take-take end_idx (length text) (drop buf_start content) inside)
              ∙ ap (λ e. drop from (take e (drop buf_start content))) end_is
              ∙ drop-take from k (drop buf_start content)
              ∙ ap (take k) (drop-drop buf_start from content) in
            rw long (
              inr (
                buf_start + from,
                begins,
                body ∙ ap (λ n. take n (drop (buf_start + from) content)) (sym size),
                omega (arith, size, order),
                stops,
              ))
      ]

-- A newline of what was read stands in the file too.
pub IsNext-IsRead :
    (content : Bytes) (at : ℕ) (text : Bytes) (from i : ℕ)
    → IsRead content at text
    → from ≤ length text
    → index_byte b'\n' (drop from text) ≡ some i
    → IsNext content (at + from) (at + (from + i + 1))
IsNext-IsRead content at text from i is_read inside there =
    let k = length text - from in
    let split : length text ≡ from + k = omega (arith, inside) in
    let body : drop from text ≡ take k (drop (at + from) content) =
      ap (drop from) is_read
      ∙ ap (λ n. drop from (take n (drop at content))) split
      ∙ drop-take from k (drop at content)
      ∙ ap (take k) (drop-drop at from content) in
    (
      i,
      index_byte-take b'\n' k (drop (at + from) content) i
          (ap (index_byte b'\n') (sym body) ∙ there),
      omega arith,
    )

pub cut_range-IsCut :
    (content : Bytes) (buf_start : ℕ) (line_start : Bool) (end : Option ℕ) (text : Bytes)
    (end_idx : ℕ)
    → IsRead content buf_start text
    → end_idx ≤ length text
    → IsStopped content buf_start end (buf_start + end_idx)
    → IsCut content buf_start line_start end (cut_range text buf_start line_start end_idx)
unfolding cut_range
cut_range-IsCut content buf_start true end text end_idx is_read inside stops =
    cut_from-IsCut content buf_start true end text end_idx 0 is_read inside (omega arith) stops
cut_range-IsCut content buf_start false end text end_idx is_read inside stops =
    elim (Option-cases (index_byte b'\n' text)) [
      | inl nowhere ↦ rw nowhere (inl (refl, inr (refl, stops, (text, is_read, nowhere))))
      | inr (i, there) ↦ rw there (
          cut_from-IsCut content buf_start false end text end_idx (i + 1) is_read inside
            (
              i,
              index_byte-take b'\n' (length text) (drop buf_start content) i
                  (ap (index_byte b'\n') (sym is_read) ∙ there),
              refl,
            )
            stops)
    ]

pub range_end-IsStopped :
    (content : Bytes) (buf_start : ℕ) (end : Option ℕ) (text : Bytes) (idx : ℕ)
    → IsRead content buf_start text
    → range_end text buf_start end ≡ some idx
    → IsStopped content buf_start end (buf_start + idx)
unfolding range_end
range_end-IsStopped content buf_start none text idx is_read h = absurd (ground (arith, h))
range_end-IsStopped content buf_start (some e) text idx is_read h =
    let from = e - 1 - buf_start in
    elim (Option-cases (index_byte b'\n' (drop from text))) [
      | inl nowhere ↦ absurd (ground (arith, h, nowhere))
      | inr (i, there) ↦
          subst (λ n. IsStopped content buf_start (some e) (buf_start + n))
            (ground (arith, h, there))
            (inl (
              IsNext-IsRead content buf_start text from i is_read (ground (arith, h, there)) there))
    ]

pub last-IsStopped :
    (content : Bytes) (buf_start : ℕ) (end : Option ℕ) (text : Bytes)
    → IsRead content buf_start text
    → range_end text buf_start end ≡ none
    → IsStopped content buf_start end (buf_start + complete_end (last_index_byte b'\n' text))
unfolding range_end
last-IsStopped content buf_start none text is_read h = (text, is_read, refl)
last-IsStopped content buf_start (some e) text is_read h =
    let from = e - 1 - buf_start in
    elim (Option-cases (index_byte b'\n' (drop from text))) [
      | inl nowhere ↦ inr (text, is_read, nowhere, refl)
      | inr (i, there) ↦ elim (Bool-cases (ltb from (length text))) [
        | inl inside ↦ absurd (ground (arith, inside, there, h))
        | inr outside ↦ inr (
          text,
          is_read,
          rw (drop-beyond from text (ground (arith, outside)), index_byte) refl,
          refl,
        )
      ]
    ]

pub IsRead-append :
    (content : Bytes) (at : ℕ) (text more : Bytes)
    → IsRead content at text
    → IsRead content (at + length text) more
    → IsRead content at (text ++ more)
IsRead-append content at text more is_read then_read =
    let rest : more ≡ take (length more) (drop (length text) (drop at content)) =
      then_read ∙ ap (take (length more)) (sym (drop-drop at (length text) content)) in
    ap₂ (λ a b. a ++ b) is_read rest
    ∙ sym (take-add (length text) (length more) (drop at content))
    ∙ ap (λ n. take n (drop at content)) (sym (length-append text more))
