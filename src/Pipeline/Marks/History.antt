-- ===== src/Pipeline/Marks/History.antt =====
-- Which marker a rewind starts from.
use rdstail.Prelude.{
  ◌-◌, ◌≤◌, ◌<◌, ◌≡◌, ◌⊎◌, inl, inr, refl, ap, none, some, List, [], ◌∷◌, ◌++◌, Bytes, arith,
  length, length-drop, All, Option-cases, ltb, Bool-cases, take, take-append-drop, sym,
}
use rdstail.Record.{Time}
use rdstail.Pipeline.Marks.{MarkAt, marks_kept, record_mark, newest_until, mark_before}

-- Splits the marks at the one that was chosen.
pub record ChosenAt (t : Time) (marks : List MarkAt) (m : MarkAt) : Type 0 where
  pub older : List MarkAt
  pub newer : List MarkAt
  pub split : marks ≡ older ++ m ∷ newer
  pub in_time : m.t ≤ t
  pub too_late : All (λ n. t < n.t) newer

newest_until-none :
    (t : Time) (marks : List MarkAt) → newest_until t marks ≡ none → All (λ n. t < n.t) marks
unfolding newest_until
newest_until-none t [] h = tt
newest_until-none t (m ∷ ms) h = elim (Option-cases (newest_until t ms)) [
  | inl none' ↦ (ground (arith, none', h), newest_until-none t ms none')
  | inr (marker, found) ↦ absurd (ground (arith, found, h))
]

newest_until-some :
    (t : Time) (marks : List MarkAt) (marker : Bytes)
    → newest_until t marks ≡ some marker
    → (m : MarkAt) × (m.marker ≡ marker) × ChosenAt t marks m
unfolding newest_until
newest_until-some t [] marker h = cc
newest_until-some t (m ∷ ms) marker h = elim (Option-cases (newest_until t ms)) [
  | inr (marker', found) ↦
      let (n, e, c) = newest_until-some t ms marker' found in
      (
        n,
        ground (arith, found, h, e),
        record {
          older = m ∷ c.older;
          newer = c.newer;
          split = ap (◌∷◌ m) c.split;
          in_time = c.in_time;
          too_late = c.too_late;
        },
      )
  | inl none' ↦ (
    m,
    ground (arith, none', h),
    record {
      older = [];
      newer = ms;
      split = refl;
      in_time = ground (arith, none', h);
      too_late = newest_until-none t ms none';
    },
  )
]

-- All marks are after t, and m is the oldest.
abbrev pub AllLater : Time → List MarkAt → MarkAt → Type 0
AllLater t marks m = All (λ n. t < n.t) marks × ((rest : List MarkAt) × (marks ≡ m ∷ rest))

-- Whenever a file has marks, a marker is found: that of a mark set at or before t, with every newer
-- mark set after t; or, when all marks were set after t, the oldest one's.
pub mark_before_chosen :
    (t : Time) (m : MarkAt) (marks : List MarkAt)
    → (n : MarkAt) × (mark_before t (m ∷ marks) ≡ some n.marker)
      × (ChosenAt t (m ∷ marks) n ⊎ AllLater t (m ∷ marks) n)
unfolding mark_before
mark_before_chosen t m marks = elim (Option-cases (newest_until t (m ∷ marks))) [
  | inl none' ↦
      (m, ground (arith, none'), inr (newest_until-none t (m ∷ marks) none', (marks, refl)))
  | inr (marker, found) ↦
      let (n, e, c) = newest_until-some t (m ∷ marks) marker found in
      (n, ground (arith, found, e), inl c)
]

-- A new mark goes to the end, and only the oldest are forgotten, and only beyond 256 marks.
pub record_mark_window :
    (now : Time) (marker : Bytes) (marks : List MarkAt)
    → (forgotten : List MarkAt) × (marks ++ record { t = now; marker = marker } ∷ []
        ≡ forgotten ++ record_mark now marker marks)
      × (length (record_mark now marker marks) ≤ marks_kept)
      × ((forgotten ≡ []) ⊎ (length (record_mark now marker marks) ≡ marks_kept))
unfolding record_mark
record_mark_window now marker marks =
    let m : List MarkAt = marks ++ record { t = now; marker = marker } ∷ [] in
    elim (Bool-cases (ltb marks_kept (length m))) [
      | inl over ↦ (
        take (length m - marks_kept) m,
        rw over (sym (take-append-drop (length m - marks_kept) m)),
        rw over (omega (arith, length-drop {0} (length m - marks_kept) m)),
        rw over (inr (ground (arith, over, length-drop {0} (length m - marks_kept) m))),
      )
      | inr under ↦ ([], rw under, rw under (ground (arith, under)), inl refl)
    ]
