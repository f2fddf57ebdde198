-- ===== src/Pipeline/Marks.antt =====
-- internal/pipeline/worker.go: the recent checkpoints of a file, for rewinding to before a restart.
pub mod History
use rdstail.Prelude.{
  ℕ, ◌+◌, ◌-◌, Bool, not, Option, none, some, List, [], ◌∷◌, ◌++◌, Bytes, ltb, length, drop,
  if◌then◌else◌,
}
use rdstail.Record.{Time, after}

abbrev pub marks_kept : ℕ
marks_kept = 256

-- markAt
pub record MarkAt : Type 0 where
  pub t : Time
  pub marker : Bytes

-- recordMark, on the file's marks, oldest first
unfoldable pub record_mark : Time → Bytes → List MarkAt → List MarkAt
record_mark now marker marks =
    let m : List MarkAt = marks ++ record { t = now; marker = marker } ∷ [] in
    if ltb marks_kept (length m) then drop (length m - marks_kept) m else m

-- The loop of markBefore, from the newest.
unfoldable pub newest_until : Time → List MarkAt → Option Bytes
newest_until t [] = none
newest_until t (m ∷ ms) = elim (newest_until t ms) [
  | some marker ↦ some marker
  | none ↦ if not (after m.t t) then some m.marker else none
]

abbrev oldest : List MarkAt → Option Bytes
oldest [] = none
oldest (m ∷ ms) = some m.marker

-- markBefore: the newest marker set at or before t, else the oldest that is known
unfoldable pub mark_before : Time → List MarkAt → Option Bytes
unfolding newest_until
mark_before t marks = elim (newest_until t marks) [
  | some marker ↦ some marker
  | none ↦ oldest marks
]
