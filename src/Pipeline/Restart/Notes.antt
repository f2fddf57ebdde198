-- ===== src/Pipeline/Restart/Notes.antt =====
-- What is kept of the restarts, and which time a re-read goes back to.
use rdstail.Prelude.{
  ◌⊎◌, ℕ, zero, suc, ◌+◌, ◌-◌, ◌≤◌, ◌<◌, ◌≡◌, ◌≢◌, inl, inr, false, List, [], ◌∷◌, ◌++◌, Bytes,
  arith, ltb, Bool-cases, All, All-append, length, length-drop, drop, ◌&&◌, ◌||◌, if◌then◌else◌,
  some, subst,
}
use rdstail.Record.{Time, is_zero, before}
use rdstail.Pipeline.Restart.{
  RestartNote, Restarts, is_known_restart, notify_restart, earliest, pending_restart, near,
  restarts_kept,
}

-- No two of the times are within the window of each other.
abbrev IsApart : RestartNote → RestartNote → Type 0
IsApart a b = near b.at a.at ≡ false

abbrev pub AreApart : List RestartNote → Type 0
AreApart [] = Unit
AreApart (r ∷ rs) = All (IsApart r) rs × AreApart rs

-- At most 32 notes, no two of them near each other.
pub record IsTidy (s : Restarts) : Type 0 where
  pub few : length s.restarts ≤ restarts_kept
  pub apart : AreApart s.restarts

drop-All : (P : RestartNote → Type 0) (n : ℕ) (rs : List RestartNote) → All P rs → All P (drop n rs)
drop-All P zero rs h = h
drop-All P (suc n) [] h = tt
drop-All P (suc n) (r ∷ rs) h = drop-All P n rs h.1

drop-AreApart : (n : ℕ) (rs : List RestartNote) → AreApart rs → AreApart (drop n rs)
drop-AreApart zero rs h = h
drop-AreApart (suc n) [] h = tt
drop-AreApart (suc n) (r ∷ rs) h = drop-AreApart n rs h.1

snoc-AreApart :
    (r : RestartNote) (rs : List RestartNote)
    → is_known_restart r.at rs ≡ false
    → AreApart rs
    → AreApart (rs ++ r ∷ [])
unfolding is_known_restart
snoc-AreApart r [] h a = (tt, tt)
snoc-AreApart r (x ∷ rs) h a = (
  All-append (IsApart x) rs (r ∷ []) a.0 (ground (arith, h), tt),
  snoc-AreApart r rs (ground (arith, h)) a.1,
)

abbrev with_note : Time → Restarts → List RestartNote
with_note at s = s.restarts ++ record { gen = s.restart_gen + 1; at = at } ∷ []

-- Every notice leaves at most 32 notes, no two of them within 90 seconds.
pub notify_restart-IsTidy : (at : Time) (s : Restarts) → IsTidy s → IsTidy (notify_restart at s)
unfolding notify_restart
notify_restart-IsTidy at s t = elim (Bool-cases (is_known_restart at s.restarts)) [
  | inl known ↦ rw known t
  | inr new ↦
      let notes = with_note at s in
      let apart : AreApart notes = snoc-AreApart _ s.restarts new t.apart in
      elim (Bool-cases (ltb restarts_kept (length notes))) [
        | inl over ↦
            rw (new, over)
              (record {
                few = omega (arith, length-drop {0} (length notes - restarts_kept) notes);
                apart = drop-AreApart _ notes apart;
              })
        | inr under ↦ rw (new, under) (record { few = ground (arith, under); apart = apart })
      ]
]

-- The note was given a time, which is never Go's zero time.
abbrev pub IsTimed : RestartNote → Type 0
IsTimed r = r.at ≢ 0

earliest-le_start :
    (handled : ℕ) (rs : List RestartNote) (at : Time)
    → All IsTimed rs
    → at ≢ 0
    → (earliest handled rs at ≤ at) × (earliest handled rs at ≢ 0)
unfolding earliest
earliest-le_start handled [] at h nz = (omega arith, nz)
earliest-le_start handled (r ∷ rs) at h nz =
    elim (Bool-cases (ltb handled r.gen && before r.at at)) [
      | inl sooner ↦ ground (arith, sooner, h.0, earliest-le_start handled rs r.at h.1)
      | inr later ↦ ground (arith, later, h.0, earliest-le_start handled rs at h.1)
    ]

-- The restart was handled, or the time is not after it.
abbrev pub IsCovered : ℕ → Time → RestartNote → Type 0
IsCovered handled t r = (r.gen ≤ handled) ⊎ (t ≤ r.at)

covered :
    (handled : ℕ) (t : Time) (r : RestartNote)
    → (handled < r.gen → t ≤ r.at)
    → IsCovered handled t r
covered handled t r h = elim (Bool-cases (ltb handled r.gen)) [
  | inl newer ↦ inr (h (ground (arith, newer)))
  | inr older ↦ inl (ground (arith, older))
]

earliest-IsCovered :
    (handled : ℕ) (rs : List RestartNote) (at : Time)
    → All IsTimed rs
    → All (IsCovered handled (earliest handled rs at)) rs
unfolding earliest
earliest-IsCovered handled [] at h = tt
earliest-IsCovered handled (r ∷ rs) at h =
    let next : Time = if ltb handled r.gen && (is_zero at || before r.at at) then r.at else at in
    (
      covered handled _ r (λ newer.
          ground (
            arith,
            h.0,
            earliest-le_start handled rs at h.1,
            earliest-le_start handled rs r.at h.1,
          )),
      earliest-IsCovered handled rs next h.1,
    )

-- The time that is reported for a file lies at or before every restart that is noted and that the
-- file was not re-verified after: a rewind to before it is a rewind to before them all.
pub pending_restart-IsCovered :
    (s : Restarts) (file : Bytes) (t : Time) (gen : ℕ)
    → All IsTimed s.restarts
    → pending_restart file s ≡ some (t, gen)
    → All (IsCovered (s.handled_gen file) t) s.restarts
unfolding pending_restart
pending_restart-IsCovered s file t gen timed h =
    let e : earliest (s.handled_gen file) s.restarts 0 ≡ t = ground (arith, h) in
    subst (λ (u : Time). All (IsCovered (s.handled_gen file) u) s.restarts) e
      (earliest-IsCovered (s.handled_gen file) s.restarts 0 timed)
