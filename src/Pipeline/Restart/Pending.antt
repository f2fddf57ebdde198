-- ===== src/Pipeline/Restart/Pending.antt =====
-- Which restarts are pending for a file.
use rdstail.Prelude.{
  ℕ, zero, suc, ◌+◌, ◌-◌, ◌*◌, ◌^◌, ◌<◌, List, [], ◌∷◌, ◌++◌, refl, All, IsIn, first, further,
  length, drop, ltb, if◌then◌else◌, ◌≤◌, ◌≡◌, ◌≢◌, ◌⊎◌, inl, inr, true, false, none, some, Bytes,
  arith, Bool-cases, same_iff,
}
use rdstail.Record.{Time}
use rdstail.Pipeline.Restart.{
  RestartNote, near, restarts_kept, Restarts, is_known_restart, notify_restart, earliest,
  pending_restart, mark_restart_handled,
}

-- No file is ahead of the restarts that were noticed.
pub record IsOrdered (s : Restarts) : Type 0 where
  pub behind : (file : Bytes) → s.handled_gen file ≤ s.restart_gen

pub notify_restart-IsOrdered :
    (at : Time) (s : Restarts) → IsOrdered s → IsOrdered (notify_restart at s)
unfolding notify_restart
notify_restart-IsOrdered at s o = record { behind = λ file. ground (arith, o.behind file) }

-- Two times less than 90 seconds apart.
abbrev pub IsNear : Time → Time → Type 0
IsNear a b = (a < b + 90 * 10 ^ 9) × (b < a + 90 * 10 ^ 9)

-- A notice of a restart near the time is kept, or none is.
abbrev pub IsNoticed : Time → List RestartNote → Type 0
IsNoticed at notes = (r : RestartNote) × IsIn r notes × IsNear at r.at

near-IsNear :
    (at t : Time) → ((near at t ≡ true) × IsNear at t) ⊎ ((near at t ≡ false) × ¬ (IsNear at t))
near-IsNear at t = elim (Bool-cases (near at t)) [
  | inl close ↦ inl (close, ground (arith, close))
  | inr far ↦ inr (far, λ h. ground (arith, far, h.0, h.1))
]

is_known_restart-IsNoticed :
    (at : Time) (notes : List RestartNote)
    → ((is_known_restart at notes ≡ true) × IsNoticed at notes)
      ⊎ ((is_known_restart at notes ≡ false) × All (λ r. ¬ (IsNear at r.at)) notes)
unfolding is_known_restart
is_known_restart-IsNoticed at [] = inr (refl, tt)
is_known_restart-IsNoticed at (r ∷ notes) = elim (near-IsNear at r.at) [
  | inl (close, is_near) ↦ inl (rw close refl, (r, first, is_near))
  | inr (far, is_far) ↦ elim (is_known_restart-IsNoticed at notes) [
    | inl (known, (n, here, is_near)) ↦ inl (rw (far, known) refl, (n, further here, is_near))
    | inr (new, all_far) ↦ inr (rw (far, new) refl, (is_far, all_far))
  ]
]

-- The note at the end bounds the time that is found.
earliest-last :
    (handled : ℕ) (notes : List RestartNote) (n : RestartNote) (at : Time)
    → handled < n.gen
    → earliest handled (notes ++ n ∷ []) at ≤ n.at
unfolding earliest
earliest-last handled [] n at h = ground (arith, h)
earliest-last handled (r ∷ notes) n at h = earliest-last handled notes n _ h

drop-last :
    (k : ℕ) (notes : List RestartNote) (n : RestartNote)
    → k ≤ length notes
    → drop k (notes ++ n ∷ []) ≡ drop k notes ++ n ∷ []
drop-last zero notes n h = refl
drop-last (suc k) [] n h = absurd (omega (arith, h))
drop-last (suc k) (r ∷ notes) n h = drop-last k notes n (omega (arith, h))

length_last :
    (notes : List RestartNote) (n : RestartNote) → length (notes ++ n ∷ []) ≡ length notes + 1
length_last [] n = refl
length_last (r ∷ notes) n = omega (arith, length_last notes n)

-- The note that was added last is kept.
kept_notes :
    (notes : List RestartNote) (n : RestartNote)
    → let all = notes ++ n ∷ [] in
      (front : List RestartNote) × ((if ltb restarts_kept (length all)
          then drop (length all - restarts_kept) all
          else all)
        ≡ front ++ n ∷ [])
kept_notes notes n = elim (Bool-cases (ltb restarts_kept (length (notes ++ n ∷ [])))) [
  | inl many ↦ (
    drop (length (notes ++ n ∷ []) - restarts_kept) notes,
    rw many (
        drop-last (length (notes ++ n ∷ []) - restarts_kept) notes n
          (omega (arith, length_last notes n))),
  )
  | inr few ↦ (notes, rw few refl)
]

-- Where no file is ahead of the restarts that were noticed: if a restart less than 90 seconds away was
-- noticed and is still kept, a notice changes nothing; if every one that is kept is further away, each
-- file has a restart pending then, with the next generation and a time that is not after the notice.
pub pending_restart-notify_restart :
    (at : Time) (s : Restarts) (file : Bytes)
    → IsOrdered s
    → (IsNoticed at s.restarts × (notify_restart at s ≡ s))
      ⊎ (All (λ r. ¬ (IsNear at r.at)) s.restarts
          × ((t : Time) × (t ≤ at)
              × (pending_restart file (notify_restart at s) ≡ some (t, s.restart_gen + 1))))
unfolding notify_restart pending_restart
pending_restart-notify_restart at s file o = elim (is_known_restart-IsNoticed at s.restarts) [
  | inl (known, noticed) ↦ inl (noticed, rw known refl)
  | inr (new, far) ↦
      let note : RestartNote = record { gen = s.restart_gen + 1; at = at } in
      let handled = s.handled_gen file in
      let (front, kept) = kept_notes s.restarts note in
      inr (
        far,
        (
          earliest handled (notify_restart at s).restarts 0,
          rw (new, notify_restart)
              (rw kept (earliest-last handled front note 0 (omega (arith, o.behind file)))),
          ground (arith, new, o.behind file),
        ),
      )
]

-- Once the generation that was reported is marked as handled, nothing is pending for the file.
pub pending_restart-mark_restart_handled :
    (s : Restarts) (file : Bytes) (t : Time) (gen : ℕ)
    → pending_restart file s ≡ some (t, gen)
    → pending_restart file (mark_restart_handled file gen s) ≡ none
unfolding pending_restart mark_restart_handled
pending_restart-mark_restart_handled s file t gen h = ground (arith, same_iff file file)

-- Marking a restart as handled for one file changes nothing for another.
pub pending_restart-other :
    (s : Restarts) (file other : Bytes) (gen : ℕ)
    → file ≢ other
    → pending_restart other (mark_restart_handled file gen s) ≡ pending_restart other s
unfolding pending_restart mark_restart_handled
pending_restart-other s file other gen ne = ground (arith, same_iff file other)

-- A generation below the one handled is not marked again: the number handled never falls.
pub mark_restart_handled_mono :
    (s : Restarts) (file other : Bytes) (gen : ℕ)
    → (s.handled_gen other ≤ (mark_restart_handled file gen s).handled_gen other)
      × (gen ≤ (mark_restart_handled file gen s).handled_gen file)
unfolding mark_restart_handled
mark_restart_handled_mono s file other gen = ground (arith, same_iff file other, same_iff file file)
