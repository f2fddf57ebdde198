-- ===== src/Pipeline/Position/Rewind.antt =====
-- What rewinding re-reads.
use rdstail.Prelude.{
  ℕ, zero, suc, ◌+◌, ◌-◌, ◌≤◌, ◌<◌, min, ◌≡◌, ◌≢◌, ◌⊎◌, inl, inr, refl, true, false, [], arith,
  Bytes, leb, leb→le, Bool-cases,
}
use rdstail.Text.{max_int64}
use rdstail.Source.Marker.{offset_marker-make_marker, make_marker, marker_beginning}
use rdstail.Pipeline.Position.{rewind_bytes, rewind_to, rewind_marker}

rewind_to-zero : (prefix : Bytes) (n : ℕ) → n ≡ 0 → rewind_to prefix n ≡ (marker_beginning, false)
rewind_to-zero prefix zero h = refl
rewind_to-zero prefix (suc n) h = absurd (omega arith)

rewind_to-pos : (prefix : Bytes) (n : ℕ) → 0 < n → rewind_to prefix n ≡ (make_marker prefix n, true)
rewind_to-pos prefix zero h = absurd (omega arith)
rewind_to-pos prefix (suc n) h = refl

rewind_to_cases :
    (prefix : Bytes) (at : ℕ)
    → ((start : ℕ) × (start + rewind_bytes ≡ at)
        × (0 < start)
        × (rewind_to prefix (at - rewind_bytes) ≡ (make_marker prefix start, true)))
      ⊎ ((at ≤ rewind_bytes) × (rewind_to prefix (at - rewind_bytes) ≡ (marker_beginning, false)))
rewind_to_cases prefix at = elim (Bool-cases (leb at rewind_bytes)) [
  | inl short ↦ inr (leb→le _ _ short, rewind_to-zero prefix _ (omega (arith, leb→le _ _ short)))
  | inr long ↦
      inl (at - rewind_bytes, ground arith, ground arith, rewind_to-pos prefix _ (ground arith))
]

-- From `prefix:off`, with more than `rewind_bytes` before the smaller of `off` and the file's size,
-- the rewound marker is `prefix:start` with `start` exactly `rewind_bytes` before it, and the read
-- starts mid-file. Otherwise it is the beginning of the file, read whole.
pub rewind_marker-make_marker :
    (prefix : Bytes) (off size : ℕ)
    → prefix ≢ []
    → off ≤ max_int64
    → ((start : ℕ) × (start + rewind_bytes ≡ min off size)
        × (0 < start)
        × (rewind_marker (make_marker prefix off) size ≡ (make_marker prefix start, true)))
      ⊎ ((min off size ≤ rewind_bytes)
          × (rewind_marker (make_marker prefix off) size ≡ (marker_beginning, false)))
unfolding rewind_marker
rewind_marker-make_marker prefix off size h k =
    rw (offset_marker-make_marker prefix off h k, rewind_marker)
      (rewind_to_cases prefix (min off size))
