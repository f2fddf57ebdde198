-- ===== src/Pipeline/Ring/Dedupe.antt =====
-- What de-duplication drops.
use rdstail.Prelude.{
  ℕ, ◌+◌, ◌-◌, ◌≡◌, List, [], ◌∷◌, arith, Bytes, ltb, ◌==◌, Bool-cases, if◌then◌else◌, min, inl,
  inr, update_ℕ,
}
use rdstail.Record.{LogRecord}
use rdstail.Pipeline.Ring.{ShippedRing, drop_known}

module _ (error_key : Bytes → ℕ) where
  -- How many of the records have the hash.
  abbrev pub with_key : ℕ → List LogRecord → ℕ
  with_key h [] = 0
  with_key h (r ∷ rs) = (if error_key r.message == h then 1 else 0) + with_key h rs

  -- For every hash: the records that are kept are those beyond what the ring remembers and this drain
  -- has not consumed yet, and each record dropped consumes one remembered occurrence. So a line that
  -- was shipped n times absorbs at most n re-read copies, and every further copy is shipped.
  pub drop_known_counts :
      (r : ShippedRing) (recs : List LogRecord) (consumed : ℕ → ℕ) (h : ℕ)
      → (with_key h (drop_known error_key r recs consumed).0
          ≡ with_key h recs - (r.set h - consumed h))
        × ((drop_known error_key r recs consumed).1 h
            ≡ consumed h + min (with_key h recs) (r.set h - consumed h))
  unfolding drop_known
  drop_known_counts r [] consumed h = omega arith
  drop_known_counts r (rec ∷ recs) consumed h =
      let k = error_key rec.message in
      elim (Bool-cases (ltb (consumed k) (r.set k))) [
        | inl seen ↦ rw seen (
            ground (arith, seen, drop_known_counts r recs (update_ℕ consumed k (consumed k + 1)) h))
        | inr new ↦ rw new (ground (arith, new, drop_known_counts r recs consumed h))
      ]
