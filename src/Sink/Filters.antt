-- ===== src/Sink/Filters.antt =====
-- Filters around filters.
use rdstail.Prelude.{
  ◌≡◌, ◌∙◌, refl, sym, ap, Bool, List, [], ◌∷◌, arith, keep_if, Bool-cases, inl, inr, ◌&&◌,
}
use rdstail.Record.{LogRecord}
use rdstail.Sink.{Trace, Sink}
use rdstail.Sink.Decorate.{with_keep, write_kept}

keep_if-keep_if :
    (p q : LogRecord → Bool) (recs : List LogRecord)
    → keep_if q (keep_if p recs) ≡ keep_if (λ r. p r && q r) recs
keep_if-keep_if p q [] = refl
keep_if-keep_if p q (r ∷ recs) = elim (Bool-cases (p r)) [
  | inl kept ↦ rw (kept, keep_if-keep_if p q recs) refl
  | inr dropped ↦ rw (dropped, keep_if-keep_if p q recs) refl
]

keep_if_comm :
    (p q : LogRecord → Bool) (recs : List LogRecord)
    → keep_if q (keep_if p recs) ≡ keep_if p (keep_if q recs)
keep_if_comm p q [] = refl
keep_if_comm p q (r ∷ recs) = ground (arith, keep_if_comm p q recs)

write_kept-with_keep :
    (q : LogRecord → Bool) (s : Sink) (t : Trace) (recs : List LogRecord)
    → write_kept (with_keep q s) t recs ≡ write_kept s t (keep_if q recs)
unfolding with_keep
write_kept-with_keep q s t [] = refl
write_kept-with_keep q s t (r ∷ recs) = refl

-- Two filters around a sink hand on what both keep, in either order of wrapping: the answer and
-- everything that is done are those of one filter that asks for both, and of the filters exchanged.
pub with_keep-with_keep :
    (p q : LogRecord → Bool) (s : Sink) (t : Trace) (recs : List LogRecord)
    → ((with_keep p (with_keep q s)).write t recs ≡ (with_keep (λ r. p r && q r) s).write t recs)
      × ((with_keep p (with_keep q s)).write t recs ≡ (with_keep q (with_keep p s)).write t recs)
unfolding with_keep
with_keep-with_keep p q s t recs = (
  write_kept-with_keep q s t (keep_if p recs) ∙ ap (write_kept s t) (keep_if-keep_if p q recs),
  write_kept-with_keep q s t (keep_if p recs)
      ∙ ap (write_kept s t) (keep_if_comm p q recs)
      ∙ sym (write_kept-with_keep p s t (keep_if q recs)),
)
