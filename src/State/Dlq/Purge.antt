-- ===== src/State/Dlq/Purge.antt =====
-- Counting and purging dead-lettered items.
use rdstail.Prelude.{
  ℕ, ◌≡◌, ◌≢◌, refl, not, none, List, [], ◌∷◌, Bytes, arith, keep_if, length, same_iff,
}
use rdstail.Failure.{ok}
use rdstail.State.Dlq.{DlqRow, Dlq, is_of_sink, dlq_count, dlq_purge}

count-purged :
    (rs : List DlqRow) (s : Bytes)
    → length (keep_if (is_of_sink s) (keep_if (λ r. not (is_of_sink s r)) rs)) ≡ 0
count-purged [] s = refl
count-purged (r ∷ rs) s = ground (arith, count-purged rs s)

count-others :
    (rs : List DlqRow) (s u : Bytes)
    → s ≢ []
    → u ≢ []
    → s ≢ u
    → length (keep_if (is_of_sink u) (keep_if (λ r. not (is_of_sink s r)) rs))
      ≡ length (keep_if (is_of_sink u) rs)
count-others [] s u hs hu ne = refl
count-others (r ∷ rs) s u hs hu ne = ground (
  arith,
  count-others rs s u hs hu ne,
  same_iff s [],
  same_iff u [],
  same_iff r.sink_name s,
  same_iff r.sink_name u,
)

-- DLQPurge returns what DLQCount returned before it for the same name, after which DLQCount returns 0
-- for it, and for another sink what it returned before; neither name is empty, which stands for all.
pub dlq_purge-dlq_count :
    (d d' : Dlq) (s u : Bytes) (n : ℕ)
    → s ≢ []
    → u ≢ []
    → s ≢ u
    → dlq_purge none d s ≡ ok (n, d')
    → (dlq_count none d s ≡ ok n)
      × (dlq_count none d' s ≡ ok 0)
      × (dlq_count none d' u ≡ dlq_count none d u)
unfolding dlq_purge dlq_count
dlq_purge-dlq_count d d' s u n hs hu ne e =
    ground (arith, e, count-purged d.rows s, count-others d.rows s u hs hu ne)
