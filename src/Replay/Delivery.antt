-- ===== src/Replay/Delivery.antt =====
-- What was written before an item is deleted.
use rdstail.Prelude.{
  ℕ, ◌+◌, ◌<◌, ◌==◌, ◌≡◌, ◌⊎◌, inl, inr, refl, ap, sym, subst, not, Option, none, some, List, [],
  ◌∷◌, Bytes, arith, keep_if, length, length-keep_if, All, All-map, IsIn, IsIn-keep_if, first,
  All-IsIn, Bool-cases, ==_iff,
}
use rdstail.Record.{LogRecord}
use rdstail.Failure.{Failure}
use rdstail.Sink.{Act, tried, Trace, Sink}
use rdstail.Sink.Decorate.{with_retry, further_attempts}
use rdstail.Sink.Retry.{retry_from-keeps}
use rdstail.Sink.Ack.{retry_from-accepted}
use rdstail.State.{Entries, put}
use rdstail.State.Table.{All-find, All-put}
use rdstail.State.Dlq.{Dlq, DlqRow, item_of, is_of_sink}
use rdstail.State.Dlq.Order.{IsNumbered}
use rdstail.State.Dlq.Paging.{asked-only, asked-start}
use rdstail.Replay.{
  SinkConfig, Options, Outside, Replay, going, stopped, run, start, by_name, replay_pages,
}
use rdstail.Replay.Items.{
  wrap, without, Got, known, built, Handled, not_built, unknown, unreadable, dry, refused,
  not_deleted, delivered,
}
use rdstail.Replay.Pages.{IsAt, turn_to, replay_pages-end}
use rdstail.Replay.Places.{Handled-IsAt}

-- A Write of the row's batch that its sink accepted is in the trace.
abbrev pub IsDelivered : Outside → DlqRow → Trace → Type 0
IsDelivered x row t =
    (recs : List LogRecord) × (x.unmarshal row.payload ≡ some recs)
    × IsIn (tried row.sink_name recs none) t

-- A sink that keeps the trace, and says nil only if the sink of this name accepted the batch.
abbrev IsHonest : Bytes × Sink → Type 0
IsHonest (name, s) =
    (t : Trace) (recs : List LogRecord)
    → ((a : Act) → IsIn a t → IsIn a (s.write t recs).1)
      × ((s.write t recs).0 ≡ none → IsIn (tried name recs none) (s.write t recs).1)

wrap-IsHonest :
    (x : Outside) (c : SinkConfig) (answer : Trace → List LogRecord → Option Failure)
    → IsHonest (c.name, wrap x c answer)
unfolding with_retry
wrap-IsHonest x c answer t recs = (
  retry_from-keeps x.env c.name answer recs (further_attempts x.env c.max_attempts) 1 t,
  λ h.
      let (before, e) =
        retry_from-accepted x.env c.name answer recs (further_attempts x.env c.max_attempts) 1 t
          h in
      subst (IsIn (tried c.name recs none)) (sym e) first,
)

-- Every configuration is filed under its name.
abbrev IsNamed : Bytes × SinkConfig → Type 0
IsNamed (k, c) = c.name ≡ k

by_name-IsNamed :
    (cs : List SinkConfig) (m : Entries SinkConfig) → All IsNamed m → All IsNamed (by_name cs m)
unfolding by_name
by_name-IsNamed [] m h = h
by_name-IsNamed (c ∷ cs) m h =
    by_name-IsNamed cs (put m c.name c) (All-put IsNamed m c.name c h refl)

module _ (x : Outside) (cfg : Entries SinkConfig) (named : All IsNamed cfg) where
  Got-IsHonest :
      (r : Replay) (name : Bytes) {s : Sink} {sinks : Entries Sink}
      → All IsHonest r.sinks
      → Got x cfg r name s sinks
      → IsHonest (name, s) × All IsHonest sinks
  Got-IsHonest r name honest (known {s} there) =
      (All-find IsHonest r.sinks name s honest there, honest)
  Got-IsHonest r name honest (built c answer here made) =
      let filed = All-find IsNamed cfg name c named here in
      let good = subst (λ n. IsHonest (n, wrap x c answer)) filed (wrap-IsHonest x c answer) in
      (good, All-put IsHonest r.sinks name (wrap x c answer) honest good)

  module _ (opts : Options) (rows : List DlqRow) where
    -- No row is lost: it is in the table or it was delivered.
    abbrev Kept : Replay → Type 0
    Kept r = All (λ row. IsIn row r.dlq.rows ⊎ IsDelivered x row r.trace) rows

    abbrev Delivering : List DlqRow → Replay → Type 0
    Delivering rest r = IsAt opts rest r × All IsHonest r.sinks × Kept r

    written :
        (r r' : Replay)
        → ((a : Act) → IsIn a r.trace → IsIn a r'.trace)
        → ((row : DlqRow) → IsIn row r.dlq.rows → IsIn row r'.dlq.rows ⊎ IsDelivered x row r'.trace)
        → Kept r
        → Kept r'
    written r r' keeps stays kept =
        All-map _ _ rows
          (λ row here. elim here [
            | inl listed ↦ stays row listed
            | inr (recs, good, in_trace) ↦
                inr (recs, good, keeps (tried row.sink_name recs none) in_trace)
          ])
          kept

    deleted :
        (r : Replay) (row : DlqRow) (rest : List DlqRow) (t : Trace) (u : DlqRow)
        → IsAt opts (row ∷ rest) r
        → IsDelivered x row t
        → IsIn u r.dlq.rows
        → IsIn u (without r.dlq row.id).rows ⊎ IsDelivered x u t
    deleted r row rest t u (at, numbered) done here = elim (Bool-cases (u.id == row.id)) [
      | inl same_id ↦
          let e =
            asked-only opts.sink_filter r.after_id 0 r.dlq.rows row rest u numbered.0 at here
              ((==_iff u.id row.id).0 same_id) in
          inr (subst (λ w. IsDelivered x w t) (sym e) done)
      | inr another ↦
          inl (IsIn-keep_if (λ y. not (y.id == row.id)) u r.dlq.rows (ap not another) here)
    ]

    Handled-Kept :
        (row : DlqRow) (rest : List DlqRow) (r : Replay) {r' : Replay}
        → Delivering (row ∷ rest) r
        → Handled x cfg opts (turn_to r row.id) (item_of row) (going r')
        → All IsHonest r'.sinks × Kept r'
    unfolding item_of
    Handled-Kept row rest r (at, honest, kept) (unknown missing) = (honest, kept)
    Handled-Kept row rest r (at, honest, kept) (unreadable got bad) =
        ((Got-IsHonest _ _ honest got).1, kept)
    Handled-Kept row rest r (at, honest, kept) (dry got idle) =
        ((Got-IsHonest _ _ honest got).1, kept)
    Handled-Kept row rest r {r'} (at, honest, kept) (refused recs e got good bad) =
        let (one, all) = Got-IsHonest (turn_to r row.id) row.sink_name honest got in
        (all, written r r' (one r.trace recs).0 (λ u here. inl here) kept)
    Handled-Kept row rest r {r'} (at, honest, kept) (delivered recs got wet good fine) =
        let (one, all) = Got-IsHonest (turn_to r row.id) row.sink_name honest got in
        let (keeps, accepted) = one r.trace recs in
        (
          all,
          written r r' keeps (λ u here. deleted r row rest _ u at (recs, good, accepted fine) here)
              kept,
        )

    stopped-Kept :
        (row : DlqRow) (rest : List DlqRow) (r : Replay) {r' : Replay} {e : Option Failure}
        → Delivering (row ∷ rest) r
        → Handled x cfg opts (turn_to r row.id) (item_of row) (stopped r' e)
        → Kept r'
    unfolding item_of
    stopped-Kept row rest r (at, honest, kept) (not_built c e here bad) = kept
    stopped-Kept row rest r {r'} (at, honest, kept) (not_deleted recs e got good fine locked) =
        let (one, all) = Got-IsHonest (turn_to r row.id) row.sink_name honest got in
        written r r' (one r.trace recs).0 (λ u here. inl here) kept

    replay_pages-Kept :
        (n : ℕ) (rest : List DlqRow) (r r' : Replay) (e : Option Failure)
        → length rest < n
        → Delivering rest r
        → replay_pages x cfg opts n r ≡ some (r', e)
        → Kept r'
    replay_pages-Kept n rest r r' e h inv returned =
        replay_pages-end x cfg opts Delivering (λ r e. Kept r) (λ rest r c. c.0) (λ r c. c.2)
          (λ rest r e c why. c.2) (λ row rest r c full. c.2)
          (λ row rest r r' c h.
            let (honest, kept) = Handled-Kept row rest r c h in
            (Handled-IsAt x cfg opts row rest r c.0 h, honest, kept))
          (λ row rest r r' e c h. stopped-Kept row rest r c h) n rest r r' e h inv returned

-- Whatever the sinks, the engine and the context do, whether Run returns nil or an error and whether
-- it is limited: every row that was in the table, whose identifiers are in order, is there still, or
-- its payload was decoded and its sink accepted all of its records in one Write. What was parked is
-- deleted only after it was delivered.
pub run_delivers :
    (x : Outside) (cfg : List SinkConfig) (opts : Options) (d : Dlq) (t : Trace) (r : Replay)
    (e : Option Failure)
    → IsNumbered d
    → run x cfg opts d t ≡ some (r, e)
    → All (λ row. IsIn row r.dlq.rows ⊎ IsDelivered x row r.trace) d.rows
unfolding run
run_delivers x cfg opts d t r e numbered returned =
    let rest = keep_if (is_of_sink opts.sink_filter) d.rows in
    let at = asked-start opts.sink_filter 0 0 d.rows numbered.0 (omega arith) in
    let short = length-keep_if (is_of_sink opts.sink_filter) d.rows in
    replay_pages-Kept x (by_name cfg []) (by_name-IsNamed cfg [] tt) opts d.rows (length d.rows + 1)
      rest (start d t) r e (omega (arith, short))
      ((at, numbered), tt, All-IsIn _ d.rows (λ row here. inl here)) returned
