-- ===== src/Replay/Counting.antt =====
-- What Run counts.
use rdstail.Prelude.{
  ℕ, ◌+◌, ◌<◌, ◌≡◌, ap, false, Option, none, some, List, [], ◌∷◌, arith, keep_if, length,
  length-keep_if,
}
use rdstail.Failure.{Failure, ok}
use rdstail.Sink.{Trace}
use rdstail.State.{Entries}
use rdstail.State.Dlq.{Dlq, DlqRow, item_of, is_of_sink, dlq_count}
use rdstail.State.Dlq.Order.{IsNumbered}
use rdstail.State.Dlq.Paging.{asked-start, count-deleted}
use rdstail.Replay.{
  SinkConfig, Options, Outside, Replay, going, stopped, is_enough, run, start, by_name,
  replay_pages, Counts,
}
use rdstail.Replay.Items.{
  Handled, not_built, unknown, unreadable, dry, refused, not_deleted, delivered,
}
use rdstail.Replay.Pages.{IsAt, turn_to, replay_pages-end}
use rdstail.Replay.Places.{Handled-IsAt}

abbrev pub all_counted : Counts → ℕ
all_counted c = c.replayed + c.failed + c.skipped

module _ (x : Outside) (cfg : Entries SinkConfig) (opts : Options) (total : ℕ)
    (unlimited : (n : ℕ) → is_enough opts.limit n ≡ false) (wet : opts.dry_run ≡ false) where
  abbrev Counted : List DlqRow → Replay → Type 0
  Counted rest r =
      IsAt opts rest r
      × (all_counted r.counts + length rest ≡ total)
      × (length (keep_if (is_of_sink opts.sink_filter) r.dlq.rows)
          ≡ r.counts.failed + r.counts.skipped + length rest)

  Handled-counts :
      (row : DlqRow) (rest : List DlqRow) (r : Replay) {r' : Replay}
      → Counted (row ∷ rest) r
      → Handled x cfg opts (turn_to r row.id) (item_of row) (going r')
      → (all_counted r'.counts + length rest ≡ total)
        × (length (keep_if (is_of_sink opts.sink_filter) r'.dlq.rows)
            ≡ r'.counts.failed + r'.counts.skipped + length rest)
  unfolding item_of
  Handled-counts row rest r (at, sum, left) (unknown missing) =
      (omega (arith, sum), omega (arith, left))
  Handled-counts row rest r (at, sum, left) (unreadable got bad) =
      (omega (arith, sum), omega (arith, left))
  Handled-counts row rest r (at, sum, left) (dry got idle) = absurd (ground (arith, idle, wet))
  Handled-counts row rest r (at, sum, left) (refused recs e got good bad) =
      (omega (arith, sum), omega (arith, left))
  Handled-counts row rest r (at, sum, left) (delivered recs got w good fine) =
      let (here, numbered) = at in
      let fewer = count-deleted opts.sink_filter r.after_id 0 r.dlq.rows row rest numbered.0 here in
      (omega (arith, sum), omega (arith, left, fewer))

  Handled-Counted :
      (row : DlqRow) (rest : List DlqRow) (r r' : Replay)
      → Counted (row ∷ rest) r
      → Handled x cfg opts (turn_to r row.id) (item_of row) (going r')
      → Counted rest r'
  Handled-Counted row rest r r' counted h =
      let (sum, left) = Handled-counts row rest r counted h in
      (Handled-IsAt x cfg opts row rest r counted.0 h, sum, left)

  abbrev Finished : Replay → Option Failure → Type 0
  Finished r none = Counted [] r
  Finished r (some e) = Unit

  Counted-stopped :
      (row : DlqRow) (rest : List DlqRow) (r : Replay) {r' : Replay} {e : Option Failure}
      → Handled x cfg opts (turn_to r row.id) (item_of row) (stopped r' e)
      → Finished r' e
  Counted-stopped row rest r (not_built c e here bad) = tt
  Counted-stopped row rest r (not_deleted recs e got good fine locked) = tt

  replay_pages-Counted :
      (n : ℕ) (rest : List DlqRow) (r r' : Replay)
      → length rest < n
      → Counted rest r
      → replay_pages x cfg opts n r ≡ some (r', none)
      → Counted [] r'
  replay_pages-Counted n rest r r' h counted returned =
      replay_pages-end x cfg opts Counted Finished (λ rest r c. c.0) (λ r c. c)
        (λ rest r e c why. tt)
        (λ row rest r c full. absurd (ground (arith, full, unlimited r.processed))) Handled-Counted
        (λ row rest r r' e c h. Counted-stopped row rest r h) n rest r r' none h counted returned

module _ (x : Outside) (cfg : List SinkConfig) (opts : Options) where
  -- Where the identifiers of the table are in order, no limit is set and it is no dry run: when Run
  -- returns nil, every item of the sinks that were asked for is counted once, as replayed, failed or
  -- skipped, and what DLQCount then finds are exactly the failed and the skipped ones.
  pub run_counts :
      (d : Dlq) (t : Trace) (r : Replay) (n : ℕ)
      → IsNumbered d
      → ((k : ℕ) → is_enough opts.limit k ≡ false)
      → opts.dry_run ≡ false
      → dlq_count none d opts.sink_filter ≡ ok n
      → run x cfg opts d t ≡ some (r, none)
      → (r.counts.replayed + r.counts.failed + r.counts.skipped ≡ n)
        × (dlq_count none r.dlq opts.sink_filter ≡ ok (r.counts.failed + r.counts.skipped))
  unfolding run dlq_count
  run_counts d t r n numbered unlimited wet counted returned =
      let rows = keep_if (is_of_sink opts.sink_filter) d.rows in
      let at = asked-start opts.sink_filter 0 0 d.rows numbered.0 (omega arith) in
      let short = length-keep_if (is_of_sink opts.sink_filter) d.rows in
      let (place, sum, left) =
        replay_pages-Counted x (by_name cfg []) opts (length rows) unlimited wet (length d.rows + 1)
          rows (start d t) r (omega (arith, short)) ((at, numbered), omega arith, omega arith)
          returned in
      (ground (arith, counted, sum), ap ok (omega (arith, left)))
